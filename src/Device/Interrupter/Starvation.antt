-- ===== src/Device/Interrupter/Starvation.antt =====
-- device/interrupter/interrupter.cpp with its callers: device/timer/timer.cpp raises source 0,
-- device/processor/processor.cpp answers, and nothing calls `clearIsr`.
use ferry_os.Prelude.{
  refl, Bool, true, not, ◌||◌, ◌&&◌, ◌==◌, holds_under, read_table, ◌∙◌, ℕ, ◌≤◌, ◌<◌, ◌≡◌, ◌≢◌,
  List, [], ◌∷◌, All, arith, ap,
}
use ferry_os.Prelude.Words.{set_bit8, clear_bit8}
use ferry_os.Device.Interrupter.{IntController, highest_prio, respond_int, set_int_req}
use ferry_os.Device.Interrupter.Priority.{bit_at, bit_at-set_bit8, bit_at-clear_bit8}
use ferry_os.Device.Interrupter.Service.{respond_int-stale}

-- What happens to the controller while the system runs.
pub data Event : Type 0 where
  request : ℕ → Event
  respond : Event

abbrev pub IsSource : Event → Type 0
IsSource (request index) = index < 8
IsSource respond = Unit

-- The controller after the events, and the numbers that were answered.
unfoldable pub run : List Event → IntController → IntController × List ℕ
run [] c = (c, [])
run (request index ∷ es) c = run es (set_int_req index c)
run (respond ∷ es) c = let (c', n) = respond_int c in let (last, ns) = run es c' in (last, n ∷ ns)

-- The timer interrupt is in service, with others or alone, and its number was the last answer.
pub record InTimer (c : IntController) : Type 0 where
  pub in_service : bit_at c.isr 0 ≡ 1
  pub byte : c.isr < 256
  pub last_number : c.int_num ≡ 0
  pub fits : c.irr < 256

timer_test : ℕ → Bool
unfolding highest_prio
timer_test x = not (bit_at x 0 == 1) || (highest_prio x == 0 && set_bit8 x 0 == x)

timer_table : holds_under timer_test 256 ≡ true
unfolding holds_under timer_test
timer_table = refl

-- With the timer in service nothing has a higher priority, and its bit is set already.
timer_first : (x : ℕ) → x < 256 → bit_at x 0 ≡ 1 → (highest_prio x ≡ 0) × (set_bit8 x 0 ≡ x)
unfolding timer_test
timer_first x lt on =
    read (highest_prio x) (set_bit8 x 0) (read_table timer_test 256 x timer_table lt)
  where
    read : (p s : ℕ) → (not (bit_at x 0 == 1) || (p == 0 && s == x)) ≡ true → (p ≡ 0) × (s ≡ x)
    read p s h = ground (arith, on)

request-InTimer : (c : IntController) (index : ℕ) → InTimer c → InTimer (set_int_req index c)
unfolding set_int_req
request-InTimer c index h = record {
  in_service = h.in_service;
  byte = h.byte;
  last_number = h.last_number;
  fits = omega (arith, h.fits);
}

respond-InTimer :
    (c : IntController)
    → InTimer c
    → ((respond_int c).1 ≡ 0)
      × InTimer (respond_int c).0
      × ((respond_int c).0.irr ≡ clear_bit8 c.irr 0)
respond-InTimer c h =
    let (first, set) = timer_first c.isr h.byte h.in_service in
    let busy : c.isr ≢ 0 = omega (arith, h.in_service) in
    let lowest : highest_prio c.isr ≤ highest_prio c.irr = omega (arith, first) in
    let (e, num, irr, isr, _) = respond_int-stale c busy lowest in
    let same = isr ∙ ap (λ x. set_bit8 c.isr x) h.last_number ∙ set in
    (
      e ∙ h.last_number,
      record {
        in_service = ap (λ x. bit_at x 0) same ∙ h.in_service;
        byte = omega (arith, same, h.byte);
        last_number = num ∙ h.last_number;
        fits = rw irr (omega arith);
      },
      irr ∙ ap (clear_bit8 c.irr) h.last_number,
    )

-- Once the timer is in service and its number was the last answer, with other sources in service or
-- not, every later answer names the timer, whatever is requested, and no request of another source
-- is ever taken back: the other sources wait for ever.
pub timer_starves :
    (es : List Event)
    → All IsSource es
    → (c : IntController) → InTimer c
    → (i : ℕ) → 0 < i
    → i < 8
    → All (λ n. n ≡ 0) (run es c).1 × (bit_at c.irr i ≤ bit_at (run es c).0.irr i)
unfolding run set_int_req
timer_starves [] sources c h i pos lt = (tt, omega arith)
timer_starves (request index ∷ es) sources c h i pos lt =
    let c' = set_int_req index c in
    let (zeros, kept) = timer_starves es sources.1 c' (request-InTimer c index h) i pos lt in
    (zeros, omega (arith, kept, bit_at-set_bit8 c.irr i index h.fits lt sources.0))
timer_starves (respond ∷ es) sources c h i pos lt =
    let (e, h', irr) = respond-InTimer c h in
    let (zeros, kept) = timer_starves es sources.1 (respond_int c).0 h' i pos lt in
    (
      (e, zeros),
      omega (arith, kept, ap (λ x. bit_at x i) irr, bit_at-clear_bit8 c.irr i h.fits lt pos),
    )
