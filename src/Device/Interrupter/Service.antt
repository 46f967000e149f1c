-- ===== src/Device/Interrupter/Service.antt =====
-- device/interrupter/interrupter.cpp: which request `respondInt` serves.
use ferry_os.Prelude.{◌%◌, ◌&&◌, ℕ, ◌+◌, ◌^◌, ◌≤◌, ◌<◌, ◌≡◌, ◌≢◌, ◌⊎◌, not, arith, ◌==◌}
use ferry_os.Prelude.Words.{set_bit8, clear_bit8}
use ferry_os.Device.Interrupter.{
  IntController, highest_prio, respond_int, prio_judge, clear_int_req, set_isr,
}
use ferry_os.Device.Interrupter.Priority.{
  bit_at, highest_prio_lowest, clear_bit8-add, bit_at-set_self,
}

-- A request that pre-empts: nothing is in service, or only sources of lower priority.
abbrev pub PreEmpts : IntController → Type 0
PreEmpts c = (c.isr ≡ 0) ⊎ (highest_prio c.irr < highest_prio c.isr)

-- What one answer leaves behind when it serves source `n`.
abbrev pub Serves : ℕ → IntController → IntController × ℕ → Type 0
Serves n c r =
    (r.1 ≡ n)
    × (r.0.int_num ≡ n)
    × (r.0.irr ≡ clear_bit8 c.irr n)
    × (r.0.isr ≡ set_bit8 c.isr n)
    × (r.0.irq ≡ (c.irq && not (r.0.irr == 0)))

pub respond_int-chosen :
    (c : IntController) → PreEmpts c → Serves (highest_prio c.irr) c (respond_int c)
unfolding respond_int prio_judge clear_int_req set_isr
respond_int-chosen c h = ground arith

-- Where the request does not pre-empt, the number left from the last answer is served again.
pub respond_int-stale :
    (c : IntController)
    → c.isr ≢ 0
    → highest_prio c.isr ≤ highest_prio c.irr
    → Serves c.int_num c (respond_int c)
unfolding respond_int prio_judge clear_int_req set_isr
respond_int-stale c h k = ground arith

-- If something is requested and it pre-empts what is in service, the source with the lowest set bit
-- is answered: its request bit goes out and no other, its service bit is set, and the controller
-- goes on signalling just while a request is left.
pub respond_int_serves_highest :
    (c : IntController)
    → 0 < c.irr
    → c.irr < 256
    → c.isr < 256
    → PreEmpts c
    → let (c', n) = respond_int c in
      (n < 8)
      × (bit_at c.irr n ≡ 1)
      × (c.irr % 2 ^ n ≡ 0)
      × (c'.irr + 2 ^ n ≡ c.irr)
      × (bit_at c'.isr n ≡ 1)
      × (c'.irq ≡ (c.irq && not (c'.irr == 0)))
respond_int_serves_highest c pos small work h =
    let (few, is_set, low) = highest_prio_lowest c.irr pos small in
    let (e, _, irr, isr, irq) = respond_int-chosen c h in
    (
      rw e few,
      rw e is_set,
      rw e low,
      rw (e, irr) (clear_bit8-add c.irr (highest_prio c.irr) small few is_set),
      rw (e, isr) (bit_at-set_self c.isr (highest_prio c.irr) work few),
      irq,
    )
