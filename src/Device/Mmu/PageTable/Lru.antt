-- ===== src/Device/Mmu/PageTable/Lru.antt =====
-- device/memory/page_table.cpp: which entry is replaced, and how a use of an entry changes that.
use ferry_os.Prelude.{
  ℕ, zero, suc, ◌≤◌, ◌≡◌, refl, ◌≢◌, false, Option, none, some, List, [], ◌∷◌, ◌++◌, ◌∙◌, length,
  All, arith, ◌==◌, ==_iff, ap, ◌⊎◌, inl, inr, Bool-cases, Option-cases, if◌then◌else◌,
}
use ferry_os.Device.Mmu.PageTable.{Slot, PageTable, follow, used_item, find_victim, same_link}

-- Walking back from a link meets the entries of the list first, in its order.
abbrev pub Walk : (ℕ → Slot) → Option ℕ → List ℕ → Type 0
Walk slots start [] = Unit
Walk slots start (k ∷ ks) = (start ≡ some k) × Walk slots (slots k).pre ks

-- The link behind a walk.
abbrev pub behind : (ℕ → Slot) → Option ℕ → List ℕ → Option ℕ
behind slots start [] = start
behind slots start (k ∷ ks) = behind slots (slots k).pre ks

-- The first entry of a walk that may be replaced.
unfoldable pub first_free : (ℕ → Slot) → List ℕ → Option ℕ
first_free slots [] = none
first_free slots (k ∷ ks) = if (slots k).item.hosted then first_free slots ks else some k

same_link-false : (a b : Option ℕ) → a ≢ b → same_link a b ≡ false
same_link-false none none h = absurd (h refl)
same_link-false (some a) (some b) h = elim (Bool-cases (a == b)) [
  | inl e ↦ absurd (h (ap some ((==_iff a b).0 e)))
  | inr e ↦ e
]
same_link-false none (some b) h = refl
same_link-false (some a) none h = refl

-- Let a walk from a link meet the entries `ks`, and none of them lead to the tail of the list. If one
-- of them is not hosted, or the walk ends behind them, then as many rounds as there are entries are
-- enough, and the search returns the first of them that is not hosted.
pub find_victim-first_free :
    (t : PageTable) (ks : List ℕ) (start : Option ℕ) (fuel : ℕ)
    → Walk t.slots start ks
    → All (λ k. (t.slots k).pre ≢ t.lru_tail) ks
    → (first_free t.slots ks ≢ none) ⊎ (behind t.slots start ks ≡ none)
    → length ks ≤ fuel
    → find_victim fuel t start ≡ some (first_free t.slots ks)
unfolding find_victim first_free
find_victim-first_free t [] start fuel w h (inl e) le = absurd (e refl)
find_victim-first_free t [] start zero w h (inr e) le = rw e refl
find_victim-first_free t [] start (suc fuel) w h (inr e) le = rw e refl
find_victim-first_free t (k ∷ ks) start zero (e, w) (h, hs) out le = absurd (omega arith)
find_victim-first_free t (k ∷ ks) start (suc fuel) (e, w) (h, hs) out le =
    elim (Bool-cases (t.slots k).item.hosted) [
      | inr free ↦ rw (e, free) refl
      | inl hosted ↦
          rw (e, hosted, same_link-false (t.slots k).pre t.lru_tail h)
            (find_victim-first_free t ks (t.slots k).pre fuel w hs
              (elim out [ inl f ↦ inl (λ n. f (rw hosted n)) | inr b ↦ inr b ]) (omega arith))
    ]

-- The links back after a use of an entry `x`.
pub used_item-pre :
    (t : PageTable) (x p h : ℕ)
    → (t.slots x).next ≡ some p
    → t.lru_head ≡ some h
    → (j : ℕ)
    → ((used_item x t).slots j).pre
      ≡ (if j == h then some x else if j == p then (t.slots x).pre else (t.slots j).pre)
unfolding used_item
used_item-pre t x p h n e j = elim (Option-cases (t.slots x).pre) [
  | inl none_before ↦ rw (none_before, n, e) (ground arith)
  | inr (s, before) ↦ rw (before, n, e) (ground arith)
]

follow-item :
    (change : Slot → Slot)
    → ((s : Slot) → (change s).item ≡ s.item)
    → (link : Option ℕ) (slots : ℕ → Slot) (j : ℕ)
    → (follow change link slots j).item ≡ (slots j).item
follow-item change same none slots j = refl
follow-item change same (some k) slots j = elim (Bool-cases (j == k)) [
  | inl here ↦ rw here (same (slots j))
  | inr there ↦ rw there refl
]

pub used_item-item : (t : PageTable) (x j : ℕ) → ((used_item x t).slots j).item ≡ (t.slots j).item
unfolding used_item
used_item-item t x j =
    let unlink_pre = λ (s : Slot). record s { next = (t.slots x).next } in
    let a = follow unlink_pre (t.slots x).pre t.slots in
    let unlink_next = λ (s : Slot). record s { pre = (a x).pre } in
    let b = follow unlink_next (a x).next a in
    let to_front = λ (s : Slot). record s { next = t.lru_head } in
    let c = follow to_front (some x) b in
    follow-item (λ s. record s { pre = some x }) (λ _. refl) t.lru_head c j
    ∙ (follow-item to_front (λ _. refl) (some x) b j
        ∙ (follow-item unlink_next (λ _. refl) (a x).next a j
            ∙ follow-item unlink_pre (λ _. refl) (t.slots x).pre t.slots j))

pub first_free-same :
    (f g : ℕ → Slot) (ks : List ℕ)
    → ((j : ℕ) → (g j).item ≡ (f j).item)
    → first_free g ks ≡ first_free f ks
unfolding first_free
first_free-same f g [] same = refl
first_free-same f g (k ∷ ks) same = rw (same k, first_free-same f g ks same) refl

-- Links that agree on all entries of a walk but its last.
pub Walk-agree :
    (f g : ℕ → Slot) (ks : List ℕ) (z : ℕ) (start : Option ℕ)
    → All (λ k. (g k).pre ≡ (f k).pre) ks
    → Walk f start (ks ++ z ∷ [])
    → Walk g start (ks ++ z ∷ [])
Walk-agree f g [] z start same (e, w) = (e, tt)
Walk-agree f g (k ∷ ks) z start (same, sames) (e, w) =
    (e, Walk-agree f g ks z (g k).pre sames (rw same w))

pub behind-last :
    (f : ℕ → Slot) (ks : List ℕ) (z : ℕ) (start : Option ℕ)
    → behind f start (ks ++ z ∷ []) ≡ (f z).pre
behind-last f [] z start = refl
behind-last f (k ∷ ks) z start = behind-last f ks z (f k).pre

pub Walk-append :
    (f : ℕ → Slot) (ks rest : List ℕ) (start : Option ℕ)
    → Walk f start ks
    → Walk f (behind f start ks) rest
    → Walk f start (ks ++ rest)
Walk-append f [] rest start w v = v
Walk-append f (k ∷ ks) rest start (e, w) v = (e, Walk-append f ks rest (f k).pre w v)

pub Walk-split :
    (f : ℕ → Slot) (ks rest : List ℕ) (start : Option ℕ)
    → Walk f start (ks ++ rest)
    → Walk f start ks × Walk f (behind f start ks) rest
Walk-split f [] rest start w = (tt, w)
Walk-split f (k ∷ ks) rest start (e, w) =
    let (u, v) = Walk-split f ks rest (f k).pre w in ((e, u), v)
