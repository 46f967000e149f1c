-- ===== src/Device/Mmu/PageTable/Uses.antt =====
-- device/memory/page_table.cpp: what `usedPage` does to the order in which entries are replaced.
use ferry_os.Prelude.{
  Bool-cases, ℕ, ◌+◌, ◌≤◌, ◌≡◌, refl, ◌∙◌, ◌≢◌, true, false, Option, none, some, List, [], ◌∷◌,
  ◌++◌, length, length-append, All, arith, inl, inr, sym, ap, subst, Bool-cases,
}
use ferry_os.Device.PageTableItem.{PageTableItem}
use ferry_os.Device.Mmu.PageTable.{Slot, PageTable, used_item, find_victim}
use ferry_os.Device.Mmu.PageTable.Lru.{
  Walk, first_free, find_victim-first_free, used_item-pre, used_item-item, first_free-same,
  Walk-agree, behind-last, Walk-append, Walk-split,
}

-- Entries other than two given ones.
abbrev pub Others : ℕ → ℕ → List ℕ → Type 0
Others p h = All (λ k. (k ≢ p) × (k ≢ h))

All-map : (P Q : ℕ → Type 0) (ks : List ℕ) → ((k : ℕ) → P k → Q k) → All P ks → All Q ks
All-map P Q [] f a = tt
All-map P Q (k ∷ ks) f (a, as_) = (f k a, All-map P Q ks f as_)

-- A use changes the links back of the head and of the entry behind the used one only.
same_links :
    (t : PageTable) (x p h : ℕ) (ks : List ℕ)
    → (t.slots x).next ≡ some p
    → t.lru_head ≡ some h
    → Others p h ks
    → All (λ k. ((used_item x t).slots k).pre ≡ (t.slots k).pre) ks
same_links t x p h ks n e others =
    All-map (λ k. (k ≢ p) × (k ≢ h)) (λ k. ((used_item x t).slots k).pre ≡ (t.slots k).pre) ks
      (λ k ne. used_item-pre t x p h n e k ∙ ground (arith, ne)) others

used_item-head : (t : PageTable) (x : ℕ) → (used_item x t).lru_head ≡ some x
unfolding used_item
used_item-head t x = refl

-- Walking back from a link meet some entries, then `p`, an entry `x` whose other link is `p`, more
-- entries, and the head `h` last; let `p` and `h` differ and be none of these other entries. After a
-- use of `x` the walk meets the others in the same order and `x` behind the old head, and `x` is the
-- new head.
pub used_item-back :
    (t : PageTable) (x p h : ℕ) (before after : List ℕ) (start : Option ℕ)
    → Walk t.slots start ((before ++ p ∷ []) ++ x ∷ (after ++ h ∷ []))
    → t.lru_head ≡ some h
    → (t.slots x).next ≡ some p
    → p ≢ h
    → Others p h before
    → Others p h after
    → (Walk (used_item x t).slots start ((before ++ p ∷ []) ++ ((after ++ h ∷ []) ++ x ∷ [])))
      × ((used_item x t).lru_head ≡ some x)
used_item-back t x p h before after start w e n ne others others_after =
    let g = (used_item x t).slots in
    let (w1, (_, w2)) = Walk-split t.slots (before ++ p ∷ []) (x ∷ (after ++ h ∷ [])) start w in
    let v1 = Walk-agree t.slots g before p start (same_links t x p h before n e others) w1 in
    let v2 =
      Walk-agree t.slots g after h (t.slots x).pre (same_links t x p h after n e others_after) w2 in
    let at_p = behind-last g before p start ∙ (used_item-pre t x p h n e p ∙ ground arith) in
    let at_h =
      behind-last g after h (t.slots x).pre ∙ (used_item-pre t x p h n e h ∙ ground arith) in
    (
      Walk-append g (before ++ p ∷ []) ((after ++ h ∷ []) ++ x ∷ []) start v1
          (rw at_p (Walk-append g (after ++ h ∷ []) (x ∷ []) (t.slots x).pre v2 (at_h, tt))),
      used_item-head t x,
    )

used_item-tail : (t : PageTable) (x : ℕ) → (used_item x t).lru_tail ≡ t.lru_tail
unfolding used_item
used_item-tail t x = refl

some-none : (k : ℕ) → some k ≢ none
some-none k e = ground arith

first_free-hosted :
    (f : ℕ → Slot) (k : ℕ) (ks : List ℕ)
    → (f k).item.hosted ≡ true
    → first_free f (k ∷ ks) ≡ first_free f ks
unfolding first_free
first_free-hosted f k ks hosted = rw hosted refl

first_free-not_hosted :
    (f : ℕ → Slot) (k : ℕ) (ks : List ℕ)
    → (f k).item.hosted ≡ false
    → first_free f (k ∷ ks) ≡ some k
unfolding first_free
first_free-not_hosted f k ks free = rw free refl

first_free-last :
    (f : ℕ → Slot) (ks : List ℕ) (h : ℕ)
    → first_free f ks ≡ none
    → (f h).item.hosted ≡ false
    → first_free f (ks ++ h ∷ []) ≡ some h
unfolding first_free
first_free-last f [] h all free = rw free refl
first_free-last f (k ∷ ks) h all free = elim (Bool-cases (f k).item.hosted) [
  | inl hosted ↦
      rw hosted (first_free-last f ks h (sym (first_free-hosted f k ks hosted) ∙ all) free)
  | inr not_hosted ↦ absurd (some-none k (sym (first_free-not_hosted f k ks not_hosted) ∙ all))
]

-- The links that do not lead to the tail before do not after the use of the head.
away-used :
    (f g : ℕ → Slot) (tail : Option ℕ) (p h : ℕ) (before : List ℕ)
    → All (λ k. (f k).pre ≢ tail) ((before ++ p ∷ []) ++ h ∷ [])
    → All (λ k. (g k).pre ≡ (f k).pre) before
    → (g p).pre ≡ (f h).pre
    → All (λ k. (g k).pre ≢ tail) (before ++ p ∷ [])
away-used f g tail p h [] (_, (away, _)) same at_p = ((λ e. away (sym at_p ∙ e)), tt)
away-used f g tail p h (k ∷ before) (away, rest) (same, sames) at_p =
    ((λ e. away (sym same ∙ e)), away-used f g tail p h before rest sames at_p)

-- Let the entries from the tail of the list back to its head be hosted but for the head `h`, to which
-- no use has given a link back, and let none lead to the tail. The search replaces `h`; but
-- once `h` is used again, it finds no entry, though `h` can still be replaced.
pub used_item-loses_head :
    (t : PageTable) (p h : ℕ) (before : List ℕ) (fuel : ℕ)
    → Walk t.slots t.lru_tail ((before ++ p ∷ []) ++ h ∷ [])
    → All (λ k. (t.slots k).pre ≢ t.lru_tail) ((before ++ p ∷ []) ++ h ∷ [])
    → t.lru_head ≡ some h
    → (t.slots h).next ≡ some p
    → (t.slots h).pre ≡ none
    → p ≢ h
    → Others p h before
    → first_free t.slots (before ++ p ∷ []) ≡ none
    → (t.slots h).item.hosted ≡ false
    → length before + 2 ≤ fuel
    → (find_victim fuel t t.lru_tail ≡ some (some h))
      × (find_victim fuel (used_item h t) (used_item h t).lru_tail ≡ some none)
      × (((used_item h t).slots h).item.hosted ≡ false)
used_item-loses_head t p h before fuel w away e n last ne others hosted free le =
    let g = (used_item h t).slots in
    let (w1, _) = Walk-split t.slots (before ++ p ∷ []) (h ∷ []) t.lru_tail w in
    let v1 = Walk-agree t.slots g before p t.lru_tail (same_links t h p h before n e others) w1 in
    let at_p = used_item-pre t h p h n e p ∙ ground arith in
    let found = first_free-last t.slots (before ++ p ∷ []) h hosted free in
    (
      find_victim-first_free t ((before ++ p ∷ []) ++ h ∷ []) t.lru_tail fuel w away
            (inl (λ e_none. some-none h (sym found ∙ e_none)))
            (omega
              (arith, length-append (before ++ p ∷ []) (h ∷ []), length-append before (p ∷ [])))
          ∙ ap some found,
      subst (λ o. find_victim fuel (used_item h t) o ≡ some none) (sym (used_item-tail t h))
          (find_victim-first_free (used_item h t) (before ++ p ∷ []) t.lru_tail fuel v1
              (rw (used_item-tail t h) (
                away-used t.slots g t.lru_tail p h before away
                  (same_links t h p h before n e others) at_p))
              (inr (behind-last g before p t.lru_tail ∙ (at_p ∙ last)))
              (omega (arith, length-append before (p ∷ [])))
            ∙ ap some (first_free-same t.slots g (before ++ p ∷ []) (used_item-item t h) ∙ hosted)),
      ap (λ (i : PageTableItem). i.hosted) (used_item-item t h h) ∙ free,
    )
