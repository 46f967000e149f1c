-- ===== src/Device/Mmu/ProcessTable/Reuse.antt =====
-- device/memory/process_table_item.cpp: which pages of the heap are given out again.
use ferry_os.Prelude.{
  ℕ, zero, suc, ◌+◌, ◌-◌, ◌≤◌, ◌<◌, ◌≡◌, refl, ◌∙◌, ap, false, none, some, List, [], leb, arith,
  replicate, ◌⊎◌, inl, inr, Bool-cases, Option-cases, leb→le,
}
use ferry_os.Device.PageTableItem.{PageTableItem}
use ferry_os.Device.Mmu.ProcessTable.{
  ProcessTableItem, take_page, take_pages, find_pages, can_use_pages, page_up, get_heap_header,
}

-- A page that the table has and that is not in use.
abbrev pub IsFree : ProcessTableItem → ℕ → Type 0
IsFree p page = (i : PageTableItem) × (p.pages page ≡ some i) × (i.used ≡ false)

take_pages-replicate :
    (fuel index count : ℕ) (p : ProcessTableItem)
    → (take_pages fuel index count p ≡ none)
      ⊎ (take_pages fuel index count p ≡ some (replicate fuel index))
unfolding take_pages
take_pages-replicate zero index count p = inr refl
take_pages-replicate (suc fuel) index count p =
    elim (Option-cases (p.pages (index + (count + 1)))) [
      | inl missing ↦
          inl (ap (take_page index (take_pages fuel index (count + 1) p)) missing ∙ refl)
      | inr (i, there) ↦ elim (take_pages-replicate fuel index (count + 1) p) [
        | inl stops ↦ inl (
            ap (take_page index (take_pages fuel index (count + 1) p)) there
            ∙ ap (λ r. take_page index r (some i)) stops)
        | inr taken ↦ inr (
            ap (take_page index (take_pages fuel index (count + 1) p)) there
            ∙ ap (λ r. take_page index r (some i)) taken)
      ]
    ]

-- Nothing, or one free page many times.
abbrev Result : ℕ → ℕ → ℕ → ProcessTableItem → List ℕ → Type 0
Result index end_page count p pages =
    (pages ≡ [])
    ⊎ ((j : ℕ) × (pages ≡ replicate (end_page - j) j)
        × (index ≤ j)
        × (j < end_page)
        × (count ≤ end_page - j)
        × IsFree p j)

find_pages-Result :
    (fuel index end_page count : ℕ) (p : ProcessTableItem)
    → Result index end_page count p (find_pages fuel index end_page count p)
unfolding find_pages
find_pages-Result zero index end_page count p = inl refl
find_pages-Result (suc fuel) index end_page count p = elim (Bool-cases (leb end_page index)) [
  | inl past ↦ inl (rw past refl)
  | inr before ↦ elim (Option-cases (p.pages index)) [
    | inl missing ↦ inl (rw (before, missing) refl)
    | inr (i, there) ↦ elim (Bool-cases i.used) [
      | inl used ↦ elim (find_pages-Result fuel (index + 1) end_page count p) [
        | inl nothing ↦ inl (rw (before, there, used) nothing)
        | inr (j, e, le, lt, enough, free) ↦
            inr (j, rw (before, there, used) e, omega arith, lt, enough, free)
      ]
      | inr free ↦ elim (take_pages-replicate (end_page - index) index 0 p) [
        | inl stops ↦ inl (rw (before, there, free, stops) refl)
        | inr taken ↦ elim (Bool-cases (leb count (end_page - index))) [
          | inl enough ↦ inr (
            index,
            rw (before, there, free, taken, enough) refl,
            omega arith,
            ground arith,
            leb→le _ _ enough,
            (i, there, free),
          )
          | inr short ↦ inl (rw (before, there, free, taken, short) refl)
        ]
      ]
    ]
  ]
]

-- The search for pages to be used again finds nothing, or gives one and the same page of the heap, which
-- is not in use, at least as often as pages are needed.
pub can_use_pages-one :
    (page_bit size : ℕ) (p : ProcessTableItem)
    → (can_use_pages page_bit size p ≡ [])
      ⊎ ((j : ℕ) × (times : ℕ) × (can_use_pages page_bit size p ≡ replicate times j)
          × (page_up page_bit size ≤ times)
          × (page_up page_bit p.heap_address ≤ j)
          × (j < page_up page_bit (get_heap_header p))
          × IsFree p j)
unfolding can_use_pages
can_use_pages-one page_bit size p =
    let first = page_up page_bit p.heap_address in
    let last = page_up page_bit (get_heap_header p) in
    elim (find_pages-Result (last - first) first last (page_up page_bit size) p) [
      | inl nothing ↦ inl nothing
      | inr (j, e, le, lt, enough, free) ↦ inr (j, last - j, e, enough, le, lt, free)
    ]
