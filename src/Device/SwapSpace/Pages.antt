-- ===== src/Device/SwapSpace/Pages.antt =====
-- device/fs/fs.cpp: the swap space hands out each page once, and keeps what is written to it.
use ferry_os.Prelude.{
  ℕ, ◌+◌, ◌≤◌, ◌<◌, ◌≡◌, refl, ◌⊎◌, inl, inr, true, false, Option, some, List, arith, if◌then◌else◌,
  get_or, set, length, ltb, leb, ◌==◌, Option-cases, length-set, le→leb, Bool-cases, lt→ltb, ◌∙◌,
}
use native.Mathlib.Decide.{dec_lt}
use ferry_os.Device.SwapSpace.{
  SwapSpace, init, dump_page_into_swap, load_page_into_memory, find_free, alloc_swap_page,
  clear_swap_page, fresh_page, reuse_page,
}
use ferry_os.Device.SwapSpace.Bitmap.{
  total, total-le-length, total-le_of_above, total-replicate, total-set-true, total-set-false,
  get_or-set, get_or-replicate, length-replicate, stretch-le-total, find_free_sound,
  find_free_complete,
}

-- The allocated pages are the first `alloc_page` ones, pages in use are allocated, and the counter
-- of used pages is the number of bits set.
pub record IsConsistent (s : SwapSpace) : Type 0 where
  pub bitmap_fits : length s.bitmap ≡ s.space_page
  pub allocmap_fits : length s.allocmap ≡ s.space_page
  pub alloc_fits : s.alloc_page ≤ s.space_page
  pub counted : s.used_page ≡ total s.bitmap
  pub allocated : (j : ℕ) → get_or s.allocmap j false ≡ ltb j s.alloc_page
  pub unallocated_free : (j : ℕ) → s.alloc_page ≤ j → get_or s.bitmap j false ≡ false

pub init-IsConsistent : (n : ℕ) (file : Option (ℕ → List ℕ)) → IsConsistent (init n file)
unfolding init
init-IsConsistent n file = record {
  bitmap_fits = length-replicate n;
  allocmap_fits = length-replicate n;
  alloc_fits = omega arith;
  counted = omega (arith, total-replicate n);
  allocated = λ j. ground (arith, get_or-replicate n j);
  unallocated_free = λ j _. get_or-replicate n j;
}

-- The search finds a page whenever the counters say that there is one.
find_free_total :
    (s : SwapSpace)
    → IsConsistent s
    → s.used_page < s.alloc_page
    → (p : ℕ) × (find_free s.alloc_page 0 s.bitmap s.allocmap ≡ some p)
find_free_total s h lt = elim (Option-cases (find_free s.alloc_page 0 s.bitmap s.allocmap)) [
  | inr (p, e) ↦ (p, e)
  | inl e ↦ absurd (
      omega (
        arith,
        stretch-le-total s.alloc_page s.bitmap (λ j hj.
            find_free_complete s.alloc_page 0 s.bitmap s.allocmap j e (omega arith) (omega arith)
              (ground (arith, h.allocated j))),
        h.counted,
      ))
]

used-le-alloc : (s : SwapSpace) → IsConsistent s → s.used_page ≤ s.alloc_page
used-le-alloc s h =
    omega (arith, h.counted, total-le_of_above s.alloc_page s.bitmap h.unallocated_free)

fresh_page_full :
    (page_size : ℕ) (s : SwapSpace)
    → s.space_page ≤ s.alloc_page
    → fresh_page page_size s ≡ (s, s.space_page)
unfolding fresh_page
fresh_page_full page_size s h = rw (le→leb _ _ h)

-- What a new page changes.
pub fresh_page_fields :
    (page_size : ℕ) (s : SwapSpace)
    → s.alloc_page < s.space_page
    → let (t, p) = fresh_page page_size s in
      (p ≡ s.alloc_page)
      × (t.used_page ≡ s.used_page + 1)
      × (t.alloc_page ≡ s.alloc_page + 1)
      × (t.space_page ≡ s.space_page)
      × (t.bitmap ≡ set s.bitmap s.alloc_page true)
      × (t.allocmap ≡ set s.allocmap s.alloc_page true)
unfolding fresh_page dump_page_into_swap
fresh_page_fields page_size s h = ground arith

-- The three outcomes of an allocation.
pub alloc_swap_page_cases :
    (page_size : ℕ) (s : SwapSpace)
    → IsConsistent s
    → ((p : ℕ) × (p < s.alloc_page)
        × (get_or s.bitmap p false ≡ false)
        × (alloc_swap_page page_size s ≡ reuse_page p s))
      ⊎ (((s.used_page ≡ s.alloc_page)
            × (s.alloc_page < s.space_page)
            × (alloc_swap_page page_size s ≡ fresh_page page_size s))
          ⊎ ((s.used_page ≡ s.space_page) × (alloc_swap_page page_size s ≡ (s, s.space_page))))
unfolding alloc_swap_page
alloc_swap_page_cases page_size s h = elim (dec_lt s.used_page s.alloc_page) [
  | yes lt ↦
      let (p, e) = find_free_total s h lt in
      let (m, b, _) = find_free_sound s.alloc_page 0 s.bitmap s.allocmap p e in
      inl (p, ground (arith, h.allocated p), b, rw (lt→ltb _ _ lt, e))
  | no ge ↦ elim (dec_lt s.alloc_page s.space_page) [
    | yes room ↦ inr (inl (omega (arith, used-le-alloc s h), room, ground arith))
    | no none_left ↦ inr (
        inr (
          omega (arith, used-le-alloc s h, h),
          ground (arith, fresh_page_full page_size s (omega arith)),
        ))
  ]
]

reuse-IsConsistent :
    (p : ℕ) (s : SwapSpace)
    → IsConsistent s
    → p < s.alloc_page
    → get_or s.bitmap p false ≡ false
    → IsConsistent (reuse_page p s).0
unfolding reuse_page
reuse-IsConsistent p s h lt free = record {
  bitmap_fits = length-set s.bitmap p true ∙ h.bitmap_fits;
  allocmap_fits = h.allocmap_fits;
  alloc_fits = h.alloc_fits;
  counted = omega (arith, h, total-set-true s.bitmap p (omega (arith, h)) free);
  allocated = h.allocated;
  unallocated_free =
      λ j le. ground (arith, get_or-set s.bitmap p j true (omega (arith, h)), h.unallocated_free j);
}

fresh-IsConsistent :
    (page_size : ℕ) (s : SwapSpace)
    → IsConsistent s
    → s.alloc_page < s.space_page
    → IsConsistent (fresh_page page_size s).0
fresh-IsConsistent page_size s h lt =
    let (_, used, alloc, space, bits, allocs) = fresh_page_fields page_size s lt in
    let free = h.unallocated_free s.alloc_page (omega arith) in
    record {
      bitmap_fits = rw (bits, space) (length-set s.bitmap s.alloc_page true ∙ h.bitmap_fits);
      allocmap_fits =
          rw (allocs, space) (length-set s.allocmap s.alloc_page true ∙ h.allocmap_fits);
      alloc_fits = omega arith;
      counted =
          rw (used, bits)
            (omega
              (arith, h.counted, total-set-true s.bitmap s.alloc_page (omega (arith, h)) free));
      allocated = λ j.
          rw (allocs, alloc)
            (ground
              (arith, get_or-set s.allocmap s.alloc_page j true (omega (arith, h)), h.allocated j));
      unallocated_free = λ j le. rw bits (
          ground (
            arith,
            get_or-set s.bitmap s.alloc_page j true (omega (arith, h)),
            h.unallocated_free j,
            alloc,
          ));
    }

-- Releasing a page keeps the bookkeeping consistent, also for a page that is not in use or out of
-- range.
pub clear_swap_page-IsConsistent :
    (p : ℕ) (s : SwapSpace) → IsConsistent s → IsConsistent (clear_swap_page p s)
unfolding clear_swap_page
clear_swap_page-IsConsistent p s h = elim (Bool-cases (leb s.space_page p)) [
  | inl out ↦ rw out h
  | inr inside ↦ elim (Bool-cases (get_or s.bitmap p false)) [
    | inr free ↦ rw (inside, free) h
    | inl used ↦
        rw (inside, used)
          (record {
            bitmap_fits = length-set s.bitmap p false ∙ h.bitmap_fits;
            allocmap_fits = h.allocmap_fits;
            alloc_fits = h.alloc_fits;
            counted = omega (arith, h.counted, total-set-false s.bitmap p used);
            allocated = h.allocated;
            unallocated_free = λ j le.
                ground
                  (arith, get_or-set s.bitmap p j false (ground (arith, h)), h.unallocated_free j);
          })
  ]
]

-- While a page is unused, an allocation marks a free page of the swap space as used and no other,
-- counts it, and keeps the bookkeeping consistent.
pub alloc_swap_page_lem :
    (page_size : ℕ) (s : SwapSpace) (j : ℕ)
    → IsConsistent s
    → s.used_page < s.space_page
    → let (t, p) = alloc_swap_page page_size s in
      (p < s.space_page)
      × (get_or s.bitmap p false ≡ false)
      × (get_or t.bitmap j false ≡ (if p == j then true else get_or s.bitmap j false))
      × (t.used_page ≡ s.used_page + 1)
      × IsConsistent t
unfolding reuse_page
alloc_swap_page_lem page_size s j h room = elim (alloc_swap_page_cases page_size s h) [
  | inl (p, lt, free, e) ↦ rw e (
    omega (arith, h),
    free,
    get_or-set s.bitmap p j true (omega (arith, h)),
    refl,
    reuse-IsConsistent p s h lt free,
  )
  | inr (inl (all, lt, e)) ↦
      let (q, used, _, _, bits, _) = fresh_page_fields page_size s lt in
      rw e (
        omega (arith, q),
        rw q (h.unallocated_free s.alloc_page (omega arith)),
        rw (bits, q) (get_or-set s.bitmap s.alloc_page j true (omega (arith, h))),
        used,
        fresh-IsConsistent page_size s h lt,
      )
  | inr (inr (all, e)) ↦ absurd (omega arith)
]

-- With every page in use, an allocation changes nothing and returns the number that means failure.
pub alloc_swap_page_full :
    (page_size : ℕ) (s : SwapSpace)
    → IsConsistent s
    → s.used_page ≡ s.space_page
    → alloc_swap_page page_size s ≡ (s, s.space_page)
alloc_swap_page_full page_size s h full = elim (alloc_swap_page_cases page_size s h) [
  | inl (p, lt, free, e) ↦ absurd (
      omega (
        arith,
        h,
        total-set-true s.bitmap p (omega (arith, h)) free,
        total-le-length (set s.bitmap p true),
        length-set s.bitmap p true,
      ))
  | inr (inl (all, lt, e)) ↦ absurd (omega arith)
  | inr (inr (all, e)) ↦ e
]

-- A page that is written to an open swap file reads back as it was written; the other allocated
-- pages read as before, and the bookkeeping is untouched.
pub load-dump :
    (s : SwapSpace) (pages : ℕ → List ℕ) (bytes : List ℕ) (p q : ℕ)
    → s.file ≡ some pages
    → p < s.alloc_page
    → q < s.alloc_page
    → let (t, done) = dump_page_into_swap (some bytes) p s in
      (done ≡ true)
      × (load_page_into_memory q t ≡ (if q == p then some bytes else load_page_into_memory q s))
      × (t.bitmap ≡ s.bitmap)
      × (t.used_page ≡ s.used_page)
unfolding dump_page_into_swap load_page_into_memory
load-dump s pages bytes p q open_file hp hq = ground arith
