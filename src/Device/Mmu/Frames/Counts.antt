-- ===== src/Device/Mmu/Frames/Counts.antt =====
-- device/memory/mmu.cpp: the numbers of frames that the unit reports, and the frames that it finds.
use ferry_os.Prelude.{
  ℕ, zero, suc, ◌+◌, ◌≡◌, ◌≢◌, refl, ap, Bool, true, false, Option, none, some, List, [], ◌∷◌,
  arith, length, if◌then◌else◌, Bool-cases, inl, inr, ◌⊎◌, ◌∙◌, sym,
}
use ferry_os.Device.PageTableItem.{FrameTableItem, update_frame}
use ferry_os.Device.Mmu.Frames.{
  first_frame, count_frames, change_frame, frame_address_at, is_available, needs_alloc,
  get_available_frame, get_need_alloc_frame, get_available_frame_count, get_need_alloc_frame_count,
  get_used_frame_count,
}

-- Each frame is available, needs memory or is in use, and is counted once.
pub counts-length :
    (frames : List FrameTableItem)
    → get_available_frame_count frames
        + get_need_alloc_frame_count frames
        + get_used_frame_count frames
      ≡ length frames
unfolding count_frames
counts-length [] = omega arith
counts-length (f ∷ frames) = ground (arith, counts-length frames)

some-suc :
    (o : Option ℕ) (i : ℕ)
    → (elim o as (λ _. Option ℕ) [ none ↦ none | some k ↦ some (suc k) ]) ≡ some i
    → (k : ℕ) × (o ≡ some k) × (i ≡ suc k)
some-suc none i e = absurd (ground arith)
some-suc (some k) i e = (k, refl, ground arith)

some_zero : (i : ℕ) → some 0 ≢ some (suc i)
some_zero i e = ground arith

first_here :
    (test : FrameTableItem → Bool) (f : FrameTableItem) (frames : List FrameTableItem) (i : ℕ)
    → test f ≡ true
    → first_frame test (f ∷ frames) ≢ some (suc i)
unfolding first_frame
first_here test f frames i passes e = some_zero i (sym (rw passes refl) ∙ e)

first_frame-suc :
    (test : FrameTableItem → Bool) (f : FrameTableItem) (frames : List FrameTableItem) (i : ℕ)
    → test f ≡ false
    → first_frame test (f ∷ frames) ≡ some i
    → (k : ℕ) × (first_frame test frames ≡ some k) × (i ≡ suc k)
unfolding first_frame
first_frame-suc test f frames i fails e = some-suc (first_frame test frames) i (rw fails refl ∙ e)

abbrev one_if : Bool → ℕ
one_if b = if b then 1 else 0

-- The frame at the index that the search finds passes the test, and a change of it changes the
-- counts by what it is before and after.
first_frame-found :
    (test : FrameTableItem → Bool) (frames : List FrameTableItem) (i : ℕ)
    → first_frame test frames ≡ some i
    → (f : FrameTableItem) × (test f ≡ true)
      × (frame_address_at i frames ≡ f.frame_address)
      × ((other : FrameTableItem → Bool) (change : FrameTableItem → FrameTableItem)
          → count_frames other (change_frame change i frames) + one_if (other f)
            ≡ count_frames other frames + one_if (other (change f)))
unfolding first_frame count_frames change_frame frame_address_at
first_frame-found test [] i e = absurd (ground arith)
first_frame-found test (f ∷ frames) zero e = elim (Bool-cases (test f)) [
  | inl passes ↦ (f, passes, refl, λ other change. omega arith)
  | inr fails ↦
      (let (k, _, e_suc) = first_frame-suc test f frames 0 fails e in absurd (omega arith))
]
first_frame-found test (f ∷ frames) (suc i) e = elim (Bool-cases (test f)) [
  | inl passes ↦ absurd (first_here test f frames i passes e)
  | inr fails ↦
      (let (k, found, e_suc) = first_frame-suc test f frames (suc i) fails e in
        let (g, passes, at, counts) =
          first_frame-found test frames i (found ∙ ap some (omega arith)) in
        (g, passes, at, λ other change. omega (arith, counts other change)))
]

-- The frame that a search for an available frame or for one that needs memory finds, and that gets a page
-- at an address that is not 0, counts as used from then on; the others count as before.
pub take_frame-counts :
    (frames : List FrameTableItem) (i address page pid : ℕ)
    → address ≢ 0
    → (get_available_frame frames ≡ some i) ⊎ (get_need_alloc_frame frames ≡ some i)
    → let taken = change_frame (update_frame address page pid) i frames in
      (get_available_frame_count taken + get_need_alloc_frame_count taken + 1
        ≡ get_available_frame_count frames + get_need_alloc_frame_count frames)
      × (get_used_frame_count taken ≡ get_used_frame_count frames + 1)
unfolding update_frame
take_frame-counts frames i address page pid there (inl e) =
    let (f, passes, _, counts) = first_frame-found is_available frames i e in
    let change = update_frame address page pid in
    (
      ground (arith, counts is_available change, counts needs_alloc change),
      ground (arith, counts (λ g. g.occupied) change),
    )
take_frame-counts frames i address page pid there (inr e) =
    let (f, passes, _, counts) = first_frame-found needs_alloc frames i e in
    let change = update_frame address page pid in
    (
      ground (arith, counts is_available change, counts needs_alloc change),
      ground (arith, counts (λ g. g.occupied) change),
    )
