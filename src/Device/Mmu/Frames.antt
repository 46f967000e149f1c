-- ===== src/Device/Mmu/Frames.antt =====
-- device/memory/mmu.cpp: the frame table, and the methods that search it and count in it.
-- A pointer to a frame is its index in the table.
pub mod Counts
use ferry_os.Prelude.{
  ℕ, zero, suc, ◌+◌, Bool, not, ◌&&◌, Option, none, some, List, [], ◌∷◌, ◌==◌, if◌then◌else◌,
}
use ferry_os.Device.PageTableItem.{FrameTableItem, is_occupied_by, clear_frame}

-- The index of the first frame that passes a test: the loops of the `get` methods.
unfoldable pub first_frame : (FrameTableItem → Bool) → List FrameTableItem → Option ℕ
first_frame test [] = none
first_frame test (f ∷ frames) =
    if test f
    then some 0
    else elim (first_frame test frames) [ none ↦ none | some i ↦ some (suc i) ]

-- How many frames pass a test: the loops of the counting methods.
unfoldable pub count_frames : (FrameTableItem → Bool) → List FrameTableItem → ℕ
count_frames test [] = 0
count_frames test (f ∷ frames) = (if test f then 1 else 0) + count_frames test frames

-- A method of the frame at an index.
unfoldable pub change_frame :
    (FrameTableItem → FrameTableItem) → ℕ → List FrameTableItem → List FrameTableItem
change_frame change i [] = []
change_frame change zero (f ∷ frames) = change f ∷ frames
change_frame change (suc i) (f ∷ frames) = f ∷ change_frame change i frames

-- `getFrameAddress` of the frame at an index.
unfoldable pub frame_address_at : ℕ → List FrameTableItem → ℕ
frame_address_at i [] = 0
frame_address_at zero (f ∷ frames) = f.frame_address
frame_address_at (suc i) (f ∷ frames) = frame_address_at i frames

abbrev pub is_available : FrameTableItem → Bool
is_available f = not f.occupied && not (f.frame_address == 0)

abbrev pub needs_alloc : FrameTableItem → Bool
needs_alloc f = f.frame_address == 0 && not f.occupied

abbrev pub is_alloced : FrameTableItem → Bool
is_alloced f = not (f.frame_address == 0)

abbrev pub get_frame : ℕ → List FrameTableItem → Option ℕ
get_frame physical_address = first_frame (λ f. f.frame_address == physical_address)

abbrev pub get_available_frame : List FrameTableItem → Option ℕ
get_available_frame = first_frame is_available

abbrev pub get_need_alloc_frame : List FrameTableItem → Option ℕ
get_need_alloc_frame = first_frame needs_alloc

abbrev pub get_available_frame_count : List FrameTableItem → ℕ
get_available_frame_count = count_frames is_available

abbrev pub get_alloced_frame_count : List FrameTableItem → ℕ
get_alloced_frame_count = count_frames is_alloced

abbrev pub get_need_alloc_frame_count : List FrameTableItem → ℕ
get_need_alloc_frame_count = count_frames needs_alloc

abbrev pub get_used_frame_count : List FrameTableItem → ℕ
get_used_frame_count = count_frames (λ f. f.occupied)

unfoldable pub free_frame : ℕ → ℕ → List FrameTableItem → List FrameTableItem
free_frame pid logical_page [] = []
free_frame pid logical_page (f ∷ frames) =
    (if is_occupied_by pid logical_page f then clear_frame f else f)
    ∷ free_frame pid logical_page frames
