-- ===== src/Device/Mmu/State.antt =====
-- device/memory/mmu.h: the state of the memory management unit, the memory of the host and the swap
-- space with it, and what `updateAll` does to it.
use ferry_os.Prelude.{ℕ, ◌+◌, Bool, Option, none, some, List, [], ◌∷◌, ◌==◌, if◌then◌else◌, ◌≡◌, ap}
use ferry_os.Device.SwapSpace.{SwapSpace}
use ferry_os.Device.PageTableItem.{PageTableItem, FrameTableItem, Physical, update_frame}
use ferry_os.Device.Mmu.Frames.{get_frame, change_frame}
use ferry_os.Device.Mmu.ProcessTable.{ProcessTableItem, update_page_table}
use ferry_os.Device.Mmu.PageTable.{PageTable}

-- `page_bit`, `maximum_tasks` and `os_used_page` are those of the configuration; `space_address` is
-- where the next `new char[]` of the host lies.
pub record Mmu : Type 0 where
  pub page_bit : ℕ
  pub maximum_tasks : ℕ
  pub os_used_page : ℕ
  pub page_table : PageTable
  pub frame_table : List FrameTableItem
  pub process_table : List (ℕ × ProcessTableItem)
  pub process_table_used : List Bool
  pub system_address : ℕ
  pub system_used_size : ℕ
  pub hosted_size : ℕ
  pub swap : SwapSpace
  pub memory : Physical
  pub space_address : ℕ

-- A method is its result with the new state, or none where the source follows a null pointer, leaves
-- an array or does not return.
abbrev pub Step : Type 0 → Type 0
Step A = Mmu → Option (A × Mmu)

abbrev pub return : {A : Type 0} → A → Step A
return a m = some (a, m)

infixl 5 ◌>>=◌ ◌>>◌
abbrev pub ◌>>=◌ : {A B : Type 0} → Step A → (A → Step B) → Step B
◌>>=◌ x f m = elim (x m) [ none ↦ none | some (a, n) ↦ f a n ]

abbrev pub ◌>>◌ : {B : Type 0} → Step (Unit {0}) → Step B → Step B
x >> k = x >>= λ _. k

pub then-some :
    {A B : Type 0} (x : Step A) (f : A → Step B) {m n : Mmu} {a : A}
    → x m ≡ some (a, n)
    → (x >>= f) m ≡ f a n
then-some {B = B} x f e =
    ap (λ o. elim o as (λ _. Option (B × Mmu)) [ none ↦ none | some (a, n) ↦ f a n ]) e

unfoldable pub find_process : ℕ → List (ℕ × ProcessTableItem) → Option ProcessTableItem
find_process pid [] = none
find_process pid ((q, p) ∷ table) = if q == pid then some p else find_process pid table

-- The table of a process in place of its old one.
unfoldable pub put_process :
    ℕ → ProcessTableItem → List (ℕ × ProcessTableItem) → List (ℕ × ProcessTableItem)
put_process pid p [] = []
put_process pid p ((q, o) ∷ table) =
    if q == pid then (q, p) ∷ table else (q, o) ∷ put_process pid p table

abbrev pub get_process : ℕ → Mmu → Option ProcessTableItem
get_process pid m = find_process pid m.process_table

unfoldable pub get_process_page_table_item : ℕ → ℕ → Mmu → Option PageTableItem
get_process_page_table_item pid page m = elim (get_process pid m) [
  | none ↦ none
  | some p ↦ p.pages page
]

-- `getFrame` and, where it finds a frame, `updateFrame`.
abbrev pub update_frame_at : ℕ → ℕ → ℕ → List FrameTableItem → List FrameTableItem
update_frame_at page pid address frames = elim (get_frame address frames) [
  | none ↦ frames
  | some i ↦ change_frame (update_frame address page pid) i frames
]

abbrev pub update_table : ℕ → ℕ → ℕ → Mmu → ProcessTableItem → Mmu
update_table page pid address m p =
    let (q, filled) = update_page_table page address m.swap p m.memory in
    record m { process_table = put_process pid q m.process_table; memory = filled }

-- `ProcessTableItem::updatePageTable` of the process with a pid, if there is one.
unfoldable pub update_process : ℕ → ℕ → ℕ → Mmu → Mmu
update_process page pid address m = elim (get_process pid m) [
  | none ↦ m
  | some p ↦ update_table page pid address m p
]

unfoldable pub update_all : ℕ → ℕ → ℕ → Mmu → Mmu
update_all page pid address m =
    let n = record m { frame_table = update_frame_at page pid address m.frame_table } in
    if pid == 0 then n else update_process page pid address n

-- `new char[size]`
abbrev pub new_space : ℕ → Mmu → ℕ × Mmu
new_space size m = (m.space_address, record m { space_address = m.space_address + size })

abbrev pub with_frames : (List FrameTableItem → List FrameTableItem) → Mmu → Mmu
with_frames f m = record m { frame_table = f m.frame_table }

-- A method of the table of a process, if there is one.
unfoldable pub change_process : (ProcessTableItem → ProcessTableItem) → ℕ → Mmu → Mmu
change_process change pid m = elim (get_process pid m) [
  | none ↦ m
  | some p ↦ record m { process_table = put_process pid (change p) m.process_table }
]

abbrev pub use_page_table : (PageTable → PageTable) → Mmu → Mmu
use_page_table f m = record m { page_table = f m.page_table }
