-- ===== src/Device/Mmu/ProcessTable.antt =====
-- device/memory/process_table_item.cpp: the table of the virtual pages of one process.
-- `page_bit` is `DEFAULT_PAGE_BIT`; a page has 2 ^ page_bit bytes, to which the configuration sets
-- `DEFAULT_PAGE_SIZE`. Shifts and masks by the page are division and remainder.
pub mod Reuse
use ferry_os.Prelude.{
  ℕ, zero, suc, ◌+◌, ◌-◌, ◌*◌, ◌/◌, ◌%◌, ◌^◌, Bool, true, false, Option, none, some, List, [], ◌∷◌,
  ◌++◌, ltb, leb, ◌==◌, if◌then◌else◌,
}
use ferry_os.Device.SwapSpace.{SwapSpace}
use ferry_os.Device.PageTableItem.{PageTableItem, Physical, set_physical_address, swap_into_memory}

-- The map of the pages is only searched; it holds no null pointer.
pub record ProcessTableItem : Type 0 where
  pub table_pid : ℕ
  pub page_count : ℕ
  pub stack_page_count : ℕ
  pub heap_address : ℕ
  pub heap_used_size : ℕ
  pub process_table_number : ℕ
  pub pages : ℕ → Option PageTableItem

-- The constructor; the number is set afterwards.
unfoldable pub new_table : ℕ → ℕ → ℕ → ℕ → ProcessTableItem
new_table pid page_count stack_page_count number = record {
  table_pid = pid;
  page_count = page_count;
  stack_page_count = stack_page_count;
  heap_address = 0;
  heap_used_size = 0;
  process_table_number = number;
  pages = λ _. none;
}

abbrev pub put_item : ℕ → PageTableItem → ProcessTableItem → ProcessTableItem
put_item page i p = record p { pages = λ q. if q == page then some i else p.pages q }

-- A page that is already in the map stays.
unfoldable pub insert_item : PageTableItem → ProcessTableItem → ProcessTableItem
insert_item i p = elim (p.pages i.logical_page) [ none ↦ put_item i.logical_page i p | some _ ↦ p ]

-- The entry of a page that gets a frame, with the memory that it may be read into.
abbrev pub refill : ℕ → SwapSpace → Physical → PageTableItem → PageTableItem × Physical
refill address s memory i =
    let j = set_physical_address address i in
    let (k, filled, _) = (if j.swapped then swap_into_memory s j memory else (j, memory, false)) in
    (record k { in_memory = true; used = true }, filled)

unfoldable pub update_page_table :
    ℕ → ℕ → SwapSpace → ProcessTableItem → Physical → ProcessTableItem × Physical
update_page_table page address s p memory = elim (p.pages page) [
  | none ↦ (p, memory)
  | some i ↦ (let (j, filled) = refill address s memory i in (put_item page j p, filled))
]

unfoldable pub get_physical_page : ℕ → ℕ → ProcessTableItem → ℕ
get_physical_page page_bit address p = elim (p.pages (address / 2 ^ page_bit)) [
  | none ↦ 0
  | some i ↦ i.physical_address
]

unfoldable pub get_physical_address : ℕ → ℕ → ProcessTableItem → ℕ
get_physical_address page_bit address p =
    let page = get_physical_page page_bit address p in
    if page == 0 then 0 else page + address % 2 ^ page_bit

-- With no page, the unsigned difference wraps.
unfoldable pub get_stack_base_address : ℕ → ProcessTableItem → ℕ
get_stack_base_address page_bit p = (p.page_count * 2 ^ page_bit + (2 ^ 64 - 1)) % 2 ^ 64

unfoldable pub is_valid : ℕ → ℕ → ProcessTableItem → Bool
is_valid page_bit address p = ltb (address / 2 ^ page_bit) p.page_count

unfoldable pub get_alloc_but_not_used_size : ℕ → ProcessTableItem → ℕ
get_alloc_but_not_used_size page_bit p =
    let used = p.heap_used_size % 2 ^ page_bit in if used == 0 then 0 else 2 ^ page_bit - used

abbrev pub get_heap_header : ProcessTableItem → ℕ
get_heap_header p = p.heap_address + p.heap_used_size

-- The page number of an address, rounded up.
unfoldable pub page_up : ℕ → ℕ → ℕ
page_up page_bit address = address / 2 ^ page_bit + (if address % 2 ^ page_bit == 0 then 0 else 1)

abbrev pub take_page : ℕ → Option (List ℕ) → Option PageTableItem → Option (List ℕ)
take_page index rest none = none
take_page index none (some i) = none
take_page index (some taken) (some i) = some (index ∷ taken)

-- The inner loop of `canUsePages`, with `fuel` rounds left and `count` done: it takes the page
-- `index` in each round. The result is none where a page behind it has no entry.
unfoldable pub take_pages : ℕ → ℕ → ℕ → ProcessTableItem → Option (List ℕ)
take_pages zero index count p = some []
take_pages (suc fuel) index count p =
    take_page index (take_pages fuel index (count + 1) p) (p.pages (index + (count + 1)))

-- The outer loop, with `fuel` rounds left. The inner loop ends at `end_page`, so that a run of
-- pages that is too short ends the search.
abbrev pub take_run : ℕ → ℕ → Option (List ℕ) → List ℕ
take_run left count none = []
take_run left count (some taken) = if leb count left then taken else []

abbrev pub look_at : ℕ → ℕ → ℕ → ProcessTableItem → List ℕ → Option PageTableItem → List ℕ
look_at index end_page count p next none = []
look_at index end_page count p next (some i) =
    if i.used
    then next
    else take_run (end_page - index) count (take_pages (end_page - index) index 0 p)

unfoldable pub find_pages : ℕ → ℕ → ℕ → ℕ → ProcessTableItem → List ℕ
find_pages zero index end_page count p = []
find_pages (suc fuel) index end_page count p =
    let next = find_pages fuel (index + 1) end_page count p in
    if leb end_page index then [] else look_at index end_page count p next (p.pages index)

unfoldable pub can_use_pages : ℕ → ℕ → ProcessTableItem → List ℕ
can_use_pages page_bit size p =
    let first = page_up page_bit p.heap_address in
    let last = page_up page_bit (get_heap_header p) in
    find_pages (last - first) first last (page_up page_bit size) p

-- The unsigned difference of the pages wraps.
unfoldable pub can_alloc : ℕ → ℕ → ProcessTableItem → Bool
can_alloc page_bit size p = elim (can_use_pages page_bit size p) [
  | _ ∷ _ ↦ true
  | [] ↦
      ltb (get_heap_header p + size)
        ((p.page_count + 2 ^ 64 - p.stack_page_count) * 2 ^ page_bit % 2 ^ 64)
]
