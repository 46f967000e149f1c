-- ===== src/Device/Mmu/PageTable.antt =====
-- device/memory/page_table.cpp: the global page table, whose entries are linked in the order of
-- their use. A pointer to an entry is its place in the array at `mPageTableBaseAddress`.
pub mod Lru
pub mod Uses
use ferry_os.Prelude.{
  ℕ, zero, suc, ◌+◌, ◌-◌, ◌^◌, Bool, true, false, ◌&&◌, Option, none, some, List, [], ◌∷◌, ltb, leb,
  ◌==◌, if◌then◌else◌,
}
use ferry_os.Prelude.Words.{u32}
use ferry_os.Device.PageTableItem.{PageTableItem}

-- An entry with its two links.
pub record Slot : Type 0 where
  pub item : PageTableItem
  pub pre : Option ℕ
  pub next : Option ℕ

-- A key of `mPageTableMap`, a logical page and a pid, with its entry.
pub record Key : Type 0 where
  pub key_page : ℕ
  pub key_pid : ℕ
  pub slot : ℕ

-- The list `page_map` has the order of the map's iteration, which is the library's choice: a new key
-- comes first.
pub record PageTable : Type 0 where
  pub page_map : List Key
  pub slots : ℕ → Slot
  pub lru_head : Option ℕ
  pub lru_tail : Option ℕ
  pub capacity : ℕ
  pub used_count : ℕ
  pub alloced_count : ℕ

-- The constructor; the memory for the entries is as it is found.
unfoldable pub new_page_table : ℕ → (ℕ → Slot) → PageTable
new_page_table capacity slots = record {
  page_map = [];
  slots = slots;
  lru_head = none;
  lru_tail = none;
  capacity = capacity;
  used_count = 0;
  alloced_count = 0;
}

abbrev is_key : ℕ → ℕ → Key → Bool
is_key page pid k = k.key_page == page && k.key_pid == pid

unfoldable pub find_key : ℕ → ℕ → List Key → Option ℕ
find_key page pid [] = none
find_key page pid (k ∷ keys) = if is_key page pid k then some k.slot else find_key page pid keys

unfoldable pub erase_key : ℕ → ℕ → List Key → List Key
erase_key page pid [] = []
erase_key page pid (k ∷ keys) = if is_key page pid k then keys else k ∷ erase_key page pid keys

-- `insert` of the map: a key that is there keeps its entry.
unfoldable pub insert_key : ℕ → ℕ → ℕ → List Key → List Key
insert_key page pid k keys = elim (find_key page pid keys) [
  | none ↦ record { key_page = page; key_pid = pid; slot = k } ∷ keys
  | some _ ↦ keys
]

-- `map[key] = k`: a key that is there gets the new entry, in its place.
unfoldable pub assign_key : ℕ → ℕ → ℕ → List Key → List Key
assign_key page pid k [] = record { key_page = page; key_pid = pid; slot = k } ∷ []
assign_key page pid k (e ∷ keys) =
    if is_key page pid e then record e { slot = k } ∷ keys else elim (find_key page pid keys) [
      | none ↦ record { key_page = page; key_pid = pid; slot = k } ∷ e ∷ keys
      | some _ ↦ e ∷ assign_key page pid k keys
    ]

abbrev pub get_page_table_item : ℕ → ℕ → PageTable → Option ℕ
get_page_table_item page pid t = find_key page pid t.page_map

unfoldable pub is_full : PageTable → Bool
is_full t = leb t.capacity t.used_count

abbrev pub change_slot : (Slot → Slot) → ℕ → (ℕ → Slot) → ℕ → Slot
change_slot change k slots j = if j == k then change (slots j) else slots j

-- A method of the item of an entry.
abbrev pub change_item : (PageTableItem → PageTableItem) → ℕ → (ℕ → Slot) → ℕ → Slot
change_item change = change_slot (λ s. record s { item = change s.item })

abbrev release_item : PageTableItem → PageTableItem
release_item i = record i { hosted = false; used = false }

-- The unsigned counter wraps.
abbrev pub release : ℕ → PageTable → PageTable
release k t = record t {
  slots = change_item release_item k t.slots;
  used_count = u32 (t.used_count + (2 ^ 32 - 1));
}

unfoldable pub delete_page_table_item : ℕ → ℕ → PageTable → PageTable
delete_page_table_item page pid t = elim (get_page_table_item page pid t) [
  | none ↦ t
  | some k ↦ release k t
]

-- The loop of `clearPageForPid` over the keys that are left.
unfoldable pub clear_keys : ℕ → List Key → PageTable → PageTable
clear_keys pid [] t = t
clear_keys pid (k ∷ keys) t =
    let i = (t.slots k.slot).item in
    clear_keys pid keys (if i.pid == pid && i.used then release k.slot t else t)

abbrev pub clear_page_for_pid : ℕ → PageTable → PageTable
clear_page_for_pid pid t = clear_keys pid t.page_map t

-- An assignment through a link, if it is not null.
abbrev pub follow : (Slot → Slot) → Option ℕ → (ℕ → Slot) → ℕ → Slot
follow change none slots = slots
follow change (some k) slots = change_slot change k slots

-- `usedPage` of an entry, one assignment after the other.
unfoldable pub used_item : ℕ → PageTable → PageTable
used_item p t =
    let a = follow (λ s. record s { next = (t.slots p).next }) (t.slots p).pre t.slots in
    let b = follow (λ s. record s { pre = (a p).pre }) (a p).next a in
    let c = change_slot (λ s. record s { next = t.lru_head }) p b in
    let d = follow (λ s. record s { pre = some p }) t.lru_head c in
    record t { slots = d; lru_head = some p }

unfoldable pub used_page : ℕ → ℕ → PageTable → PageTable
used_page page pid t = elim (get_page_table_item page pid t) [ none ↦ t | some k ↦ used_item k t ]

abbrev pub same_link : Option ℕ → Option ℕ → Bool
same_link none none = true
same_link (some a) (some b) = a == b
same_link none (some b) = false
same_link (some a) none = false

-- The loop of `schedule` from a link on, with `fuel` rounds left: the entry to be replaced, or
-- `some none` where the method gives up. The result is none where the rounds do not suffice.
unfoldable pub find_victim : ℕ → PageTable → Option ℕ → Option (Option ℕ)
find_victim fuel t none = some none
find_victim zero t (some k) = none
find_victim (suc fuel) t (some k) =
    let behind = find_victim fuel t (t.slots k).pre in
    if (t.slots k).item.hosted
    then (if same_link (t.slots k).pre t.lru_tail then some none else behind)
    else some (some k)
