-- ===== src/Device/Mmu/Access.antt =====
-- device/memory/mmu.cpp, device/memory/process_table_item.cpp: reading and writing the memory of a
-- process. A `uint32_t` or `uint64_t` that is read in one piece has its lowest byte first.
pub mod Bytes
pub mod Reads
pub mod Resident
pub mod Writes
pub mod Loop
pub mod RoundTrip
pub mod Ints
pub mod IntReads
use ferry_os.Prelude.{
  ℕ, zero, suc, ◌+◌, ◌-◌, ◌*◌, ◌/◌, ◌%◌, ◌^◌, ◌≡◌, Bool, true, false, not, ◌&&◌, Option, none, some,
  List, [], ◌∷◌, ltb, leb, ◌==◌, if◌then◌else◌, length, get_or, set,
}
use ferry_os.Device.PageTableItem.{PageTableItem, Physical}
use ferry_os.Device.Mmu.ProcessTable.{ProcessTableItem, is_valid, page_up}
use ferry_os.Device.Mmu.PageTable.{get_page_table_item}
use ferry_os.Device.Mmu.State.{
  Mmu, Step, return, ◌>>=◌, ◌>>◌, get_process, get_process_page_table_item,
}
use ferry_os.Device.Mmu.Schedule.{page_fault, use_page}

-- What a `read` method does with the result of the page fault: it calls itself again or returns 0.
abbrev pub retry : (Mmu → Option (Option ℕ × Mmu)) → Option (Bool × Mmu) → Option (Option ℕ × Mmu)
retry again none = none
retry again (some (true, n)) = again n
retry again (some (false, n)) = some (none, n)

abbrev pub locate_item :
    (Mmu → Option (Option ℕ × Mmu)) → ℕ → ℕ → Mmu → Option PageTableItem → Option (Option ℕ × Mmu)
locate_item again pid page m none = some (none, m)
locate_item again pid page m (some i) =
    if i.in_memory
    then some (some i.physical_address, use_page page pid m)
    else retry again (page_fault pid page (use_page page pid m))

-- The part that the three `read` methods of a process share, with `fuel` calls of the method left:
-- the address of the page, or none where the method returns 0.
unfoldable pub locate : ℕ → ℕ → ℕ → Step (Option ℕ)
locate zero pid page m = none
locate (suc fuel) pid page m =
    locate_item (locate fuel pid page) pid page m (get_process_page_table_item pid page m)

-- A method calls itself once, after a page fault that was served.
abbrev pub rounds : ℕ
rounds = 2

-- `count` bytes from an offset into the page at an address on, as a number.
unfoldable pub fetch : ℕ → ℕ → ℕ → Physical → ℕ
fetch zero base offset memory = 0
fetch (suc count) base offset memory =
    get_or (memory base) offset 0 + 256 * fetch count base (offset + 1) memory

abbrev pub fetch_located : ℕ → ℕ → Option (Option ℕ × Mmu) → Option (ℕ × Mmu)
fetch_located count address none = none
fetch_located count address (some (none, n)) = some (0, n)
fetch_located count address (some (some base, n)) =
    some (fetch count base (address % 2 ^ n.page_bit) n.memory, n)

abbrev pub read_table : ℕ → ℕ → ℕ → Mmu → Option ProcessTableItem → Option (ℕ × Mmu)
read_table count pid address m none = some (0, m)
read_table count pid address m (some p) =
    if is_valid m.page_bit address p
    then fetch_located count address (locate rounds pid (address / 2 ^ m.page_bit) m)
    else some (0, m)

-- The aligned read of `count` bytes of a process.
unfoldable pub read_located : ℕ → ℕ → ℕ → Step ℕ
read_located count pid address m = read_table count pid address m (get_process pid m)

-- `getPhysicalPointer` without the fault of the pages of a process: the address of the page, if it
-- is in the table.
unfoldable pub find_page : ℕ → ℕ → Mmu → Option ℕ
find_page page pid m = elim (get_page_table_item page pid m.page_table) [
  | none ↦ none
  | some k ↦ some (m.page_table.slots k).item.physical_address
]

unfoldable pub get_physical_pointer : ℕ → ℕ → Step (Option ℕ)
get_physical_pointer page pid m =
    if pid == 0 then some (find_page page pid m, m) else elim (find_page page pid m) [
      | some base ↦ some (some base, m)
      | none ↦ (page_fault pid page >>= λ (_ : Bool). λ n. some (find_page page pid n, n)) m
    ]

-- `readByte` of the system, whose pages are in the table or read as 0.
unfoldable pub read_system : ℕ → Mmu → ℕ
read_system address m = elim (find_page (address / 2 ^ m.page_bit) 0 m) [
  | none ↦ 0
  | some base ↦ get_or (m.memory base) (address % 2 ^ m.page_bit) 0
]

unfoldable pub read_byte : ℕ → ℕ → Step ℕ
read_byte pid address m =
    if pid == 0 then some (read_system address m, m) else read_located 1 pid address m

-- The loop over the bytes at `address + 3` down to `address`.
unfoldable pub read_bytes : ℕ → ℕ → ℕ → ℕ → Step ℕ
read_bytes zero pid address value = return value
read_bytes (suc left) pid address value = do
  b ← read_byte pid (address + left)
  read_bytes left pid address ((value * 256 + b) % 2 ^ 32)

unfoldable pub read_half_word : ℕ → ℕ → Step ℕ
read_half_word pid address m =
    if pid == 0 then read_bytes 4 pid address 0 m else elim (get_process pid m) [
      | none ↦ some (0, m)
      | some p ↦
          if not (is_valid m.page_bit address p)
          then some (0, m)
          else if address % 4 == 0
          then read_located 4 pid address m
          else read_bytes 4 pid address 0 m
    ]

abbrev two_halves : ℕ → ℕ → Step ℕ
two_halves pid address = do
  high ← read_half_word pid (address + 4)
  low ← read_half_word pid address
  return (high * 2 ^ 32 + low)

unfoldable pub read_word : ℕ → ℕ → Step ℕ
read_word pid address m = if pid == 0 then two_halves pid address m else elim (get_process pid m) [
  | none ↦ some (0, m)
  | some p ↦
      if not (is_valid m.page_bit address p)
      then some (0, m)
      else if address % 8 == 0
      then read_located 8 pid address m
      else two_halves pid address m
]

-- `memcpy` of a chunk to an offset into the bytes of a page.
unfoldable pub put_bytes : List ℕ → ℕ → List ℕ → List ℕ
put_bytes [] offset chunk = []
put_bytes (b ∷ bytes) (suc offset) chunk = b ∷ put_bytes bytes offset chunk
put_bytes (b ∷ bytes) zero [] = b ∷ bytes
put_bytes (b ∷ bytes) zero (c ∷ chunk) = c ∷ put_bytes bytes zero chunk

abbrev pub store : ℕ → ℕ → List ℕ → Physical → Physical
store base offset chunk memory a = if base == a then put_bytes (memory a) offset chunk else memory a

-- The body of the loop of `write`, for one page and its part of the bytes: the copy to the page
-- of the entry, the step to it when the page was there or a page fault was served, and the whole.
abbrev pub store_in : ℕ → List ℕ → Mmu → Option PageTableItem → Option (Bool × Mmu)
store_in offset chunk n none = none
store_in offset chunk n (some i) =
    some (true, record n { memory = store i.physical_address offset chunk n.memory })

abbrev pub store_after : ℕ → ℕ → ℕ → List ℕ → Option (Bool × Mmu) → Option (Bool × Mmu)
store_after pid page offset chunk none = none
store_after pid page offset chunk (some (false, n)) = some (false, n)
store_after pid page offset chunk (some (true, n)) =
    store_in offset chunk n (get_process_page_table_item pid page n)

abbrev pub write_item : ℕ → ℕ → ℕ → List ℕ → Mmu → Option PageTableItem → Option (Bool × Mmu)
write_item pid page offset chunk m none = some (false, m)
write_item pid page offset chunk m (some i) = store_after pid page offset chunk (
    if i.in_memory
    then some (true, use_page page pid m)
    else page_fault pid page (use_page page pid m))

unfoldable pub write_page : ℕ → ℕ → ℕ → List ℕ → Step Bool
write_page pid page offset chunk m =
    write_item pid page offset chunk m (get_process_page_table_item pid page m)

unfoldable pub first_bytes : ℕ → List ℕ → List ℕ
first_bytes zero bytes = []
first_bytes (suc n) [] = []
first_bytes (suc n) (b ∷ bytes) = b ∷ first_bytes n bytes

unfoldable pub rest_bytes : ℕ → List ℕ → List ℕ
rest_bytes zero bytes = bytes
rest_bytes (suc n) [] = []
rest_bytes (suc n) (b ∷ bytes) = rest_bytes n bytes

-- The loop goes on after a page that was written.
abbrev pub go_on : Step Bool → Option (Bool × Mmu) → Option (Bool × Mmu)
go_on rest none = none
go_on rest (some (false, n)) = some (false, n)
go_on rest (some (true, n)) = rest n

-- The rounds of the loop behind the first, with `count` pages left.
unfoldable pub write_rest : ℕ → ℕ → ℕ → List ℕ → Step Bool
write_rest zero pid page bytes m = some (true, m)
write_rest (suc count) pid page bytes m =
    go_on (write_rest count pid (page + 1) (rest_bytes (2 ^ m.page_bit) bytes))
      (write_page pid page 0 (first_bytes (2 ^ m.page_bit) bytes) m)

-- The bytes that fit into the first page.
abbrev pub first_size : ℕ → ℕ → List ℕ → ℕ
first_size page_bit offset bytes =
    let room = 2 ^ page_bit - offset in if ltb room (length bytes) then room else length bytes

-- `write` of a process, for at least one byte.
unfoldable pub write_all : ℕ → ℕ → ℕ → List ℕ → Step Bool
write_all pid page offset bytes m =
    let first = first_size m.page_bit offset bytes in
    go_on
      (write_rest (page_up m.page_bit (length bytes - first)) pid (page + 1)
        (rest_bytes first bytes))
      (write_page pid page offset (first_bytes first bytes) m)

abbrev pub write_table : ℕ → ℕ → List ℕ → Mmu → Option ProcessTableItem → Option (Bool × Mmu)
write_table pid address bytes m none = some (false, m)
write_table pid address bytes m (some p) =
    if is_valid m.page_bit address p
      && is_valid m.page_bit ((address + length bytes + (2 ^ 64 - 1)) % 2 ^ 64) p
    then (if length bytes == 0
        then some (true, m)
        else write_all pid (address / 2 ^ m.page_bit) (address % 2 ^ m.page_bit) bytes m)
    else some (false, m)

unfoldable pub write_process : ℕ → ℕ → List ℕ → Step Bool
write_process pid address bytes m = write_table pid address bytes m (get_process pid m)

-- `memcpy` from an offset into a page on, through the pages that lie behind it.
unfoldable pub poke : ℕ → ℕ → ℕ → List ℕ → Physical → Physical
poke page_size base offset [] memory = memory
poke page_size base offset (b ∷ bytes) memory =
    let at_page = base + page_size * (offset / page_size) in
    poke page_size base (offset + 1) bytes
      (λ a. if at_page == a then set (memory a) (offset % page_size) b else memory a)

unfoldable pub write : ℕ → List ℕ → ℕ → Step Bool
write address bytes pid m =
    if pid == 0
    then elim (find_page (address / 2 ^ m.page_bit) 0 m) [
      | none ↦ some (false, m)
      | some base ↦ some (
        true,
        record m { memory = poke (2 ^ m.page_bit) base (address % 2 ^ m.page_bit) bytes m.memory },
      )
    ]
    else write_process pid address bytes m
