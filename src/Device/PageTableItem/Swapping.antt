-- ===== src/Device/PageTableItem/Swapping.antt =====
-- device/memory/page_table_item.cpp: a page that is swapped out comes back as it was.
use ferry_os.Prelude.{ℕ, ◌≤◌, ◌<◌, ◌≡◌, ◌≢◌, true, false, some, List, arith, replicate}
use ferry_os.Device.SwapSpace.{SwapSpace, dump_page_into_swap, load_page_into_memory}
use ferry_os.Device.PageTableItem.{
  PageTableItem, Physical, swap_into_memory, swap_out_memory, with_swap_page, set_physical_address,
}

-- An item in memory with an allocated page in an open swap space is swapped out and, at any address
-- in place of its old one, into memory again: both succeed, the old page is cleared in between, and
-- the new one holds the bytes that the old one held.
pub swap_into_memory-swap_out_memory :
    (page_size address : ℕ) (s : SwapSpace) (pages : ℕ → List ℕ) (i : PageTableItem)
    (memory : Physical)
    → s.file ≡ some pages
    → i.swap_page < s.alloc_page
    → s.alloc_page ≤ s.space_page
    → i.physical_address ≢ 0
    → address ≢ 0
    → let (t, j, cleared, out) = swap_out_memory page_size s i memory in
      let (k, filled, back) = swap_into_memory t (set_physical_address address j) cleared in
      (out ≡ true)
      × (j.in_memory ≡ false)
      × (cleared i.physical_address ≡ replicate page_size 0)
      × (back ≡ true)
      × (k.in_memory ≡ true)
      × (k.swapped ≡ false)
      × (filled address ≡ memory i.physical_address)
unfolding swap_into_memory swap_out_memory with_swap_page set_physical_address dump_page_into_swap
    load_page_into_memory
swap_into_memory-swap_out_memory page_size address s pages i memory e lt le here there = (
  ground arith,
  ground arith,
  ground arith,
  ground arith,
  ground arith,
  ground arith,
  ground arith,
)
