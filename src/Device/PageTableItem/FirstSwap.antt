-- ===== src/Device/PageTableItem/FirstSwap.antt =====
-- device/memory/page_table_item.cpp: a page that is swapped out for the first time.
use ferry_os.Prelude.{ℕ, ◌≤◌, ◌<◌, ◌≡◌, ◌≢◌, true, false, some, List, arith, inl, inr}
use ferry_os.Device.SwapSpace.{
  SwapSpace, write_page, rubbish, alloc_swap_page, reuse_page, fresh_page, dump_page_into_swap,
  load_page_into_memory,
}
use ferry_os.Device.SwapSpace.Pages.{IsConsistent, alloc_swap_page_cases, fresh_page_fields}
use ferry_os.Device.PageTableItem.{PageTableItem, Physical, swap_out_memory, with_swap_page}

-- A swap space with a page that is allocated in an open file.
abbrev IsReady : SwapSpace × ℕ → Type 0
IsReady (t, p) =
    (p < t.alloc_page)
    × (t.alloc_page ≤ t.space_page)
    × ((pages : ℕ → List ℕ) × (t.file ≡ some pages))

fresh_page-file :
    (page_size : ℕ) (s : SwapSpace) (pages : ℕ → List ℕ)
    → s.file ≡ some pages
    → s.alloc_page < s.space_page
    → (pages' : ℕ → List ℕ) × ((fresh_page page_size s).0.file ≡ some pages')
unfolding fresh_page dump_page_into_swap
fresh_page-file page_size s pages e lt =
    (write_page pages s.alloc_page (rubbish page_size), ground arith)

alloc_swap_page-IsReady :
    (page_size : ℕ) (s : SwapSpace) (pages : ℕ → List ℕ)
    → IsConsistent s
    → s.used_page < s.space_page
    → s.file ≡ some pages
    → IsReady (alloc_swap_page page_size s)
unfolding reuse_page
alloc_swap_page-IsReady page_size s pages h room e = elim (alloc_swap_page_cases page_size s h) [
  | inl (p, lt, _, same) ↦ rw same (lt, h.alloc_fits, (pages, e))
  | inr (inl (all, lt, same)) ↦
      let (q, _, alloc, space, _, _) = fresh_page_fields page_size s lt in
      rw same (
        omega (arith, q, alloc),
        omega (arith, alloc, space),
        fresh_page-file page_size s pages e lt,
      )
  | inr (inr (all, same)) ↦ absurd (omega arith)
]

-- A page that never was swapped out leaves the memory for a page of its own in the swap space, if one is
-- unused, and its bytes are there.
pub swap_out_memory-first :
    (page_size : ℕ) (s : SwapSpace) (pages : ℕ → List ℕ) (i : PageTableItem) (memory : Physical)
    → IsConsistent s
    → s.used_page < s.space_page
    → s.file ≡ some pages
    → i.swap_page ≡ s.space_page
    → i.physical_address ≢ 0
    → let (t, k, _, _) = swap_out_memory page_size s i memory in
      (k.in_memory ≡ false)
      × (k.swapped ≡ true)
      × (load_page_into_memory k.swap_page t ≡ some (memory i.physical_address))
unfolding swap_out_memory with_swap_page dump_page_into_swap load_page_into_memory
swap_out_memory-first page_size s pages i memory h room e none_yet here =
    let (lt, le, (now, open_)) = alloc_swap_page-IsReady page_size s pages h room e in
    (ground arith, ground arith, ground arith)
