-- ===== src/Device/PageTableItem.antt =====
-- device/memory/page_table_item.cpp, device/memory/frame_table_item.cpp: the entries of the tables
-- of the memory management unit. `Physical` is the memory of the host, by the address of a page.
pub mod Swapping
pub mod FirstSwap
use ferry_os.Prelude.{
  ℕ, Bool, true, false, ◌&&◌, Option, none, some, List, ◌==◌, if◌then◌else◌, replicate,
}
use ferry_os.Device.SwapSpace.{
  SwapSpace, alloc_swap_page, dump_page_into_swap, load_page_into_memory,
}

pub record PageTableItem : Type 0 where
  pub logical_page : ℕ
  pub physical_address : ℕ
  pub swap_page : ℕ
  pub pid : ℕ
  pub used : Bool
  pub hosted : Bool
  pub swapped : Bool
  pub have_swapped : Bool
  pub changed : Bool
  pub in_memory : Bool
  pub system : Bool

abbrev pub Physical : Type 0
Physical = ℕ → List ℕ

abbrev set_page : ℕ → List ℕ → Physical → Physical
set_page address bytes memory a = if address == a then bytes else memory a

-- The constructor, with the swap space that it asks for its size.
unfoldable pub new : ℕ → ℕ → ℕ → SwapSpace → PageTableItem
new logical_page pid physical_address s = record {
  logical_page = logical_page;
  physical_address = physical_address;
  swap_page = s.space_page;
  pid = pid;
  used = false;
  hosted = false;
  swapped = false;
  have_swapped = false;
  changed = false;
  in_memory = false;
  system = false;
}

unfoldable pub same_page : PageTableItem → PageTableItem → Bool
same_page a b = a.logical_page == b.logical_page && a.pid == b.pid

unfoldable pub reset : PageTableItem → PageTableItem
reset i = record i { changed = false; in_memory = false; system = false; used = false }

unfoldable pub set_logical_page : ℕ → PageTableItem → PageTableItem
set_logical_page page i = record i { logical_page = page }

unfoldable pub set_physical_address : ℕ → PageTableItem → PageTableItem
set_physical_address address i = record i { physical_address = address }

unfoldable pub set_item_pid : ℕ → PageTableItem → PageTableItem
set_item_pid pid i = record i { pid = pid }

-- The result of `loadPageIntoMemory` is not looked at.
unfoldable pub swap_into_memory :
    SwapSpace → PageTableItem → Physical → PageTableItem × Physical × Bool
swap_into_memory s i memory =
    if i.physical_address == 0
    then (i, memory, false)
    else if i.swap_page == s.space_page
    then (i, memory, false)
    else (
      record i { in_memory = true; swapped = false },
      elim (load_page_into_memory i.swap_page s) [
        | none ↦ memory
        | some bytes ↦ set_page i.physical_address bytes memory
      ],
      true,
    )

-- A page of the swap space for an item that has none; the number of pages means failure.
unfoldable pub with_swap_page : ℕ → SwapSpace → PageTableItem → SwapSpace × PageTableItem
with_swap_page page_size s i =
    if i.swap_page == s.space_page
    then (let (t, p) = alloc_swap_page page_size s in (t, record i { swap_page = p }))
    else (s, i)

-- An item at address 0 has nothing to be written.
unfoldable pub swap_out_memory :
    ℕ → SwapSpace → PageTableItem → Physical → SwapSpace × PageTableItem × Physical × Bool
swap_out_memory page_size s i memory =
    let (t, j) = with_swap_page page_size s i in
    if j.swap_page == t.space_page
    then (t, j, memory, false)
    else if j.physical_address == 0
    then (t, record j { in_memory = false }, memory, true)
    else (
      (dump_page_into_swap (some (memory j.physical_address)) j.swap_page t).0,
      record j { swapped = true; have_swapped = true; in_memory = false },
      set_page j.physical_address (replicate page_size 0) memory,
      true,
    )

pub record FrameTableItem : Type 0 where
  pub frame_address : ℕ
  pub logic_page : ℕ
  pub frame_pid : ℕ
  pub occupied : Bool

-- The constructor leaves the page and the pid as they are found.
unfoldable pub new_frame : ℕ → FrameTableItem → FrameTableItem
new_frame frame_address f = record f { frame_address = frame_address; occupied = false }

unfoldable pub same_frame : FrameTableItem → FrameTableItem → Bool
same_frame a b = a.frame_address == b.frame_address

unfoldable pub occupy : ℕ → ℕ → FrameTableItem → FrameTableItem
occupy pid logical_page f = record f { frame_pid = pid; logic_page = logical_page; occupied = true }

unfoldable pub clear_frame : FrameTableItem → FrameTableItem
clear_frame f = record f { occupied = false }

unfoldable pub update_frame : ℕ → ℕ → ℕ → FrameTableItem → FrameTableItem
update_frame frame_address logical_page pid f = record {
  frame_address = frame_address;
  logic_page = logical_page;
  frame_pid = pid;
  occupied = true;
}

unfoldable pub is_occupied_by : ℕ → ℕ → FrameTableItem → Bool
is_occupied_by pid logical_page f =
    f.frame_pid == pid && (logical_page == f.logic_page && f.occupied)

unfoldable pub set_frame_address : ℕ → FrameTableItem → FrameTableItem
set_frame_address frame_address f = record f { frame_address = frame_address }
