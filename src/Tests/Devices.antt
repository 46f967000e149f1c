-- ===== src/Tests/Devices.antt =====
-- The interrupt controller, the swap space and the processor at concrete inputs.
use ferry_os.Prelude.{
  ◌+◌, ◌%◌, ◌^◌, ◌≤◌, ◌<◌, ◌≡◌, refl, true, false, ◌&&◌, not, some, List, [], ◌∷◌, arith, inl, All,
  get_or, replicate, ◌==◌, if◌then◌else◌,
}
use ferry_os.Device.Interrupter.{IntController, respond_int}
use ferry_os.Device.Interrupter.Priority.{bit_at}
use ferry_os.Device.Interrupter.Service.{respond_int_serves_highest}
use ferry_os.Device.Interrupter.Starvation.{Event, run, timer_starves}
use ferry_os.Device.SwapSpace.{
  SwapSpace, alloc_swap_page, clear_swap_page, dump_page_into_swap, load_page_into_memory,
}
use ferry_os.Device.SwapSpace as SwapSpace
use ferry_os.Device.SwapSpace.Pages.{IsConsistent, init-IsConsistent, alloc_swap_page_lem}
use ferry_os.Device.PageTableItem.{
  PageTableItem, Physical, swap_into_memory, swap_out_memory, set_physical_address,
}
use ferry_os.Device.PageTableItem.Swapping.{swap_into_memory-swap_out_memory}
use ferry_os.Tests.Data.{controller}

respond_int_serves_highest_example :
    let (c', n) = respond_int controller in
    (n < 8)
    × (bit_at controller.irr n ≡ 1)
    × (controller.irr % 2 ^ n ≡ 0)
    × (c'.irr + 2 ^ n ≡ controller.irr)
    × (bit_at c'.isr n ≡ 1)
    × (c'.irq ≡ (controller.irq && not (c'.irr == 0)))
respond_int_serves_highest_example =
    respond_int_serves_highest controller (omega arith) (omega arith) (omega arith) (inl refl)

abbrev in_timer : IntController
in_timer = record { irq = true; irr = 4; isr = 9; int_num = 0 }

abbrev events : List Event
events = Event.respond ∷ Event.request 3 ∷ Event.respond ∷ []

timer_starves_example :
    All (λ n. n ≡ 0) (run events in_timer).1
    × (bit_at in_timer.irr 2 ≤ bit_at (run events in_timer).0.irr 2)
timer_starves_example =
    timer_starves events (tt, (omega arith, (tt, tt))) in_timer
      (record { in_service = refl; byte = omega arith; last_number = refl; fits = omega arith }) 2
      (omega arith) (omega arith)

abbrev fresh : SwapSpace
fresh = record {
  used_page = 0;
  alloc_page = 0;
  space_page = 2;
  bitmap = replicate 2 false;
  allocmap = replicate 2 false;
  file = some (λ i. []);
}

fresh-IsConsistent : IsConsistent fresh
unfolding SwapSpace.init
fresh-IsConsistent = init-IsConsistent 2 (some (λ i. []))

alloc_swap_page_lem_example :
    let (t, p) = alloc_swap_page 4 fresh in
    (p < 2)
    × (get_or fresh.bitmap p false ≡ false)
    × (get_or t.bitmap 1 false ≡ (if p == 1 then true else get_or fresh.bitmap 1 false))
    × (t.used_page ≡ 1)
    × IsConsistent t
alloc_swap_page_lem_example = alloc_swap_page_lem 4 fresh 1 fresh-IsConsistent (omega arith)

abbrev open_page : SwapSpace
open_page = record {
  used_page = 1;
  alloc_page = 1;
  space_page = 2;
  bitmap = true ∷ false ∷ [];
  allocmap = true ∷ false ∷ [];
  file = some (λ i. []);
}

-- A page in memory that holds 8 and 9, with page 0 of the swap space.
abbrev item : PageTableItem
item = record {
  logical_page = 3;
  physical_address = 64;
  swap_page = 0;
  pid = 1;
  used = true;
  hosted = true;
  swapped = false;
  have_swapped = true;
  changed = true;
  in_memory = true;
  system = false;
}

abbrev host_memory : Physical
host_memory address = 8 ∷ 9 ∷ []

swap_into_memory-swap_out_memory_example :
    let (t, j, cleared, out) = swap_out_memory 2 open_page item host_memory in
    let (k, filled, back) = swap_into_memory t (set_physical_address 96 j) cleared in
    (out ≡ true)
    × (j.in_memory ≡ false)
    × (cleared 64 ≡ 0 ∷ 0 ∷ [])
    × (back ≡ true)
    × (k.in_memory ≡ true)
    × (k.swapped ≡ false)
    × (filled 96 ≡ 8 ∷ 9 ∷ [])
swap_into_memory-swap_out_memory_example =
    swap_into_memory-swap_out_memory 2 96 open_page (λ i. []) item host_memory refl (omega arith)
      (omega arith) (omega arith) (omega arith)
