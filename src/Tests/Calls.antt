-- ===== src/Tests/Calls.antt =====
-- The calls that switch the context of the processor at concrete inputs.
use mathlib.Core.Option.{some-injective}
use ferry_os.Prelude.{
  All, sym, ap, subst, ◌∙◌, ◌^◌, ℕ, ◌<◌, ◌==◌, Bool-cases, inl, inr, ◌≤◌, false, ◌≡◌, ◌≢◌, refl,
  none, some, [], ◌∷◌, arith,
}
use ferry_os.Prelude.Words.{u32}
use ferry_os.Device.Mmu.State.{Mmu, find_process, get_process_page_table_item}
use ferry_os.Device.Processor.Stack.{save_context, reload_context, push}
use ferry_os.Device.Mmu.Access.{write, write_process, write_all, write_page, write_rest}
use ferry_os.Device.Mmu.ProcessTable.{is_valid, page_up}
use ferry_os.Os.Pcb.{set_sem, set_delay, set_time_out, set_state}
use ferry_os.Machine.{Machine, Core, pure, ◌>>◌}
use ferry_os.Os.PcbManager.{Err}
use ferry_os.Os.Scheduler.Queue.{places}
use ferry_os.Os.Calls.{process_quit, process_delay, sem_pend, call_int_service}
use ferry_os.Os.PcbManager.Laws
use ferry_os.Os.Calls.Quit.{process_quit-frees}
use ferry_os.Os.Calls.Delay.{paused, process_delay-places}
use ferry_os.Os.Calls.Pend.{blocked, sem_pend-places}
use ferry_os.Os.Calls.Service.{call_int_service-places}
use ferry_os.Device.Mmu.Access.Ints.{CanUse}
use ferry_os.Device.Mmu.Access.Resident.{Resident, IsLaidOut}
use ferry_os.Device.Processor.Stack.Words.{AreWords}
use ferry_os.Device.Processor.Stack.Context.{IsParked}
use ferry_os.Device.Processor.Stack.Moves.{context}
use ferry_os.Device.Processor.Stack.Switch.{save_context-IsSaved, reload_context-save_context}
use ferry_os.Tests.Data.{user, stack_page, memory, config, machine, queues, managed-IsConsistent}
use ferry_os.Tests.Queues.{once}

-- The machine behind saving a context, which its memory lets happen.
abbrev saved_from : Machine Mmu → Machine Mmu
saved_from m = elim (save_context m) [ none ↦ m | some (_, m1) ↦ m1 ]

save_machine : save_context machine ≡ some (tt, saved_from machine)
unfolding save_context push write write_process find_process is_valid write_all write_page
    get_process_page_table_item write_rest page_up
save_machine = refl

abbrev waiting : Machine Mmu
waiting = record machine { core = blocked 1 1 6 machine.core }

save_waiting : save_context waiting ≡ some (tt, saved_from waiting)
unfolding save_context set_sem set_delay set_time_out set_state push write write_process
    find_process is_valid write_all write_page get_process_page_table_item write_rest page_up
save_waiting = refl

abbrev pausing : Machine Mmu
pausing = paused config 6 1 machine

save_pausing : save_context pausing ≡ some (tt, saved_from pausing)
unfolding save_context set_delay set_state push write write_process find_process is_valid write_all
    write_page get_process_page_table_item write_rest page_up
save_pausing = refl

user-IsLaidOut : IsLaidOut 32 user memory.memory
user-IsLaidOut = record { separate = λ q r i j e a f b at. ground arith; sized = λ q i e a. refl }

resident : (q : ℕ) → 7 ≤ q → q ≤ 8 → Resident user q
resident q lo hi = elim (Bool-cases (q == 7)) [
  | inl seven ↦ (stack_page 7 300, rw seven refl, refl)
  | inr other ↦ (stack_page 8 400, ground arith, refl)
]

usable : CanUse 2 user 225 265 memory
unfolding find_process
usable = record {
  user = omega arith;
  found = refl;
  laid = user-IsLaidOut;
  owned = omega arith;
  resident = resident;
}

save_context-IsSaved_example :
    (m1 : Machine Mmu) × (save_context machine ≡ some (tt, m1))
    × IsParked 2 64 200 (m1.core.pcb_manager.pcbs 1)
    × AreWords user m1.mem 225 (context machine.cpu)
    × CanUse 2 user 225 265 m1.mem
save_context-IsSaved_example =
    save_context-IsSaved 1 2 64 200 user machine (omega arith) (omega arith)
      (refl, refl, refl, refl, usable, tt)

usable_behind : CanUse 2 user 225 265 (saved_from machine).mem
usable_behind =
    let (m1, e, _, _, can) = save_context-IsSaved_example in
    subst (λ x. CanUse 2 user 225 265 x.mem)
      (ap (λ x. x.1) (some-injective _ _ (sym e ∙ save_machine))) can

ints : All (λ v. v < 2 ^ 32) (context machine.cpu)
ints = ground arith

-- The machine goes on with other registers and the kernel counts a tick.
abbrev later : Machine Mmu
later =
    let m1 = saved_from machine in
    record m1 {
      cpu = record machine.cpu { pc = 0; sp = 8; reg0 = 99 };
      core = record m1.core { time = 8 };
    }

reload_context-save_context_example :
    (r : Machine Mmu) × (reload_context later ≡ some (tt, r))
    × (context r.cpu ≡ context machine.cpu)
    × (r.cpu.ss ≡ 64)
    × (r.cpu.sp ≡ 200)
unfolding save_context push write write_process find_process is_valid write_all write_page
    get_process_page_table_item write_rest page_up
reload_context-save_context_example =
    reload_context-save_context 1 2 64 200 user user machine (saved_from machine) later
      (omega arith) (omega arith) (refl, refl, refl, refl, usable, tt) ints save_machine refl refl
      usable_behind (omega arith) (λ j w lt old. old)

call_int_service-places_example :
    (c : Core) × (call_int_service config 0 machine
      ≡ reload_context (record (saved_from machine) { core = c }))
    × (places 2 c.scheduler ≡ places 2 queues)
    × (c.scheduler.pcb_curr ≢ none)
    × (c.time ≡ u32 8)
call_int_service-places_example =
    call_int_service-places config 0 1 0 2 machine (saved_from machine)
      (record {
        running = refl;
        clocked = omega arith;
        on_cpu = refl;
        has_idle = refl;
        once = (refl, tt);
      })
      once save_machine

process_delay-places_example :
    (c : Core) × (process_delay config 6 machine
      ≡ (reload_context >> pure Err.no_err) (record (saved_from pausing) { core = c }))
    × (places 2 c.scheduler ≡ places 2 queues)
    × (c.scheduler.waiting_list ≡ 3 ∷ 1 ∷ [])
    × (c.scheduler.pcb_curr ≢ none)
process_delay-places_example =
    process_delay-places config 6 1 0 2 machine (saved_from pausing) refl refl (omega arith) once
      save_pausing

sem_pend-places_example :
    (c : Core) × (sem_pend config 1 6 machine
      ≡ (reload_context >> pure Err.no_err) (record (saved_from waiting) { core = c }))
    × (places 2 c.scheduler ≡ places 2 queues)
    × (c.scheduler.waiting_list ≡ 3 ∷ 1 ∷ [])
    × ((c.sem_manager.sems 1).waiting_list ≡ 3 ∷ 1 ∷ [])
    × (c.scheduler.pcb_curr ≢ none)
sem_pend-places_example =
    sem_pend-places config 1 6 1 0 2 machine (saved_from waiting) (omega arith) refl refl refl
      (omega arith) once save_waiting

on_cpu_once : places 1 queues ≤ 1
unfolding places
on_cpu_once = omega arith

process_quit-frees_example :
    (c : Core) × (process_quit config machine
      ≡ (reload_context >> pure Err.no_err) (record machine { core = c }))
    × (places 1 c.scheduler ≡ 0)
    × (c.pcb_manager.created 1 ≡ false)
    × Laws.IsConsistent 5 c.pcb_manager
    × (c.scheduler.pcb_curr ≢ none)
process_quit-frees_example =
    process_quit-frees config 1 0 machine managed-IsConsistent (omega arith) refl (omega arith) refl
      refl (omega arith) on_cpu_once
