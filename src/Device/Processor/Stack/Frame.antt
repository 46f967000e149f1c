-- ===== src/Device/Processor/Stack/Frame.antt =====
-- device/processor/processor.cpp: what saving and loading a context leaves alone in the kernel.
use ferry_os.Prelude.{ℕ, ◌≡◌, refl, subst, Bool, Option, ◌∙◌, none, some}
use ferry_os.Device.Mmu.State.{Mmu}
use ferry_os.Device.Mmu.Access.{write}
use ferry_os.Bytes.{int_bytes}
use ferry_os.Machine.{Machine, M, Core, ◌>>◌, change_cpu, change_pcb, curr_pid, curr_pcb}
use ferry_os.Os.Pcb.{set_stack_top, set_stack_base}
use ferry_os.Prelude.Words.{sext, sub32, add32}
use ferry_os.Device.Processor.Stack.{write_int, push, save_context}

-- The second kernel is the first but for its process control blocks.
pub record IsSwitched (c d : Core) : Type 0 where
  pub same_scheduler : d.scheduler ≡ c.scheduler
  pub same_sems : d.sem_manager ≡ c.sem_manager
  pub same_running : d.is_running ≡ c.is_running
  pub same_time : d.time ≡ c.time

-- What a method leaves alone, when it returns.
abbrev pub IsKept : {A : Type 0} → Core → Option (A × Machine Mmu) → Type 0
IsKept c none = Unit
IsKept c (some (a, m)) = IsSwitched c m.core

unchanged : (c : Core) → IsSwitched c c
unchanged c = record {
  same_scheduler = refl;
  same_sems = refl;
  same_running = refl;
  same_time = refl;
}

followed :
    {A : Type 0} (c d : Core) (o : Option (A × Machine Mmu))
    → IsSwitched c d
    → IsKept d o
    → IsKept c o
followed c d none h k = tt
followed c d (some (a, m)) h k = record {
  same_scheduler = k.same_scheduler ∙ h.same_scheduler;
  same_sems = k.same_sems ∙ h.same_sems;
  same_running = k.same_running ∙ h.same_running;
  same_time = k.same_time ∙ h.same_time;
}

bind-IsKept :
    {A B : Type 0} (c : Core) (o : Option (A × Machine Mmu)) (f : A → M Mmu B)
    → IsKept c o
    → ((a : A) (m : Machine Mmu) → IsKept m.core (f a m))
    → IsKept c (elim o as (λ _. Option (B × Machine Mmu)) [ none ↦ none | some (a, m) ↦ f a m ])
bind-IsKept c none f h k = tt
bind-IsKept c (some (a, m)) f h k = followed c m.core (f a m) h (k a m)

write_int-IsKept : (a w pid : ℕ) (m : Machine Mmu) → IsKept m.core (write_int a w pid m)
unfolding write_int
write_int-IsKept a w pid m = returned (write a (int_bytes w) pid m.mem)
  where
    returned :
        (o : Option (Bool × Mmu))
        → IsKept m.core (elim o as (λ _. Option (Unit {0} × Machine Mmu)) [
          | none ↦ none
          | some (done, s) ↦ some (tt, record m { mem = s })
        ])
    returned none = tt
    returned (some (done, s)) = unchanged m.core

push-IsKept : (num : ℕ) (m : Machine Mmu) → IsKept m.core (push num m)
unfolding push curr_pid
push-IsKept num m = on_cpu m.core.scheduler.pcb_curr
  where
    put : ℕ → M Mmu (Unit {0})
    put pid =
        write_int (sext (sub32 (add32 m.cpu.ss m.cpu.sp) 3)) num pid
        >> change_cpu (λ c. record c { sp = sub32 c.sp 4 })

    on_cpu :
        (o : Option ℕ)
        → IsKept m.core
            (elim (elim o as (λ _. Option (ℕ × Machine Mmu)) [
              | none ↦ none
              | some i ↦ some ((m.core.pcb_manager.pcbs i).pid, m)
            ])
              as (λ _. Option (Unit {0} × Machine Mmu)) [
                | none ↦ none
                | some (pid, m') ↦ put pid m'
              ])
    on_cpu none = tt
    on_cpu (some i) =
        bind-IsKept m.core (write_int _ num _ m)
          (λ _. change_cpu (λ c. record c { sp = sub32 c.sp 4 })) (write_int-IsKept _ num _ m)
          (λ _ m'. unchanged m'.core)

pushed :
    {B : Type 0} (next : M Mmu B) (v : ℕ) (m : Machine Mmu)
    → ((m' : Machine Mmu) → IsKept m'.core (next m'))
    → IsKept m.core (elim (push v m) as (λ _. Option (B × Machine Mmu)) [
      | none ↦ none
      | some (a, m') ↦ next m'
    ])
pushed next v m k = bind-IsKept m.core (push v m) (λ _. next) (push-IsKept v m) (λ _ m'. k m')

stored :
    (sp ss curr : ℕ) (m : Machine Mmu)
    → IsKept m.core ((change_pcb (set_stack_top sp) curr >> change_pcb (set_stack_base ss) curr) m)
stored sp ss curr m = record {
  same_scheduler = refl;
  same_sems = refl;
  same_running = refl;
  same_time = refl;
}

curr_pcb-IsKept : (m : Machine Mmu) → IsKept m.core (curr_pcb m)
unfolding curr_pcb
curr_pcb-IsKept m = on_cpu m.core.scheduler.pcb_curr
  where
    on_cpu :
        (o : Option ℕ)
        → IsKept m.core
            (elim o as (λ _. Option (ℕ × Machine Mmu)) [ none ↦ none | some i ↦ some (i, m) ])
    on_cpu none = tt
    on_cpu (some i) = unchanged m.core

save_context-IsKept : (m : Machine Mmu) → IsKept m.core (save_context m)
unfolding save_context
save_context-IsKept m = bind-IsKept m.core (curr_pcb m) _ (curr_pcb-IsKept m) (λ curr m0.
    pushed _ _ m0 (λ m1. pushed _ _ m1 (λ m2. pushed _ _ m2 (λ m3. pushed _ _ m3 (λ m4.
      pushed _ _ m4 (λ m5. pushed _ _ m5 (λ m6. pushed _ _ m6 (λ m7.
        pushed _ _ m7
          (λ m8. pushed _ _ m8 (λ m9. pushed _ _ m9 (λ m10. stored _ _ curr m10)))))))))))

-- Saving a context changes no more of the kernel than the process control blocks.
pub save_context-IsSwitched :
    (m m1 : Machine Mmu) → save_context m ≡ some (tt, m1) → IsSwitched m.core m1.core
save_context-IsSwitched m m1 e = subst (IsKept m.core) e (save_context-IsKept m)
