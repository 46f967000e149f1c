-- ===== src/Device/Processor/Stack/Context.antt =====
-- device/processor/processor.cpp: a process goes on with the registers that it was interrupted with.
use ferry_os.Prelude.{
  ℕ, ◌+◌, ◌-◌, ◌^◌, ◌≤◌, ◌<◌, ◌≡◌, refl, ap, subst, ◌∙◌, none, some, Option, [], ◌∷◌, arith, All,
}
use ferry_os.Machine.{◌>>=◌, ◌>>◌, change_cpu, Machine, Cpu, M}
use ferry_os.Device.Mmu.State.{Mmu}
use ferry_os.Device.Mmu.ProcessTable.{ProcessTableItem}
use ferry_os.Device.Mmu.Access.Ints.{CanUse}
use ferry_os.Os.Pcb.{Pcb, set_stack_top, set_stack_base}
use ferry_os.Device.Processor.Stack.{
  save_context, reload_context, pop_context, load_stack_registers, pop_context, pop,
}
use ferry_os.Device.Processor.Stack.Words.{AreWords, lowered, raised}
use ferry_os.Device.Processor.Stack.Moves.{
  context, Returns, Stacked, start-Returns, low-Returns, high-Returns, front-Returns, back-Returns,
}

-- The pops of `reload_context` from `cs` on.
abbrev pop_back : M Mmu (Unit {0})
pop_back = do
  cs ← pop
  change_cpu (λ c. record c { cs = cs })
  reg3 ← pop
  change_cpu (λ c. record c { reg3 = reg3 })
  reg2 ← pop
  change_cpu (λ c. record c { reg2 = reg2 })
  reg1 ← pop
  change_cpu (λ c. record c { reg1 = reg1 })
  reg0 ← pop
  change_cpu (λ c. record c { reg0 = reg0 })

-- What the block of a process holds after its context was saved at a stack pointer.
abbrev pub IsParked : ℕ → ℕ → ℕ → Pcb → Type 0
IsParked pid ss sp p = (p.pid ≡ pid) × (p.stack_base ≡ ss) × (p.stack_top ≡ sp - 40)

module _ (curr pid ss sp : ℕ) (room : 40 ≤ sp) (low : ss + sp + 1 < 2 ^ 31)
    (p : ProcessTableItem) where
  -- The block and the stack hold the context.
  abbrev pub IsSaved : Cpu → Machine Mmu → Type 0
  IsSaved c m1 =
      IsParked pid ss sp (m1.core.pcb_manager.pcbs curr)
      × AreWords p m1.mem (ss + sp + 1 - 40) (context c)

  -- They do, and the process can use its stack.
  abbrev pub IsKept : Cpu → Machine Mmu → Type 0
  IsKept c m1 =
      IsParked pid ss sp (m1.core.pcb_manager.pcbs curr)
      × AreWords p m1.mem (ss + sp + 1 - 40) (context c)
      × CanUse pid p (ss + sp + 1 - 40) (ss + sp + 1) m1.mem

  -- The process goes on where it was.
  abbrev pub IsBack : Cpu → Machine Mmu → Type 0
  IsBack c r = (context r.cpu ≡ context c) × (r.cpu.ss ≡ ss) × (r.cpu.sp ≡ sp)

  pub save_context-Returns :
      (m : Machine Mmu)
      → Stacked curr pid ss sp room low p (IsKept m.cpu) sp [] m
      → Returns (IsKept m.cpu) (save_context m)
  unfolding save_context set_stack_top set_stack_base
  save_context-Returns m h0 = start-Returns curr pid ss sp room low p (IsKept m.cpu) _ m h0.0 (
      low-Returns curr pid ss sp room low p (IsKept m.cpu) _ [] m
        (let full : sp ≡ sp - 0 = omega arith in
          subst (λ x. Stacked curr pid ss sp room low p (IsKept m.cpu) x [] m) full h0)
        (λ n h1.
          high-Returns curr pid ss sp room low p (IsKept m.cpu) _
            (m.cpu.cs ∷ m.cpu.reg3 ∷ m.cpu.reg2 ∷ m.cpu.reg1 ∷ m.cpu.reg0 ∷ [])
            (lowered (lowered (lowered (lowered (lowered m n) n) n) n) n) h1
            (λ n' (on, own, base, at, can, words). (
              _,
              refl,
              (
                (ground (arith, own), ground (arith, base), ground (arith, at)),
                (let there : ss + (sp - 40) + 1 ≡ ss + sp + 1 - 40 = omega arith in
                    subst (λ x. AreWords p n' x (context m.cpu)) there words),
                can,
              ),
            ))))

  pub reload_context-Returns :
      (c : Cpu) (m : Machine Mmu)
      → All (λ v. v < 2 ^ 32) (context c)
      → m.core.scheduler.pcb_curr ≡ some curr
      → CanUse pid p (ss + sp + 1 - 40) (ss + sp + 1) m.mem
      → 2 ≤ m.mem.page_bit
      → IsSaved c m
      → Returns (IsBack c) (reload_context m)
  unfolding reload_context pop_context
  reload_context-Returns c m (i0, (i1, (i2, (i3, (i4, rest))))) on can wide
        ((own, base, top), words) =
      let there : ss + sp + 1 - 40 ≡ ss + (sp - 40) + 1 = omega arith in
      let (r, e, q) =
        front-Returns curr pid ss sp room low p (IsBack c) pop_back c.pc c.bp c.as_ c.fs c.ds
          (c.cs ∷ c.reg3 ∷ c.reg2 ∷ c.reg1 ∷ c.reg0 ∷ []) (load_stack_registers curr m)
          (i0, (i1, (i2, (i3, (i4, tt))))) wide
          (on, own, base, top, can, subst (λ x. AreWords p m.mem x (context c)) there words)
          (λ n g h.
            back-Returns curr pid ss sp room low p (IsBack c) (λ x. some (tt, x)) c.cs c.reg3 c.reg2
              c.reg1 c.reg0 [] (half n) rest g h
              (λ n' _ (_, _, base', at, _, _). (_, refl, (refl, base', at ∙ omega arith)))) in
      (
        r,
        ap
              (λ o. elim o as (λ _. Option (Unit {0} × Machine Mmu)) [
                | none ↦ none
                | some i ↦ pop_context (load_stack_registers i m)
              ])
              on
            ∙ e,
        q,
      )
    where
      half : Mmu → Machine Mmu
      half n =
          let m5 =
            raised (raised (raised (raised (raised (load_stack_registers curr m) n) n) n) n) n in
          record m5 {
            cpu = record m5.cpu { pc = c.pc; bp = c.bp; as_ = c.as_; fs = c.fs; ds = c.ds };
          }
