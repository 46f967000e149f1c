-- ===== src/Device/Processor/Stack/Switch.antt =====
-- device/processor/processor.cpp: a process goes on with the registers that it was interrupted with.
use mathlib.Core.Option.{some-injective}
use ferry_os.Prelude.{ℕ, ◌+◌, ◌-◌, ◌^◌, ◌≤◌, ◌<◌, ◌≡◌, ap, sym, subst, ◌∙◌, some, [], All}
use ferry_os.Machine.{Machine}
use ferry_os.Device.Mmu.ProcessTable.{ProcessTableItem}
use ferry_os.Device.Mmu.Access.Ints.{CanUse, IsByte}
use ferry_os.Device.Processor.Stack.{Mmu, save_context, reload_context}
use ferry_os.Device.Processor.Stack.Words.{OnStack, AreWords, AreWords-within}
use ferry_os.Device.Processor.Stack.Moves.{context}
use ferry_os.Device.Processor.Stack.Context.{IsParked, save_context-Returns, reload_context-Returns}

-- `saveContext` returns when the process `pid` in the block on the CPU can use the 40 bytes below
-- the top of its stack, with its pages there in memory. The block then keeps the stack segment and
-- the stack pointer, and the ten registers lie on the stack, each in four bytes,
-- which the process can use as before.
-- To use them is to be a user process in the process table, which owns their pages and has them
-- in memory in frames of their own. The top of the stack is below 2 ^ 31.
pub save_context-IsSaved :
    (curr pid ss sp : ℕ) (p : ProcessTableItem) (m : Machine Mmu) (low : ss + sp + 1 < 2 ^ 31)
    → 40 ≤ sp
    → OnStack curr pid ss (ss + sp + 1 - 40) (ss + sp + 1) p low sp [] m
    → (m1 : Machine Mmu) × (save_context m ≡ some (tt, m1))
      × IsParked pid ss sp (m1.core.pcb_manager.pcbs curr)
      × AreWords p m1.mem (ss + sp + 1 - 40) (context m.cpu)
      × CanUse pid p (ss + sp + 1 - 40) (ss + sp + 1) m1.mem
save_context-IsSaved curr pid ss sp p m low room h =
    let (m1, e, saved) = save_context-Returns curr pid ss sp room low p m h in
    (m1, e, saved.0, saved.1, saved.2)

-- The same process is put back on the CPU by `reloadContext` on a machine that may have changed in
-- all else: when its block is as `saveContext` left it, it can use the 40 bytes, with its pages
-- there in memory, perhaps in other frames, and sees in them the bytes that it saw behind the
-- saving, `reloadContext` returns, and the ten registers, the stack segment and the stack pointer
-- are as they were before the saving. The registers hold ints, the top of the stack is below
-- 2 ^ 31, and a page at the loading has at least four bytes. To use the 40 bytes is as above.
pub reload_context-save_context :
    (curr pid ss sp : ℕ) (p q : ProcessTableItem) (m m1 m2 : Machine Mmu)
    (low : ss + sp + 1 < 2 ^ 31)
    → 40 ≤ sp
    → OnStack curr pid ss (ss + sp + 1 - 40) (ss + sp + 1) p low sp [] m
    → All (λ v. v < 2 ^ 32) (context m.cpu)
    → save_context m ≡ some (tt, m1)
    → m2.core.scheduler.pcb_curr ≡ some curr
    → m2.core.pcb_manager.pcbs curr ≡ m1.core.pcb_manager.pcbs curr
    → CanUse pid q (ss + sp + 1 - 40) (ss + sp + 1) m2.mem
    → 2 ≤ m2.mem.page_bit
    → ((j w : ℕ)
        → j < 40
        → IsByte p m1.mem (ss + sp + 1 - 40 + j) w
        → IsByte q m2.mem (ss + sp + 1 - 40 + j) w)
    → (r : Machine Mmu) × (reload_context m2 ≡ some (tt, r))
      × (context r.cpu ≡ context m.cpu)
      × (r.cpu.ss ≡ ss)
      × (r.cpu.sp ≡ sp)
reload_context-save_context curr pid ss sp p q m m1 m2 low room h ints saved on block can wide
      bytes =
    let (m', e, parked, words, _) = save_context-IsSaved curr pid ss sp p m low room h in
    let same : m' ≡ m1 = ap (λ x. x.1) (some-injective _ _ (sym e ∙ saved)) in
    let (r, f, k) = reload_context-Returns curr pid ss sp room low q m.cpu m2 ints on can wide (
      subst (IsParked pid ss sp) (ap (λ x. x.core.pcb_manager.pcbs curr) same ∙ sym block) parked,
      AreWords-within p q m1.mem m2.mem (ss + sp + 1 - 40) (context m.cpu) bytes
          (subst (λ x. AreWords p x.mem (ss + sp + 1 - 40) (context m.cpu)) same words),
    ) in
    (r, f, k.0, k.1, k.2)
