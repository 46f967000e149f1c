-- ===== src/Device/Processor/Stack/Words.antt =====
-- device/processor/processor.cpp: pushing and popping an int on a stack whose pages are in memory.
use ferry_os.Prelude.{
  ℕ, ◌+◌, ◌*◌, length, ◌-◌, ◌^◌, ◌≤◌, ◌<◌, ◌≡◌, sym, ap, subst, ◌∙◌, Option, none, some, List, [],
  ◌∷◌, arith, get_or, true, ◌/◌, ◌%◌,
}
use ferry_os.Prelude.Words.{add32, sub32, sext}
use ferry_os.Bytes.{int_bytes}
use ferry_os.Machine.{Machine, bind-some, curr_pid, curr_pid-some}
use ferry_os.Device.Mmu.State.{Mmu}
use ferry_os.Device.Mmu.ProcessTable.{ProcessTableItem}
use ferry_os.Device.Mmu.Access.{read_half_word, write}
use ferry_os.Device.Mmu.Access.Ints.{CanUse, IsByte, write-int}
use ferry_os.Device.Mmu.Access.IntReads.{read-int}
use ferry_os.Device.Processor.Stack.{read_int, write_int, push, pop}

-- From an address on, the process sees the words.
abbrev pub AreWords : ProcessTableItem → Mmu → ℕ → List ℕ → Type 0
AreWords p m a [] = Unit
AreWords p m a (v ∷ vs) =
    ((j : ℕ) → j < 4 → IsByte p m (a + j) (get_or (int_bytes v) j 0)) × AreWords p m (a + 4) vs

-- The words stay where their bytes stay.
pub AreWords-within :
    (p q : ProcessTableItem) (m n : Mmu) (a : ℕ) (vs : List ℕ)
    → ((j w : ℕ) → j < 4 * length vs → IsByte p m (a + j) w → IsByte q n (a + j) w)
    → AreWords p m a vs
    → AreWords q n a vs
AreWords-within p q m n a [] h k = tt
AreWords-within p q m n a (v ∷ vs) h (one, more) = (
  λ j lt. h j _ (omega arith) (one j lt),
  AreWords-within p q m n (a + 4) vs
      (λ j w lt old.
        let e : a + (4 + j) ≡ a + 4 + j = omega arith in
        subst (λ x. IsByte q n x w) e
          (h (4 + j) w (omega arith) (subst (λ x. IsByte p m x w) (sym e) old)))
      more,
)

pub AreWords-map :
    (p q : ProcessTableItem) (m n : Mmu) (a : ℕ) (vs : List ℕ)
    → ((j w : ℕ) → IsByte p m (a + j) w → IsByte q n (a + j) w)
    → AreWords p m a vs
    → AreWords q n a vs
AreWords-map p q m n a vs h = AreWords-within p q m n a vs (λ j w lt. h j w)

push_address :
    (ss sp : ℕ) → 4 ≤ sp → ss + sp < 2 ^ 31 → sext (sub32 (add32 ss sp) 3) ≡ ss + (sp - 4) + 1
push_address ss sp lo hi = ground arith

pop_address : (ss sp : ℕ) → ss + sp + 1 < 2 ^ 31 → sext (add32 (add32 ss sp) 1) ≡ ss + sp + 1
pop_address ss sp hi = ground arith

write_int-some :
    (a w pid : ℕ) (m : Machine Mmu) (n : Mmu)
    → write a (int_bytes w) pid m.mem ≡ some (true, n)
    → write_int a w pid m ≡ some (tt, record m { mem = n })
unfolding write_int
write_int-some a w pid m n e =
    ap
      (λ o. elim o as (λ _. Option (Unit {0} × Machine Mmu)) [
        | none ↦ none
        | some (done, s) ↦ some (tt, record m { mem = s })
      ])
      e

read_int-some :
    (pid a v : ℕ) (m : Machine Mmu) (n : Mmu)
    → read_half_word pid a m.mem ≡ some (v, n)
    → read_int pid a m ≡ some (v, record m { mem = n })
unfolding read_int
read_int-some pid a v m n e =
    ap
      (λ o. elim o as (λ _. Option (ℕ × Machine Mmu)) [
        | none ↦ none
        | some (w, s) ↦ some (w, record m { mem = s })
      ])
      e

abbrev pub lowered : Machine Mmu → Mmu → Machine Mmu
lowered m n = record m { cpu = record m.cpu { sp = sub32 m.cpu.sp 4 }; mem = n }

abbrev pub raised : Machine Mmu → Mmu → Machine Mmu
raised m n = record m { cpu = record m.cpu { sp = add32 m.cpu.sp 4 }; mem = n }

module _ (curr pid ss lo hi : ℕ) (p : ProcessTableItem) (low : hi < 2 ^ 31) where
  -- The process in block `curr` is on the CPU, with the words on top of its stack at `sp`.
  abbrev pub OnStack : ℕ → List ℕ → Machine Mmu → Type 0
  OnStack sp ws m =
      (m.core.scheduler.pcb_curr ≡ some curr)
      × ((m.core.pcb_manager.pcbs curr).pid ≡ pid)
      × (m.cpu.ss ≡ ss)
      × (m.cpu.sp ≡ sp)
      × CanUse pid p lo hi m.mem
      × AreWords p m.mem (ss + sp + 1) ws

  pub push-OnStack :
      (v sp : ℕ) (ws : List ℕ) (m : Machine Mmu)
      → 4 ≤ sp
      → lo ≤ ss + (sp - 4) + 1
      → ss + sp + 1 ≤ hi
      → OnStack sp ws m
      → (n : Mmu) × (push v m ≡ some (tt, lowered m n)) × OnStack (sp - 4) (v ∷ ws) (lowered m n)
  unfolding push
  push-OnStack v sp ws m four le top (on, own, base, at, can, words) =
      let (n, e, can', here, behind) =
        write-int pid p lo hi m.mem can (ss + (sp - 4) + 1) v le (omega arith) (omega arith) in
      let address =
        ap (λ x. sext (sub32 (add32 x m.cpu.sp) 3)) base
        ∙ (ap (λ x. sext (sub32 (add32 ss x) 3)) at ∙ push_address ss sp four (omega arith)) in
      let next : ss + sp + 1 ≡ ss + (sp - 4) + 1 + 4 = omega arith in
      (
        n,
        bind-some curr_pid _ (curr_pid-some on)
            ∙ bind-some (write_int (sext (sub32 (add32 m.cpu.ss m.cpu.sp) 3)) v _) _
                (write_int-some _ v _ m n (rw (address, own) e)),
        (
          on,
          own,
          base,
          ap (λ x. sub32 x 4) at ∙ omega arith,
          can',
          (
            here,
            AreWords-map p p m.mem n (ss + (sp - 4) + 1 + 4) ws
                (λ j w old.
                  let e : ss + (sp - 4) + 1 + (4 + j) ≡ ss + (sp - 4) + 1 + 4 + j = omega arith in
                  subst (λ x. IsByte p n x w) e
                    (behind (4 + j) w (omega arith) (subst (λ x. IsByte p m.mem x w) (sym e) old)))
                (subst (λ x. AreWords p m.mem x ws) next words),
          ),
        ),
      )

  pub pop-OnStack :
      (v sp : ℕ) (ws : List ℕ) (m : Machine Mmu)
      → v < 2 ^ 32
      → 2 ≤ m.mem.page_bit
      → ss + sp + 1 + 4 ≤ hi
      → OnStack sp (v ∷ ws) m
      → (n : Mmu) × (pop m ≡ some (v, raised m n))
        × OnStack (sp + 4) ws (raised m n)
        × (2 ≤ n.page_bit)
  unfolding pop
  pop-OnStack v sp ws m small wide top (on, own, base, at, can, (here, words)) =
      let (n, e, can', _, same_bytes, same_bit) =
        read-int pid (ss + sp + 1) v lo hi p m.mem can top small here wide in
      let address =
        ap (λ x. sext (add32 (add32 x m.cpu.sp) 1)) base
        ∙ (ap (λ x. sext (add32 (add32 ss x) 1)) at ∙ pop_address ss sp (omega arith)) in
      let next : ss + sp + 1 + 4 ≡ ss + (sp + 4) + 1 = omega arith in
      (
        n,
        bind-some curr_pid _ (curr_pid-some on)
            ∙ bind-some (read_int _ (sext (add32 (add32 m.cpu.ss m.cpu.sp) 1))) _
                (read_int-some _ _ v m n (rw (address, own) e)),
        (
          on,
          own,
          base,
          ap (λ x. add32 x 4) at ∙ omega arith,
          can',
          subst (λ x. AreWords p n x ws) next
              (AreWords-map p p m.mem n (ss + sp + 1 + 4) ws
                (λ j w (i, there, inside, value). (
                  i,
                  subst (λ b. p.pages ((ss + sp + 1 + 4 + j) / 2 ^ b) ≡ some i) (sym same_bit)
                      there,
                  inside,
                  subst
                      (λ b.
                        get_or (n.memory i.physical_address) ((ss + sp + 1 + 4 + j) % 2 ^ b) 0 ≡ w)
                      (sym same_bit)
                      (ap
                          (λ f.
                            get_or (f i.physical_address)
                              ((ss + sp + 1 + 4 + j) % 2 ^ m.mem.page_bit) 0)
                          same_bytes
                        ∙ value),
                ))
                words),
        ),
        subst (λ b. 2 ≤ b) (sym same_bit) wide,
      )
