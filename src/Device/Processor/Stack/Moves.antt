-- ===== src/Device/Processor/Stack/Moves.antt =====
-- device/processor/processor.cpp: the pushes and pops of a context, five registers at a time.
use ferry_os.Prelude.{
  ℕ, ◌+◌, ◌-◌, ◌^◌, ◌≤◌, ◌<◌, ◌≡◌, sym, subst, ◌∙◌, none, some, Option, List, [], ◌∷◌, arith, All,
}
use ferry_os.Machine.{
  ◌>>=◌, ◌>>◌, change_cpu, from_cpu, Machine, Cpu, M, bind-some, curr_pcb, curr_pcb-some,
}
use ferry_os.Device.Mmu.State.{Mmu}
use ferry_os.Device.Mmu.ProcessTable.{ProcessTableItem}
use ferry_os.Device.Processor.Stack.{add32, push, pop}
use ferry_os.Device.Processor.Stack.Words.{lowered, raised, OnStack, push-OnStack, pop-OnStack}

-- The registers of a context, as they lie on the stack, the last pushed first.
abbrev pub context : Cpu → List ℕ
context c = c.pc ∷ c.bp ∷ c.as_ ∷ c.fs ∷ c.ds ∷ c.cs ∷ c.reg3 ∷ c.reg2 ∷ c.reg1 ∷ c.reg0 ∷ []

-- A method returns, and this holds behind it.
abbrev pub Returns : (Machine Mmu → Type 0) → Option (Unit {0} × Machine Mmu) → Type 0
Returns Q o = (r : Machine Mmu) × (o ≡ some (tt, r)) × Q r

-- The registers of one half of a context are loaded.
abbrev pub front_loaded : ℕ → ℕ → ℕ → ℕ → ℕ → Machine Mmu → Machine Mmu
front_loaded v0 v1 v2 v3 v4 m = record m {
  cpu = record m.cpu { pc = v0; bp = v1; as_ = v2; fs = v3; ds = v4 };
}

abbrev pub back_loaded : ℕ → ℕ → ℕ → ℕ → ℕ → Machine Mmu → Machine Mmu
back_loaded v0 v1 v2 v3 v4 m = record m {
  cpu = record m.cpu { cs = v0; reg3 = v1; reg2 = v2; reg1 = v3; reg0 = v4 };
}

module _ (curr pid ss sp : ℕ) (room : 40 ≤ sp) (low : ss + sp + 1 < 2 ^ 31) (p : ProcessTableItem)
    (Q : Machine Mmu → Type 0) where
  abbrev pub bottom : ℕ
  bottom = ss + sp + 1 - 40

  abbrev pub Stacked : ℕ → List ℕ → Machine Mmu → Type 0
  Stacked = OnStack curr pid ss bottom (ss + sp + 1) p low

  pub start-Returns :
      (rest : ℕ → M Mmu (Unit {0})) (m : Machine Mmu)
      → m.core.scheduler.pcb_curr ≡ some curr
      → Returns Q (rest curr m)
      → Returns Q (elim (curr_pcb m) as (λ _. Option (Unit {0} × Machine Mmu)) [
        | none ↦ none
        | some (i, m') ↦ rest i m'
      ])
  start-Returns rest m on (r, e, q) = (r, bind-some curr_pcb rest (curr_pcb-some on) ∙ e, q)

  push-Returns :
      (rest : M Mmu (Unit {0})) (v s next : ℕ) (ws : List ℕ) (m : Machine Mmu)
      → s ≡ next + 4
      → s ≤ sp
      → sp ≤ next + 40
      → Stacked s ws m
      → ((n : Mmu) → Stacked next (v ∷ ws) (lowered m n) → Returns Q (rest (lowered m n)))
      → Returns Q (elim (push v m) as (λ _. Option (Unit {0} × Machine Mmu)) [
        | none ↦ none
        | some (a, m') ↦ rest m'
      ])
  push-Returns rest v s next ws m four le near h more =
      let (n, e, k) =
        push-OnStack curr pid ss bottom (ss + sp + 1) p low v s ws m (omega arith) (omega arith)
          (omega arith) h in
      let there : s - 4 ≡ next = omega arith in
      let (r, f, q) = more n (subst (λ x. Stacked x (v ∷ ws) (lowered m n)) there k) in
      (r, bind-some (push v) (λ _. rest) e ∙ f, q)

  pop-Returns :
      (rest : ℕ → M Mmu (Unit {0})) (v s next : ℕ) (ws : List ℕ) (m : Machine Mmu)
      → v < 2 ^ 32
      → next ≡ s + 4
      → next ≤ sp
      → 2 ≤ m.mem.page_bit
      → Stacked s (v ∷ ws) m
      → ((n : Mmu)
          → 2 ≤ n.page_bit
          → Stacked next ws (raised m n)
          → Returns Q (rest v (raised m n)))
      → Returns Q (elim (pop m) as (λ _. Option (Unit {0} × Machine Mmu)) [
        | none ↦ none
        | some (w, m') ↦ rest w m'
      ])
  pop-Returns rest v s next ws m small four le wide h more =
      let (n, e, k, wide') =
        pop-OnStack curr pid ss bottom (ss + sp + 1) p low v s ws m small wide (omega arith) h in
      let (r, f, q) = more n wide' (subst (λ x. Stacked x ws (raised m n)) (sym four) k) in
      (r, bind-some pop rest e ∙ f, q)

  pub low-Returns :
      (rest : M Mmu (Unit {0})) (ws : List ℕ) (m : Machine Mmu)
      → Stacked (sp - 0) ws m
      → ((n : Mmu)
          → Stacked
              (sp - 20)
              (m.cpu.cs ∷ m.cpu.reg3 ∷ m.cpu.reg2 ∷ m.cpu.reg1 ∷ m.cpu.reg0 ∷ ws)
              (lowered (lowered (lowered (lowered (lowered m n) n) n) n) n)
          → Returns Q (rest (lowered (lowered (lowered (lowered (lowered m n) n) n) n) n)))
      → Returns Q (
          (do
            push (← from_cpu (λ c. c.reg0))
            push (← from_cpu (λ c. c.reg1))
            push (← from_cpu (λ c. c.reg2))
            push (← from_cpu (λ c. c.reg3))
            push (← from_cpu (λ c. c.cs))
            rest)
            m)
  low-Returns rest ws m h more =
      push-Returns _ m.cpu.reg0 (sp - 0) (sp - 4) ws m (omega arith) (omega arith) (omega arith) h
        (λ n1 h1.
          let m1 = lowered m n1 in
          push-Returns _ m.cpu.reg1 (sp - 4) (sp - 8) (m.cpu.reg0 ∷ ws) m1 (omega arith)
            (omega arith) (omega arith) h1
            (λ n2 h2.
              let m2 = lowered m1 n2 in
              push-Returns _ m.cpu.reg2 (sp - 8) (sp - 12) (m.cpu.reg1 ∷ m.cpu.reg0 ∷ ws) m2
                (omega arith) (omega arith) (omega arith) h2
                (λ n3 h3.
                  let m3 = lowered m2 n3 in
                  push-Returns _ m.cpu.reg3 (sp - 12) (sp - 16)
                    (m.cpu.reg2 ∷ m.cpu.reg1 ∷ m.cpu.reg0 ∷ ws) m3 (omega arith) (omega arith)
                    (omega arith) h3
                    (λ n4 h4.
                      let m4 = lowered m3 n4 in
                      push-Returns _ m.cpu.cs (sp - 16) (sp - 20)
                        (m.cpu.reg3 ∷ m.cpu.reg2 ∷ m.cpu.reg1 ∷ m.cpu.reg0 ∷ ws) m4 (omega arith)
                        (omega arith) (omega arith) h4 (λ n5 h5. more n5 h5)))))

  pub high-Returns :
      (rest : M Mmu (Unit {0})) (ws : List ℕ) (m : Machine Mmu)
      → Stacked (sp - 20) ws m
      → ((n : Mmu)
          → Stacked
              (sp - 40)
              (m.cpu.pc ∷ m.cpu.bp ∷ m.cpu.as_ ∷ m.cpu.fs ∷ m.cpu.ds ∷ ws)
              (lowered (lowered (lowered (lowered (lowered m n) n) n) n) n)
          → Returns Q (rest (lowered (lowered (lowered (lowered (lowered m n) n) n) n) n)))
      → Returns Q (
          (do
            push (← from_cpu (λ c. c.ds))
            push (← from_cpu (λ c. c.fs))
            push (← from_cpu (λ c. c.as_))
            push (← from_cpu (λ c. c.bp))
            push (← from_cpu (λ c. c.pc))
            rest)
            m)
  high-Returns rest ws m h more =
      push-Returns _ m.cpu.ds (sp - 20) (sp - 24) ws m (omega arith) (omega arith) (omega arith) h
        (λ n1 h1.
          let m1 = lowered m n1 in
          push-Returns _ m.cpu.fs (sp - 24) (sp - 28) (m.cpu.ds ∷ ws) m1 (omega arith) (omega arith)
            (omega arith) h1
            (λ n2 h2.
              let m2 = lowered m1 n2 in
              push-Returns _ m.cpu.as_ (sp - 28) (sp - 32) (m.cpu.fs ∷ m.cpu.ds ∷ ws) m2
                (omega arith) (omega arith) (omega arith) h2
                (λ n3 h3.
                  let m3 = lowered m2 n3 in
                  push-Returns _ m.cpu.bp (sp - 32) (sp - 36) (m.cpu.as_ ∷ m.cpu.fs ∷ m.cpu.ds ∷ ws)
                    m3 (omega arith) (omega arith) (omega arith) h3
                    (λ n4 h4.
                      let m4 = lowered m3 n4 in
                      push-Returns _ m.cpu.pc (sp - 36) (sp - 40)
                        (m.cpu.bp ∷ m.cpu.as_ ∷ m.cpu.fs ∷ m.cpu.ds ∷ ws) m4 (omega arith)
                        (omega arith) (omega arith) h4 (λ n5 h5. more n5 h5)))))

  pub front-Returns :
      (rest : M Mmu (Unit {0})) (v0 v1 v2 v3 v4 : ℕ) (ws : List ℕ) (m : Machine Mmu)
      → All (λ v. v < 2 ^ 32) (v0 ∷ v1 ∷ v2 ∷ v3 ∷ v4 ∷ [])
      → 2 ≤ m.mem.page_bit
      → Stacked (sp - 40) (v0 ∷ v1 ∷ v2 ∷ v3 ∷ v4 ∷ ws) m
      → ((n : Mmu)
          → 2 ≤ n.page_bit
          → Stacked
              (sp - 20)
              ws
              (front_loaded v0 v1 v2 v3 v4 (raised (raised (raised (raised (raised m n) n) n) n) n))
          → Returns Q (
              rest (
                front_loaded v0 v1 v2 v3 v4
                  (raised (raised (raised (raised (raised m n) n) n) n) n))))
      → Returns Q (
          (do
            pc ← pop
            change_cpu (λ c. record c { pc = pc })
            bp ← pop
            change_cpu (λ c. record c { bp = bp })
            as_ ← pop
            change_cpu (λ c. record c { as_ = as_ })
            fs ← pop
            change_cpu (λ c. record c { fs = fs })
            ds ← pop
            change_cpu (λ c. record c { ds = ds })
            rest)
            m)
  front-Returns rest v0 v1 v2 v3 v4 ws m (s0, (s1, (s2, (s3, (s4, _))))) wide h more =
      pop-Returns _ v0 (sp - 40) (sp - 36) (v1 ∷ v2 ∷ v3 ∷ v4 ∷ ws) m s0 (omega arith) (omega arith)
        wide h
        (λ n1 g1 h1.
          let m1 = record m { cpu = record m.cpu { pc = v0; sp = add32 m.cpu.sp 4 }; mem = n1 } in
          pop-Returns _ v1 (sp - 36) (sp - 32) (v2 ∷ v3 ∷ v4 ∷ ws) m1 s1 (omega arith) (omega arith)
            g1 h1
            (λ n2 g2 h2.
              let m2 = record m1 {
                cpu = record m1.cpu { bp = v1; sp = add32 m1.cpu.sp 4 };
                mem = n2;
              } in
              pop-Returns _ v2 (sp - 32) (sp - 28) (v3 ∷ v4 ∷ ws) m2 s2 (omega arith) (omega arith)
                g2 h2
                (λ n3 g3 h3.
                  let m3 = record m2 {
                    cpu = record m2.cpu { as_ = v2; sp = add32 m2.cpu.sp 4 };
                    mem = n3;
                  } in
                  pop-Returns _ v3 (sp - 28) (sp - 24) (v4 ∷ ws) m3 s3 (omega arith) (omega arith)
                    g3 h3
                    (λ n4 g4 h4.
                      let m4 = record m3 {
                        cpu = record m3.cpu { fs = v3; sp = add32 m3.cpu.sp 4 };
                        mem = n4;
                      } in
                      pop-Returns _ v4 (sp - 24) (sp - 20) ws m4 s4 (omega arith) (omega arith) g4
                        h4 (λ n5 g5 h5. more n5 g5 h5)))))

  pub back-Returns :
      (rest : M Mmu (Unit {0})) (v0 v1 v2 v3 v4 : ℕ) (ws : List ℕ) (m : Machine Mmu)
      → All (λ v. v < 2 ^ 32) (v0 ∷ v1 ∷ v2 ∷ v3 ∷ v4 ∷ [])
      → 2 ≤ m.mem.page_bit
      → Stacked (sp - 20) (v0 ∷ v1 ∷ v2 ∷ v3 ∷ v4 ∷ ws) m
      → ((n : Mmu)
          → 2 ≤ n.page_bit
          → Stacked
              (sp - 0)
              ws
              (back_loaded v0 v1 v2 v3 v4 (raised (raised (raised (raised (raised m n) n) n) n) n))
          → Returns Q (
              rest (
                back_loaded v0 v1 v2 v3 v4
                  (raised (raised (raised (raised (raised m n) n) n) n) n))))
      → Returns Q (
          (do
            cs ← pop
            change_cpu (λ c. record c { cs = cs })
            reg3 ← pop
            change_cpu (λ c. record c { reg3 = reg3 })
            reg2 ← pop
            change_cpu (λ c. record c { reg2 = reg2 })
            reg1 ← pop
            change_cpu (λ c. record c { reg1 = reg1 })
            reg0 ← pop
            change_cpu (λ c. record c { reg0 = reg0 })
            rest)
            m)
  back-Returns rest v0 v1 v2 v3 v4 ws m (s0, (s1, (s2, (s3, (s4, _))))) wide h more =
      pop-Returns _ v0 (sp - 20) (sp - 16) (v1 ∷ v2 ∷ v3 ∷ v4 ∷ ws) m s0 (omega arith) (omega arith)
        wide h
        (λ n1 g1 h1.
          let m1 = record m { cpu = record m.cpu { cs = v0; sp = add32 m.cpu.sp 4 }; mem = n1 } in
          pop-Returns _ v1 (sp - 16) (sp - 12) (v2 ∷ v3 ∷ v4 ∷ ws) m1 s1 (omega arith) (omega arith)
            g1 h1
            (λ n2 g2 h2.
              let m2 = record m1 {
                cpu = record m1.cpu { reg3 = v1; sp = add32 m1.cpu.sp 4 };
                mem = n2;
              } in
              pop-Returns _ v2 (sp - 12) (sp - 8) (v3 ∷ v4 ∷ ws) m2 s2 (omega arith) (omega arith)
                g2 h2
                (λ n3 g3 h3.
                  let m3 = record m2 {
                    cpu = record m2.cpu { reg2 = v2; sp = add32 m2.cpu.sp 4 };
                    mem = n3;
                  } in
                  pop-Returns _ v3 (sp - 8) (sp - 4) (v4 ∷ ws) m3 s3 (omega arith) (omega arith) g3
                    h3
                    (λ n4 g4 h4.
                      let m4 = record m3 {
                        cpu = record m3.cpu { reg1 = v3; sp = add32 m3.cpu.sp 4 };
                        mem = n4;
                      } in
                      pop-Returns _ v4 (sp - 4) (sp - 0) ws m4 s4 (omega arith) (omega arith) g4 h4
                        (λ n5 g5 h5. more n5 g5 h5)))))
