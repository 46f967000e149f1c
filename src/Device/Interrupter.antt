-- ===== src/Device/Interrupter.antt =====
-- device/interrupter/interrupter.cpp: an interrupt controller with eight sources.
-- `IntController` is the object, one function stands for each method, with the new object as its
-- result. The registers are unsigned chars; source 0 has the highest priority.
pub mod Priority
pub mod Service
pub mod Starvation
use ferry_os.Prelude.{
  ℕ, ◌-◌, Bool, true, false, List, [], ◌∷◌, ◌++◌, ltb, ◌==◌, if◌then◌else◌, get_or,
}
use ferry_os.Prelude.Words.{set_bit8, clear_bit8}

pub record IntController : Type 0 where
  pub irq : Bool
  pub irr : ℕ
  pub isr : ℕ
  pub int_num : ℕ

-- The first sixteen entries of each row of the table repeat but for entry 0.
unfoldable highest_prio_row : ℕ → List ℕ
highest_prio_row first = first ∷ 0 ∷ 1 ∷ 0 ∷ 2 ∷ 0 ∷ 1 ∷ 0 ∷ 3 ∷ 0 ∷ 1 ∷ 0 ∷ 2 ∷ 0 ∷ 1 ∷ 0 ∷ []

unfoldable pub highest_prio_map : List ℕ
unfolding highest_prio_row
highest_prio_map =
    highest_prio_row 0
    ++ highest_prio_row 4
    ++ highest_prio_row 5
    ++ highest_prio_row 4
    ++ highest_prio_row 6
    ++ highest_prio_row 4
    ++ highest_prio_row 5
    ++ highest_prio_row 4
    ++ highest_prio_row 7
    ++ highest_prio_row 4
    ++ highest_prio_row 5
    ++ highest_prio_row 4
    ++ highest_prio_row 6
    ++ highest_prio_row 4
    ++ highest_prio_row 5
    ++ highest_prio_row 4

unfoldable pub highest_prio : ℕ → ℕ
unfolding highest_prio_map
highest_prio x = get_or highest_prio_map x 0

unfoldable pub init : IntController → IntController
init c = record c { irq = false; irr = 0; isr = 0 }

unfoldable pub set_int_req : ℕ → IntController → IntController
set_int_req index c = record c { irr = set_bit8 c.irr index; irq = true }

unfoldable pub clear_int_req : ℕ → IntController → IntController
clear_int_req index c = record c { irr = clear_bit8 c.irr index }

unfoldable pub set_isr : ℕ → IntController → IntController
set_isr index c = record c { isr = set_bit8 c.isr index }

unfoldable pub clear_isr : ℕ → IntController → IntController
clear_isr index c = record c { isr = clear_bit8 c.isr index }

unfoldable pub has_irq : IntController → Bool
has_irq c = c.irq

-- The result of the comparison comes with the object.
unfoldable pub prio_judge : IntController → IntController × Bool
prio_judge c =
    let highest_req = highest_prio c.irr in
    if c.isr == 0
    then (record c { int_num = highest_req }, true)
    else if ltb highest_req (highest_prio c.isr)
    then (record c { int_num = highest_req }, true)
    else (c, false)

unfoldable pub respond_int : IntController → IntController × ℕ
unfolding prio_judge set_isr clear_int_req
respond_int c =
    let judged = (prio_judge c).0 in
    let served = clear_int_req judged.int_num (set_isr judged.int_num judged) in
    let settled = if served.irr == 0 then record served { irq = false } else served in
    (settled, settled.int_num)
