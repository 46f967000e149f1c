-- ===== src/Tests/Managers.antt =====
-- The process manager and a semaphore at concrete inputs.
use ferry_os.Prelude.{ℕ, ◌<◌, ◌≡◌, refl, true, false, none, some, [], ◌∷◌, arith, ◌⊎◌, replicate}
use ferry_os.Os.Sem.{Sem, wait, signal, set_ctr, set_largest, remove_waiting}
use ferry_os.Os.Sem.Laws.{IsSound, ops-IsSound, wait_all, signal_all, signal_all-wait_all}
use ferry_os.Os.PcbManager.{PcbManager, Err, get_free_pcb, return_pcb}
use ferry_os.Os.PcbManager.Laws
use ferry_os.Os.PcbManager.Laws.{init-IsConsistent, get_free_pcb_lem, return_pcb-IsConsistent}
use ferry_os.Tests.Data.{blocks, sems, managed, managed-IsConsistent}

get_free_pcb_lem_example :
    ((managed.proc_ctr ≡ 5) × (get_free_pcb 5 managed ≡ some (managed, none, Err.no_free_pcb)))
    ⊎ ((m' : PcbManager) × (i : ℕ) × (managed.proc_ctr < 5)
        × (get_free_pcb 5 managed ≡ some (m', some i, Err.no_err))
        × (i < 5)
        × (managed.created i ≡ false)
        × (m'.created i ≡ true)
        × Laws.IsConsistent 5 m')
get_free_pcb_lem_example = get_free_pcb_lem 5 managed managed-IsConsistent

return_pcb-IsConsistent_example :
    Laws.IsConsistent 5 (return_pcb 2 managed) × ((return_pcb 2 managed).created 2 ≡ false)
return_pcb-IsConsistent_example =
    return_pcb-IsConsistent 5 2 managed managed-IsConsistent (omega arith) refl (omega arith)

two_tokens-IsSound : IsSound (sems 0)
two_tokens-IsSound = record { within = omega arith; word = omega arith; no_idle_token = λ p. refl }

ops-IsSound_example :
    IsSound (wait 0 1 9 (sems 0) blocks).0
    × IsSound (signal (sems 0) blocks).0
    × IsSound (set_ctr 1 (sems 0))
    × IsSound (set_largest 3 (sems 0))
    × IsSound (remove_waiting blocks 4 (sems 0))
ops-IsSound_example = ops-IsSound 0 1 9 4 3 blocks (sems 0) (omega arith) two_tokens-IsSound

abbrev no_tokens : Sem
no_tokens = record { id = 3; ctr = 0; largest_ctr = 4; name = replicate 64 0; waiting_list = [] }

signal_all-wait_all_example :
    signal_all 3
      (wait_all 3 9 (5 ∷ 2 ∷ 7 ∷ []) no_tokens blocks).0
      (wait_all 3 9 (5 ∷ 2 ∷ 7 ∷ []) no_tokens blocks).1
    ≡ 5 ∷ 2 ∷ 7 ∷ []
signal_all-wait_all_example = signal_all-wait_all 3 9 (5 ∷ 2 ∷ 7 ∷ []) no_tokens blocks refl refl
