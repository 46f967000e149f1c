-- ===== src/Os/Core/Semaphore.antt =====
-- os/oscore/OSCore.cpp: semaphores and the queues of the kernel.
use ferry_os.Prelude.{
  ℕ, zero, suc, ◌+◌, ◌-◌, ◌≤◌, ◌<◌, ◌≡◌, refl, sym, ◌∙◌, true, List, [], ◌∷◌, ◌++◌, arith, ltb,
  ◌==◌, if◌then◌else◌,
}
use ferry_os.Prelude.Count.{times, times-snoc}
use ferry_os.Config.{Config}
use ferry_os.Machine.{Core}
use ferry_os.Os.Pcb.{Store, update, remove_pid}
use ferry_os.Os.Sem.{signal, unblock, has_pend, set_ctr}
use ferry_os.Os.PcbManager.{Err}
use ferry_os.Os.SemManager.{get_sem, return_sem}
use ferry_os.Os.Scheduler.{add_ready_pcb, remove_from_waiting_list}
use ferry_os.Os.Core.{sem_post, sem_delete, sem_accept}

-- A block is the only one with its pid.
abbrev pub HasOwnPid : Store → ℕ → Type 0
HasOwnPid st i = (j : ℕ) → (st j).pid ≡ (st i).pid → j ≡ i

-- Taking the process out of a queue takes one entry of its block and no other.
pub times-remove_pid :
    (st : Store) (i j : ℕ) (q : List ℕ)
    → HasOwnPid st i
    → times j (remove_pid st (st i).pid q) ≡ times j q - (if i == j then 1 else 0)
unfolding remove_pid
times-remove_pid st i j [] own = ground arith
times-remove_pid st i j (x ∷ q) own = ground (arith, own x, times-remove_pid st i j q own)

-- Posting a valid semaphore that somebody waits for passes the token on: the process that waits
-- longest leaves the queue of the semaphore and goes to the end of the ready queue, its block is
-- unblocked and no other block changes, the counter stays, and no block is queued more or less
-- often than before. The process must have a pid of its own and stand in the waiting queue.
pub sem_post-wakes :
    (cfg : Config) (id w j : ℕ) (ws : List ℕ) (c : Core)
    → id < cfg.max_sem
    → (c.sem_manager.sems id).waiting_list ≡ w ∷ ws
    → HasOwnPid c.pcb_manager.pcbs w
    → 0 < times w c.scheduler.waiting_list
    → let (d, err) = sem_post cfg id c in
      (err ≡ Err.no_err)
      × (d.scheduler.ready_list ≡ c.scheduler.ready_list ++ w ∷ [])
      × (times j d.scheduler.ready_list + times j d.scheduler.waiting_list
          ≡ times j c.scheduler.ready_list + times j c.scheduler.waiting_list)
      × ((d.sem_manager.sems id).waiting_list ≡ ws)
      × ((d.sem_manager.sems id).ctr ≡ (c.sem_manager.sems id).ctr)
      × (d.pcb_manager.pcbs j
          ≡ (if w == j then unblock (c.pcb_manager.pcbs j) else c.pcb_manager.pcbs j))
unfolding sem_post get_sem signal add_ready_pcb remove_from_waiting_list
sem_post-wakes cfg id w j ws c lt e own q = (
  ground arith,
  ground arith,
  ground (
    arith,
    times-remove_pid (update unblock w c.pcb_manager.pcbs) w j c.scheduler.waiting_list still_own,
    times-snoc j c.scheduler.ready_list w,
  ),
  ground arith,
  ground arith,
  ground arith,
)
  where
    same_pid : (k : ℕ) → (update unblock w c.pcb_manager.pcbs k).pid ≡ (c.pcb_manager.pcbs k).pid
    same_pid k = ground arith

    still_own : HasOwnPid (update unblock w c.pcb_manager.pcbs) w
    still_own k h = own k (sym (same_pid k) ∙ (h ∙ same_pid w))

-- Posting a valid semaphore that nobody waits for adds a token up to the limit, which is a UINT16,
-- reports that nobody waited, and leaves scheduler and processes as they were.
pub sem_post-counts :
    (cfg : Config) (id : ℕ) (c : Core)
    → id < cfg.max_sem
    → (c.sem_manager.sems id).waiting_list ≡ []
    → (c.sem_manager.sems id).largest_ctr < 0x10000
    → let (d, err) = sem_post cfg id c in
      let s = c.sem_manager.sems id in
      (err ≡ Err.sem_post_no_pend)
      × ((d.sem_manager.sems id).ctr ≡ (if ltb s.ctr s.largest_ctr then s.ctr + 1 else s.ctr))
      × (d.scheduler ≡ c.scheduler)
      × (d.pcb_manager ≡ c.pcb_manager)
unfolding sem_post get_sem signal
sem_post-counts cfg id c lt e small = (ground arith, ground arith, ground arith, ground arith)

-- A semaphore that was deleted can still be used: the test of whether it is free has no effect, so
-- posting it is no error of an invalid semaphore.
pub sem_post-deleted :
    (cfg : Config) (id : ℕ) (c : Core)
    → id < cfg.max_sem
    → (c.sem_manager.sems id).waiting_list ≡ []
    → let (d, err) = sem_delete cfg id c in
      (err ≡ Err.no_err)
      × (d.sem_manager.is_free id ≡ true)
      × ((sem_post cfg id d).1 ≡ Err.sem_post_no_pend)
unfolding sem_post sem_delete get_sem signal return_sem has_pend
sem_post-deleted cfg id c lt e = (ground arith, ground arith, ground arith)

-- `semAccept` a number of times: how many of them get a token.
unfoldable pub accept_all : Config → ℕ → ℕ → Core → ℕ × Core
accept_all cfg zero id c = (0, c)
accept_all cfg (suc n) id c =
    let (d, got) = sem_accept cfg id c in
    let (m, e) = accept_all cfg n id d in ((if got then 1 else 0) + m, e)

-- A counter within its limit hands out as many tokens as it counts and no more.
pub accept_all-tokens :
    (cfg : Config) (n id : ℕ) (c : Core)
    → id < cfg.max_sem
    → (c.sem_manager.sems id).ctr ≤ (c.sem_manager.sems id).largest_ctr
    → let (got, d) = accept_all cfg n id c in
      got + (d.sem_manager.sems id).ctr ≡ (c.sem_manager.sems id).ctr
unfolding accept_all sem_accept get_sem set_ctr
accept_all-tokens cfg zero id c lt h = omega arith
accept_all-tokens cfg (suc n) id c lt h =
    ground (arith, accept_all-tokens cfg n id (sem_accept cfg id c).0 lt)

-- A counter above its limit by more than one, which `semCreate` does not refuse, hands out a token
-- at every call and never goes down.
pub accept_all-unbounded :
    (cfg : Config) (n id : ℕ) (c : Core)
    → id < cfg.max_sem
    → suc (c.sem_manager.sems id).largest_ctr < (c.sem_manager.sems id).ctr
    → (accept_all cfg n id c).0 ≡ n
unfolding accept_all sem_accept get_sem set_ctr
accept_all-unbounded cfg zero id c lt h = refl
accept_all-unbounded cfg (suc n) id c lt h =
    ground (arith, accept_all-unbounded cfg n id (sem_accept cfg id c).0 lt)
