-- ===== src/Process/History/Root.antt =====
-- linux-personality/oryxlinux.c: the process that main starts keeps its slot, and the variable
-- `root` that points at it is never changed.
use oryx_hurd.Base.{ℕ, ◌≡◌, refl, Bool, true, false, Option, none, some, ℤ, arith, first_index}
use oryx_hurd.Host.{Host, Regs}
use oryx_hurd.Server.{Server, max_proc, me, lift}
use oryx_hurd.Fd.{fd_fork, fd_closeall}
use oryx_hurd.Process.{proc_new, proc_take}
use oryx_hurd.Process.View.{Table, Life, idle, spawn, die, release, collect, park}
use oryx_hurd.Process.Invariant.{Inv, pid_of, ppid_of}
use oryx_hurd.Process.Fork.{
  sys_fork, fork_task, fork_into, fork_slot, fork_thread, start_child, prepare_child, abandon,
}
use oryx_hurd.Process.Exit.{proc_exited, bury, awaits, wake_parent, wake_found, wait_complete}
use oryx_hurd.Process.Wait.{
  Scan, dead_child, children, sys_wait4, wait_found, wait_dead, collect_if,
}

-- Slot `r` is taken by a process without a parent.
abbrev pub Rooted : ℕ → Table → Type 0
Rooted r v = (p : ℕ) × (pid_of (v.slots r) ≡ some p) × (ppid_of (v.slots r) ≡ 0)

-- No pid is 0, so nobody collects or releases such a process.
pub Life-Rooted : {v w : Table} (r : ℕ) → Life v w → Inv v → Rooted r v → Rooted r w
Life-Rooted r (idle same grow) inv (p, e, z) = (p, ground (arith, same r), ground (arith, same r))
Life-Rooted r (spawn i parent pid ppid small was up sets n) inv (p, e, z) =
    (p, ground (arith, sets r), ground (arith, sets r))
Life-Rooted r (die i pid ppid status was alone sets n) inv (p, e, z) =
    (p, ground (arith, sets r), ground (arith, sets r))
Life-Rooted r (release i pid ppid q grand target was up ok sets n) inv (p, e, z) =
    (p, ground (arith, sets r, inv.younger q ppid), ground (arith, sets r, inv.younger q ppid))
Life-Rooted r (collect i pid ppid status caller grand was up sets n) inv (p, e, z) = (
  p,
  ground (arith, sets r, inv.younger caller ppid),
  ground (arith, sets r, inv.younger caller ppid),
)
Life-Rooted r (park i pid ppid target was alone sets n) inv (p, e, z) =
    (p, ground (arith, sets r), ground (arith, sets r))

-- The globals that no fork and no exit changes.
abbrev pub globals : {K : Type 0} → Server K → ℕ × ℕ × Bool
globals s = (s.root, s.cur, s.defer_reply)

module _ {K : Type 0} (host : Host K) where
  fork_thread-globals :
      (st : Regs) (c task thread : ℕ) (s : Server K)
      → globals (fork_thread host st c task thread s).1 ≡ globals s
  unfolding fork_thread abandon
  fork_thread-globals st c task thread s = ground arith

  start_child-globals :
      (st : Regs) (c task : ℕ) (t : Option ℕ) (s : Server K)
      → globals (start_child host st c task t s).1 ≡ globals s
  unfolding start_child abandon
  start_child-globals st c task none s = refl
  start_child-globals st c task (some t) s = fork_thread-globals st c task t s

  fork_slot-globals :
      (st : Regs) (c : ℕ) (task : Option ℕ) (s : Server K)
      → globals (fork_slot host st c task s).1 ≡ globals s
  unfolding fork_slot fork_task prepare_child fd_fork
  fork_slot-globals st c none s = refl
  fork_slot-globals st c (some task) s =
      let r = prepare_child host c task s in start_child-globals st c task r.0 r.1

  fork_taken-globals :
      (st : Regs) (o : Option ℕ) (s : Server K)
      → let t = proc_take o s in globals (fork_into host st t.0 t.1).1 ≡ globals s
  unfolding proc_take fork_into
  fork_taken-globals st none s = refl
  fork_taken-globals st (some c) s =
      let t = (proc_take (some c) s).1 in
      let r = lift (host.task_create (me t).task true) t in fork_slot-globals st c r.0 r.1

  pub sys_fork-globals : (st : Regs) (s : Server K) → globals (sys_fork host st s).1 ≡ globals s
  unfolding sys_fork proc_new
  sys_fork-globals st s = fork_taken-globals st _ s

  wake_found-globals :
      (p : ℕ) (o : Option ℕ) (s : Server K) → globals (wake_found host p o s).1 ≡ globals s
  unfolding wake_found wait_complete
  wake_found-globals p none s = refl
  wake_found-globals p (some q) s = refl

  bury-globals : (p status : ℕ) (s : Server K) → globals (bury host p status s).1 ≡ globals s
  unfolding bury fd_closeall
  bury-globals p status s = refl

  pub proc_exited-globals :
      (p status : ℕ) (s : Server K) → globals (proc_exited host p status s).1 ≡ globals s
  unfolding proc_exited wake_parent
  proc_exited-globals p status s =
      let t = (bury host p status s).1 in
      ground (
        arith,
        bury-globals p status s,
        wake_found-globals p (first_index (λ i. awaits (t.procs p) (t.procs i)) max_proc) t,
      )

  wait_found-root :
      (pid : ℤ) (status_addr options : ℕ) (o : Scan) (s : Server K)
      → (wait_found host pid status_addr options o s).1.root ≡ s.root
  unfolding wait_found wait_dead collect_if
  wait_found-root pid status_addr options (dead_child d) s = ground arith
  wait_found-root pid status_addr options (children false) s = refl
  wait_found-root pid status_addr options (children true) s = ground arith

  pub sys_wait4-root :
      (pid : ℤ) (status_addr options : ℕ) (s : Server K)
      → (sys_wait4 host pid status_addr options s).1.root ≡ s.root
  unfolding sys_wait4
  sys_wait4-root pid status_addr options s = wait_found-root pid status_addr options _ s
