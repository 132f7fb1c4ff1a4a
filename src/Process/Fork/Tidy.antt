-- ===== src/Process/Fork/Tidy.antt =====
-- sys_fork keeps the flags of the process table consistent.
use oryx_hurd.Base.{ℕ, true, Option, none, some, arith}
use oryx_hurd.Host.{Host, Regs}
use oryx_hurd.Server.{Server, me, lift}
use oryx_hurd.Fd.{fd_fork}
use oryx_hurd.Process.{proc_new, proc_take}
use oryx_hurd.Process.Fork.{
  sys_fork, fork_task, fork_into, fork_slot, fork_thread, start_child, prepare_child, abandon,
}
use oryx_hurd.Process.Tidy.{IsTidy}

module _ {K : Type 0} (host : Host K) where
  fork_thread-IsTidy :
      (st : Regs) (c task thread : ℕ) (s : Server K)
      → IsTidy s
      → IsTidy (fork_thread host st c task thread s).1
  unfolding fork_thread abandon
  fork_thread-IsTidy st c task thread s tidy = record {
    waits = λ j u v. ground (arith, tidy.waits j);
    kept = λ j u. ground (arith, tidy.kept j);
  }

  start_child-IsTidy :
      (st : Regs) (c task : ℕ) (t : Option ℕ) (s : Server K)
      → IsTidy s
      → IsTidy (start_child host st c task t s).1
  unfolding start_child abandon
  start_child-IsTidy st c task none s tidy = record {
    waits = λ j u v. ground (arith, tidy.waits j);
    kept = λ j u. ground (arith, tidy.kept j);
  }
  start_child-IsTidy st c task (some t) s tidy = fork_thread-IsTidy st c task t s tidy

  prepare_child-IsTidy :
      (c task : ℕ) (s : Server K) → IsTidy s → IsTidy (prepare_child host c task s).1
  unfolding prepare_child fd_fork
  prepare_child-IsTidy c task s tidy = record {
    waits = λ j u v. ground (arith, tidy.waits j);
    kept = λ j u. ground (arith, tidy.kept j);
  }

  fork_slot-IsTidy :
      (st : Regs) (c : ℕ) (t : Option ℕ) (s : Server K)
      → IsTidy s
      → IsTidy (fork_slot host st c t s).1
  unfolding fork_slot fork_task
  fork_slot-IsTidy st c none s tidy = record {
    waits = λ j u v. ground (arith, tidy.waits j);
    kept = λ j u. ground (arith, tidy.kept j);
  }
  fork_slot-IsTidy st c (some task) s tidy =
      let r = prepare_child host c task s in
      start_child-IsTidy st c task r.0 r.1 (prepare_child-IsTidy c task s tidy)

  fork_taken-IsTidy :
      (st : Regs) (o : Option ℕ) (s : Server K)
      → IsTidy s
      → let t = proc_take o s in IsTidy (fork_into host st t.0 t.1).1
  unfolding proc_take fork_into
  fork_taken-IsTidy st none s tidy = record { waits = tidy.waits; kept = tidy.kept }
  fork_taken-IsTidy st (some c) s tidy =
      let t = (proc_take (some c) s).1 in
      let r = lift (host.task_create (me t).task true) t in
      fork_slot-IsTidy st c r.0 r.1 (record {
        waits = λ j u v. ground (arith, tidy.waits j);
        kept = λ j u. ground (arith, tidy.kept j);
      })

  pub sys_fork-IsTidy : (st : Regs) (s : Server K) → IsTidy s → IsTidy (sys_fork host st s).1
  unfolding sys_fork proc_new
  sys_fork-IsTidy st s tidy = fork_taken-IsTidy st _ s tidy
