-- ===== src/Process/Fork/Slots.antt =====
-- The slots, the result and the next pid that the parts of sys_fork leave, from the thread up.
use oryx_hurd.Base.{
  ℕ, ◌≡◌, refl, true, Option, none, some, pos, neg, is_neg, ◌==◌, if◌then◌else◌, ◌&&◌, arith,
}
use oryx_hurd.Host.{Host, Regs}
use oryx_hurd.Server.{Server, me, lift}
use oryx_hurd.Fd.{fd_fork}
use oryx_hurd.Process.{linux_eagain, blank}
use oryx_hurd.Process.Fork.{
  fork_task, fork_into, fork_slot, fork_thread, start_child, prepare_child, abandon,
}
use oryx_hurd.Process.View.{free, running, slot_of}

module _ {K : Type 0} (host : Host K) where
  -- The slot of the child is free again exactly when the result is negative.
  fork_thread-slots :
      (st : Regs) (c task thread : ℕ) (s : Server K) (j : ℕ)
      → let r = fork_thread host st c task thread s in
        slot_of (r.1.procs j) ≡ (if is_neg r.0 && (c == j) then free else slot_of (s.procs j))
  unfolding fork_thread abandon
  fork_thread-slots st c task thread s j = ground arith

  fork_thread-result :
      (st : Regs) (c task thread : ℕ) (s : Server K)
      → let r = fork_thread host st c task thread s in
        r.0 ≡ (if is_neg r.0 then neg linux_eagain else pos (s.procs c).pid)
  unfolding fork_thread abandon
  fork_thread-result st c task thread s = ground arith

  fork_thread-next_pid :
      (st : Regs) (c task thread : ℕ) (s : Server K)
      → (fork_thread host st c task thread s).1.next_pid ≡ s.next_pid
  unfolding fork_thread abandon
  fork_thread-next_pid st c task thread s = ground arith

  start_child-slots :
      (st : Regs) (c task : ℕ) (t : Option ℕ) (s : Server K) (j : ℕ)
      → let r = start_child host st c task t s in
        slot_of (r.1.procs j) ≡ (if is_neg r.0 && (c == j) then free else slot_of (s.procs j))
  unfolding start_child abandon
  start_child-slots st c task none s j = ground arith
  start_child-slots st c task (some t) s j = fork_thread-slots st c task t s j

  start_child-result :
      (st : Regs) (c task : ℕ) (t : Option ℕ) (s : Server K)
      → let r = start_child host st c task t s in
        r.0 ≡ (if is_neg r.0 then neg linux_eagain else pos (s.procs c).pid)
  unfolding start_child abandon
  start_child-result st c task none s = ground arith
  start_child-result st c task (some t) s = fork_thread-result st c task t s

  start_child-next_pid :
      (st : Regs) (c task : ℕ) (t : Option ℕ) (s : Server K)
      → (start_child host st c task t s).1.next_pid ≡ s.next_pid
  unfolding start_child abandon
  start_child-next_pid st c task none s = refl
  start_child-next_pid st c task (some t) s = fork_thread-next_pid st c task t s

  prepare_child-slots :
      (c task n : ℕ) (s : Server K) (j : ℕ)
      → s.procs c ≡ blank n
      → slot_of ((prepare_child host c task s).1.procs j)
        ≡ (if c == j then running n (me s).pid else slot_of (s.procs j))
  unfolding prepare_child fd_fork
  prepare_child-slots c task n s j e = ground arith

  prepare_child-pid :
      (c task n : ℕ) (s : Server K)
      → s.procs c ≡ blank n
      → ((prepare_child host c task s).1.procs c).pid ≡ n
  unfolding prepare_child fd_fork
  prepare_child-pid c task n s e = ground arith

  fork_task-slots :
      (st : Regs) (c task n : ℕ) (s : Server K) (j : ℕ)
      → s.procs c ≡ blank n
      → let r = fork_task host st c task s in
        slot_of (r.1.procs j) ≡ (
          if c == j
          then (if is_neg r.0 then free else running n (me s).pid)
          else slot_of (s.procs j))
  unfolding fork_task
  fork_task-slots st c task n s j e =
      let r = prepare_child host c task s in
      ground (arith, start_child-slots st c task r.0 r.1 j, prepare_child-slots c task n s j e)

  fork_task-result :
      (st : Regs) (c task n : ℕ) (s : Server K)
      → s.procs c ≡ blank n
      → let r = fork_task host st c task s in r.0 ≡ (if is_neg r.0 then neg linux_eagain else pos n)
  unfolding fork_task
  fork_task-result st c task n s e =
      let r = prepare_child host c task s in
      ground (arith, start_child-result st c task r.0 r.1, prepare_child-pid c task n s e)

  fork_task-next_pid :
      (st : Regs) (c task : ℕ) (s : Server K) → (fork_task host st c task s).1.next_pid ≡ s.next_pid
  unfolding fork_task prepare_child fd_fork
  fork_task-next_pid st c task s =
      let r = prepare_child host c task s in start_child-next_pid st c task r.0 r.1

  fork_slot-slots :
      (st : Regs) (c n : ℕ) (task : Option ℕ) (s : Server K) (j : ℕ)
      → s.procs c ≡ blank n
      → let r = fork_slot host st c task s in
        slot_of (r.1.procs j) ≡ (
          if c == j
          then (if is_neg r.0 then free else running n (me s).pid)
          else slot_of (s.procs j))
  unfolding fork_slot
  fork_slot-slots st c n none s j e = ground arith
  fork_slot-slots st c n (some task) s j e = fork_task-slots st c task n s j e

  fork_slot-result :
      (st : Regs) (c n : ℕ) (task : Option ℕ) (s : Server K)
      → s.procs c ≡ blank n
      → let r = fork_slot host st c task s in
        (r.0 ≡ (if is_neg r.0 then neg linux_eagain else pos n)) × (r.1.next_pid ≡ s.next_pid)
  unfolding fork_slot
  fork_slot-result st c n none s e = ground arith
  fork_slot-result st c n (some task) s e =
      (fork_task-result st c task n s e, fork_task-next_pid st c task s)

  pub fork_into-slots :
      (st : Regs) (c n : ℕ) (s : Server K) (j : ℕ)
      → s.procs c ≡ blank n
      → let r = fork_into host st (some c) s in
        slot_of (r.1.procs j) ≡ (
          if c == j
          then (if is_neg r.0 then free else running n (me s).pid)
          else slot_of (s.procs j))
  unfolding fork_into
  fork_into-slots st c n s j e =
      let r = lift (host.task_create (me s).task true) s in fork_slot-slots st c n r.0 r.1 j e

  pub fork_into-result :
      (st : Regs) (c n : ℕ) (s : Server K)
      → s.procs c ≡ blank n
      → let r = fork_into host st (some c) s in
        (r.0 ≡ (if is_neg r.0 then neg linux_eagain else pos n)) × (r.1.next_pid ≡ s.next_pid)
  unfolding fork_into
  fork_into-result st c n s e =
      let r = lift (host.task_create (me s).task true) s in fork_slot-result st c n r.0 r.1 e
