-- ===== src/Dispatch/Replies.antt =====
-- linux-personality/oryxlinux.c: the calls of dispatch that leave the reply to serve.
use oryx_hurd.Base.{inl, inr, ◌%◌, neg, to_int32, bit}
use oryx_hurd.Host.{Host, Regs}
use oryx_hurd.Server.{Server}
use oryx_hurd.Errno.{HostErrno}
use oryx_hurd.Syscall.Stat.{linux_enosys}
use oryx_hurd.Process.Fork.{sys_fork}
use oryx_hurd.Process.Wait.{sys_wait4}
use oryx_hurd.Syscall.Files.{OpenFlags}
use oryx_hurd.Syscall.Io.Keeps.{pick-holds}
use oryx_hurd.Syscall.Io.Sound.{IsOwed, kernel-IsOwed, unlocked-IsOwed}
use oryx_hurd.Dispatch.Kinds.{
  Changes, is_exit, is_fork, is_clone, is_execve, is_waitpid, run-kinds, run-holds,
}
use oryx_hurd.Dispatch.{Args, run}
use oryx_hurd.Dispatch.Number.{Call}
use oryx_hurd.Dispatch.Owed.{
  IsAnswered, now, Quiet-IsAnswered, sys_execve-IsOwed, wait_found-IsAnswered, fork-IsOwed,
  exit-IsOwed,
}

module _ {K : Type 0} (host : Host K) (names : HostErrno) (flags : OpenFlags)
    (others : Server K → Server K) where
  Changes-IsAnswered :
      (st : Regs) (a : Args) (c : Call) (s : Server K)
      → Changes c
      → IsOwed s
      → IsAnswered c s.cur_reply s.cur (run host names flags others st a c s).1
  unfolding run sys_wait4
  Changes-IsAnswered st a _ s is_exit owed = now (exit-IsOwed host s.cur (a.a1 % 256) s owed)
  Changes-IsAnswered st a _ s is_fork owed = now (fork-IsOwed host st s owed)
  Changes-IsAnswered st a _ s is_clone owed = now (
      pick-holds IsOwed (bit a.a1 8) (neg linux_enosys, s) (sys_fork host st s) owed
        (fork-IsOwed host st s owed))
  Changes-IsAnswered st a _ s is_execve owed =
      now (sys_execve-IsOwed host names flags a.a1 a.a2 a.a3 s owed)
  Changes-IsAnswered st a _ s is_waitpid owed =
      wait_found-IsAnswered host (to_int32 a.a1) a.a2 a.a3 _ s owed

  -- Each call but wait4 leaves the reply to serve; wait4 may park the caller.
  pub run-IsAnswered :
      (st : Regs) (a : Args) (c : Call) (s : Server K)
      → IsOwed s
      → IsAnswered c s.cur_reply s.cur (run host names flags others st a c s).1
  run-IsAnswered st a c s owed = elim (run-kinds host names flags others st a c s) [
    | inl quiet ↦ Quiet-IsAnswered s _ quiet owed
    | inr (inl io) ↦ now (
        run-holds host names flags others IsOwed kernel-IsOwed (unlocked-IsOwed others) st a c s io
          owed)
    | inr (inr change) ↦ Changes-IsAnswered st a c s change owed
  ]
