-- ===== src/Dispatch/Calls.antt =====
-- linux-personality/oryxlinux.c: what each system call leaves of the process table.
use oryx_hurd.Base.{◌%◌, ◌≡◌, refl, inl, inr, ◌⊎◌, neg, to_int32, bit}
use oryx_hurd.Host.{Host, Regs}
use oryx_hurd.Server.{Server}
use oryx_hurd.Errno.{HostErrno}
use oryx_hurd.Syscall.Stat.{linux_enosys}
use oryx_hurd.Process.Fork.{sys_fork}
use oryx_hurd.Process.History.{
  IsSound, IsRunning, sys_fork-IsSound, proc_exited-IsSound, sys_wait4-IsSound,
}
use oryx_hurd.Process.Quiet.{Quiet-IsSound}
use oryx_hurd.Process.Exec.Sound.{ImageLost, sys_execve-outcome}
use oryx_hurd.Syscall.Files.{OpenFlags}
use oryx_hurd.Syscall.Io.Keeps.{pick-holds}
use oryx_hurd.Syscall.Io.Sound.{kernel-IsSound, unlocked-IsSound}
use oryx_hurd.Dispatch.Kinds.{
  Changes, is_exit, is_fork, is_clone, is_execve, is_waitpid, run-kinds, run-holds,
}
use oryx_hurd.Dispatch.{Args, run}
use oryx_hurd.Dispatch.Number.{Call, execve}

-- The call kept the table sound, or was an execve that has lost the image.
abbrev pub Outcomes : {K : Type 0} → Call → Server K → Type 0
Outcomes c t = IsSound t ⊎ ((c ≡ execve) × ImageLost t)

execve-Outcomes : {K : Type 0} (t : Server K) → IsSound t ⊎ ImageLost t → Outcomes execve t
execve-Outcomes t (inl sound) = inl sound
execve-Outcomes t (inr gone) = inr (refl, gone)

module _ {K : Type 0} (host : Host K) (names : HostErrno) (flags : OpenFlags)
    (others : Server K → Server K) (fair : (s : Server K) → IsSound s → IsSound (others s)) where
  Changes-Outcomes :
      (st : Regs) (a : Args) (c : Call) (s : Server K)
      → Changes c
      → IsRunning s.cur s
      → IsSound s
      → Outcomes c (run host names flags others st a c s).1
  unfolding run
  Changes-Outcomes st a _ s is_exit up sound =
      inl (proc_exited-IsSound host s.cur (a.a1 % 256) s up sound)
  Changes-Outcomes st a _ s is_fork up sound = inl (sys_fork-IsSound host st s up sound)
  Changes-Outcomes st a _ s is_execve up sound =
      execve-Outcomes _ (sys_execve-outcome host names flags a.a1 a.a2 a.a3 s sound)
  Changes-Outcomes st a _ s is_waitpid up sound =
      inl (sys_wait4-IsSound host (to_int32 a.a1) a.a2 a.a3 s up sound)
  Changes-Outcomes st a _ s is_clone up sound = inl (
      pick-holds IsSound (bit a.a1 8) (neg linux_enosys, s) (sys_fork host st s) sound
        (sys_fork-IsSound host st s up sound))

  pub run-Outcomes :
      (st : Regs) (a : Args) (c : Call) (s : Server K)
      → IsRunning s.cur s
      → IsSound s
      → Outcomes c (run host names flags others st a c s).1
  run-Outcomes st a c s up sound = elim (run-kinds host names flags others st a c s) [
    | inl quiet ↦ inl (Quiet-IsSound s _ quiet sound)
    | inr (inl io) ↦ inl (
        run-holds host names flags others IsSound kernel-IsSound (unlocked-IsSound others fair) st a
          c s io sound)
    | inr (inr change) ↦ Changes-Outcomes st a c s change up sound
  ]
