-- ===== src/Dispatch/Kinds.antt =====
-- linux-personality/oryxlinux.c: the cases of dispatch by what they can change.
use oryx_hurd.Base.{ℕ, ◌*◌, refl, St, inl, inr, ◌⊎◌, neg}
use oryx_hurd.Host.{Host, Regs}
use oryx_hurd.Server.{Server, me, unlocked}
use oryx_hurd.Memory.{peek}
use oryx_hurd.Errno.{HostErrno}
use oryx_hurd.Fd.{hfd}
use oryx_hurd.Process.{linux_efault}
use oryx_hurd.Process.Quiet.{Quiet, option-Quiet}
use oryx_hurd.Syscall.Files.{OpenFlags, sys_lseek}
use oryx_hurd.Syscall.Mem.{do_mmap, munmap, mprotect}
use oryx_hurd.Syscall.Io.{word_at}
use oryx_hurd.Syscall.Io.Keeps.{
  sys_read-holds, sys_write-holds, sys_writev-holds, readv_loop-holds, sys_nanosleep-holds,
}
use oryx_hurd.Syscall.Calm.{
  sys_close-Quiet, sys_dup-Quiet, sys_dup2-Quiet, sys_pipe-Quiet, sys_llseek-Quiet, sys_fcntl-Quiet,
  sys_open-Quiet, path_call-Quiet, sys_rename-Quiet, sys_access-Quiet, sys_readlink-Quiet,
  sys_readlinkat-Quiet, sys_getcwd-Quiet,
}
use oryx_hurd.Syscall.Calm.Memory.{
  sys_brk-Quiet, do_mmap-Quiet, sys_uname-Quiet, sys_time-Quiet, sys_gettimeofday-Quiet,
  sys_clock_gettime-Quiet, sys_clock_gettime64-Quiet, sys_ugetrlimit-Quiet, sys_getrandom-Quiet,
  sys_ioctl-Quiet, sys_set_thread_area-Quiet,
}
use oryx_hurd.Syscall.Calm.Stat.{
  sys_stat64-Quiet, sys_fstat64-Quiet, sys_fstatat64-Quiet, sys_statx-Quiet, sys_getdents64-Quiet,
}
use oryx_hurd.Dispatch.{Args, run, sys_old_mmap}
use oryx_hurd.Dispatch.Number.{
  Call, exit, fork, clone, execve, waitpid, read, write, writev, readv, open_path, openat, close,
  getdents64, statx, clock_gettime64, fstatat64, readlinkat, faccessat, unlink, mkdir, rmdir,
  rename, chmod, chdir, dup, dup2, pipe, nanosleep, access, readlink, getcwd, stat64, fstat64,
  lseek, llseek, brk, old_mmap, mmap2, unmap, protect, uname, getpid, getppid, getuid, getgid,
  geteuid, getegid, time, gettimeofday, clock_gettime, getrandom, ioctl, fcntl64, ugetrlimit,
  ignored, set_thread_area, unimplemented,
}

-- The calls that free the lock around the host's work, and those that change a process's life.
pub data Transfers : Call → Type 0 where
  is_read : Transfers read
  is_write : Transfers write
  is_writev : Transfers writev
  is_readv : Transfers readv
  is_nanosleep : Transfers nanosleep

pub data Changes : Call → Type 0 where
  is_exit : Changes exit
  is_fork : Changes fork
  is_clone : Changes clone
  is_execve : Changes execve
  is_waitpid : Changes waitpid

module _ {K : Type 0} (host : Host K) (names : HostErrno) (flags : OpenFlags)
    (others : Server K → Server K) where
  sys_old_mmap-Quiet :
      (addr : ℕ) (s : Server K) → Quiet s (sys_old_mmap host names flags others addr s).1
  unfolding sys_old_mmap
  sys_old_mmap-Quiet addr s =
      option-Quiet s (peek host (me s).task addr 24 s.kernel) (neg linux_efault, s)
        (λ m.
          do_mmap host (word_at m 0) (word_at m 4) (word_at m 8) (word_at m 12)
            (hfd (me s) (word_at m 16)) (word_at m 20) s)
        (λ j. refl) (λ m. do_mmap-Quiet host _ _ _ _ _ _ s)

  -- Every other call is quiet.
  pub run-kinds :
      (st : Regs) (a : Args) (c : Call) (s : Server K)
      → Quiet s (run host names flags others st a c s).1 ⊎ (Transfers c ⊎ Changes c)
  unfolding run sys_lseek munmap mprotect
  run-kinds st a read s = inr (inl is_read)
  run-kinds st a write s = inr (inl is_write)
  run-kinds st a writev s = inr (inl is_writev)
  run-kinds st a readv s = inr (inl is_readv)
  run-kinds st a nanosleep s = inr (inl is_nanosleep)
  run-kinds st a exit s = inr (inr is_exit)
  run-kinds st a fork s = inr (inr is_fork)
  run-kinds st a clone s = inr (inr is_clone)
  run-kinds st a execve s = inr (inr is_execve)
  run-kinds st a waitpid s = inr (inr is_waitpid)
  run-kinds st a open_path s = inl (sys_open-Quiet host names flags a.a1 a.a2 a.a3 s)
  run-kinds st a openat s = inl (sys_open-Quiet host names flags a.a2 a.a3 a.a4 s)
  run-kinds st a close s = inl (sys_close-Quiet host names a.a1 (hfd (me s) a.a1) s)
  run-kinds st a getdents64 s = inl (sys_getdents64-Quiet host (hfd (me s) a.a1) a.a2 a.a3 s)
  run-kinds st a statx s = inl (sys_statx-Quiet host names a.a1 a.a2 a.a3 a.a5 s)
  run-kinds st a clock_gettime64 s = inl (sys_clock_gettime64-Quiet host a.a2 s)
  run-kinds st a fstatat64 s = inl (sys_fstatat64-Quiet host names a.a1 a.a2 a.a3 a.a4 s)
  run-kinds st a readlinkat s = inl (sys_readlinkat-Quiet host names a.a2 a.a3 a.a4 s)
  run-kinds st a faccessat s = inl (sys_access-Quiet host names a.a2 a.a3 s)
  run-kinds st a unlink s = inl (path_call-Quiet host names a.a1 host.unlink s)
  run-kinds st a mkdir s = inl (path_call-Quiet host names a.a1 (λ path. host.mkdir path a.a2) s)
  run-kinds st a rmdir s = inl (path_call-Quiet host names a.a1 host.rmdir s)
  run-kinds st a rename s = inl (sys_rename-Quiet host names a.a1 a.a2 s)
  run-kinds st a chmod s = inl (path_call-Quiet host names a.a1 (λ path. host.chmod path a.a2) s)
  run-kinds st a chdir s = inl (path_call-Quiet host names a.a1 host.chdir s)
  run-kinds st a dup s = inl (sys_dup-Quiet host names (hfd (me s) a.a1) s)
  run-kinds st a dup2 s = inl (sys_dup2-Quiet host names a.nr a.a1 a.a2 a.a3 (hfd (me s) a.a1) s)
  run-kinds st a pipe s = inl (sys_pipe-Quiet host names a.nr a.a1 a.a2 s)
  run-kinds st a access s = inl (sys_access-Quiet host names a.a1 a.a2 s)
  run-kinds st a readlink s = inl (sys_readlink-Quiet host names a.a1 a.a2 a.a3 s)
  run-kinds st a getcwd s = inl (sys_getcwd-Quiet host names a.a1 a.a2 s)
  run-kinds st a stat64 s = inl (sys_stat64-Quiet host names a.nr a.a1 a.a2 s)
  run-kinds st a fstat64 s = inl (sys_fstat64-Quiet host names a.a1 a.a2 s)
  run-kinds st a lseek s = inl (λ j. refl)
  run-kinds st a llseek s =
      inl (sys_llseek-Quiet host names (hfd (me s) a.a1) a.a2 a.a3 a.a4 a.a5 s)
  run-kinds st a brk s = inl (sys_brk-Quiet host a.a1 s)
  run-kinds st a old_mmap s = inl (sys_old_mmap-Quiet a.a1 s)
  run-kinds st a mmap2 s =
      inl (do_mmap-Quiet host a.a1 a.a2 a.a3 a.a4 (hfd (me s) a.a5) (a.ebp * 4096) s)
  run-kinds st a unmap s = inl (λ j. refl)
  run-kinds st a protect s = inl (λ j. refl)
  run-kinds st a uname s = inl (sys_uname-Quiet host a.a1 s)
  run-kinds st a time s = inl (sys_time-Quiet host a.a1 s)
  run-kinds st a gettimeofday s = inl (sys_gettimeofday-Quiet host a.a1 s)
  run-kinds st a clock_gettime s = inl (sys_clock_gettime-Quiet host a.a2 s)
  run-kinds st a getrandom s = inl (sys_getrandom-Quiet host a.a1 a.a2 s)
  run-kinds st a ioctl s = inl (sys_ioctl-Quiet host names a.a1 a.a2 a.a3 s)
  run-kinds st a fcntl64 s = inl (sys_fcntl-Quiet host names (hfd (me s) a.a1) a.a2 a.a3 s)
  run-kinds st a ugetrlimit s = inl (sys_ugetrlimit-Quiet host a.a2 s)
  run-kinds st a set_thread_area s = inl (sys_set_thread_area-Quiet host a.a1 s)
  run-kinds st a getpid s = inl (λ j. refl)
  run-kinds st a getppid s = inl (λ j. refl)
  run-kinds st a getuid s = inl (λ j. refl)
  run-kinds st a getgid s = inl (λ j. refl)
  run-kinds st a geteuid s = inl (λ j. refl)
  run-kinds st a getegid s = inl (λ j. refl)
  run-kinds st a ignored s = inl (λ j. refl)
  run-kinds st a unimplemented s = inl (λ j. refl)

  -- A transfer keeps what survives a change of the kernel and the time while the lock is free.
  pub run-holds :
      (P : Server K → Type 0)
      → ((s : Server K) (k : K) → P s → P (record s { kernel = k }))
      → ((A : Type 0) (f : St K A) (s : Server K) → P s → P (unlocked others f s).1)
      → (st : Regs) (a : Args) (c : Call) (s : Server K) → Transfers c
      → P s
      → P (run host names flags others st a c s).1
  unfolding run
  run-holds P quiet_kernel through st a _ s is_read h =
      sys_read-holds others P quiet_kernel through host names (hfd (me s) a.a1) a.a2 a.a3 s h
  run-holds P quiet_kernel through st a _ s is_write h =
      sys_write-holds others P quiet_kernel through host names (hfd (me s) a.a1) a.a2 a.a3 s h
  run-holds P quiet_kernel through st a _ s is_writev h =
      sys_writev-holds others P quiet_kernel through host names (hfd (me s) a.a1) a.a2 a.a3 s h
  run-holds P quiet_kernel through st a _ s is_readv h =
      readv_loop-holds others P quiet_kernel through host names a.a1 a.a2 a.a3 0 0 s h
  run-holds P quiet_kernel through st a _ s is_nanosleep h =
      sys_nanosleep-holds others P quiet_kernel through host names a.a1 s h
