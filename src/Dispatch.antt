-- ===== src/Dispatch.antt =====
-- linux-personality/oryxlinux.c: dispatch and the exception handler. The lock is held throughout,
-- but for the calls that release it around the host's work.
pub mod Number
pub mod Kinds
pub mod Calls
pub mod Sound
pub mod Owed
pub mod Replies
pub mod Served
pub mod Late
use oryx_hurd.Base.{
  ℕ, ◌+◌, ◌*◌, ◌%◌, ◌^◌, Bool, true, false, not, ◌&&◌, ◌||◌, Option, none, some, List, [], ◌∷◌, ℤ,
  pos, neg, to_int32, to_word, ◌==ℤ◌, bit, St, pure, ◌>>=◌, ◌>>◌, ◌==◌, if◌then◌else◌, get_or,
}
use oryx_hurd.Host.{Host, Regs}
use oryx_hurd.Server.{Server, me, lift, set_proc, long_min}
use oryx_hurd.Memory.{peek}
use oryx_hurd.Fd.{hfd}
use oryx_hurd.Errno.{HostErrno}
use oryx_hurd.Process.{proc_by_task, linux_efault}
use oryx_hurd.Process.Exit.{proc_exited}
use oryx_hurd.Process.Wait.{sys_wait4}
use oryx_hurd.Process.Fork.{sys_fork}
use oryx_hurd.Process.Exec.{sys_execve}
use oryx_hurd.Syscall.Io.{sys_read, sys_write, sys_writev, readv_loop, word_at}
use oryx_hurd.Syscall.Mem.{sys_brk, do_mmap, munmap, mprotect}
use oryx_hurd.Syscall.Files.{
  OpenFlags, sys_close, sys_dup, sys_dup2, sys_pipe, sys_lseek, sys_llseek, sys_fcntl,
}
use oryx_hurd.Syscall.Paths.{
  sys_open, path_call, sys_rename, sys_access, sys_readlink, sys_readlinkat, sys_getcwd,
}
use oryx_hurd.Syscall.Stat.{linux_enosys, sys_stat64, sys_fstat64, sys_fstatat64, sys_statx}
use oryx_hurd.Syscall.Dirs.{sys_getdents64}
use oryx_hurd.Syscall.Tls.{sys_set_thread_area}
use oryx_hurd.Syscall.Clock.{
  sys_uname, sys_time, sys_gettimeofday, sys_clock_gettime, sys_clock_gettime64, sys_nanosleep,
  sys_getrandom, sys_ioctl, sys_ugetrlimit,
}
use oryx_hurd.Dispatch.Number.{
  Call, call_of, exit, fork, clone, execve, waitpid, read, write, writev, readv, open_path, openat,
  close, getdents64, statx, clock_gettime64, fstatat64, readlinkat, faccessat, unlink, mkdir, rmdir,
  rename, chmod, chdir, dup, dup2, pipe, nanosleep, access, readlink, getcwd, stat64, fstat64,
  lseek, llseek, brk, old_mmap, mmap2, unmap, protect, uname, getpid, getppid, getuid, getgid,
  geteuid, getegid, time, gettimeofday, clock_gettime, getrandom, ioctl, fcntl64, ugetrlimit,
  ignored, set_thread_area, unimplemented,
}

-- st->eax and the five argument registers; ebp carries mmap2's offset.
pub record Args : Type 0 where
  pub nr : ℕ
  pub a1 : ℕ
  pub a2 : ℕ
  pub a3 : ℕ
  pub a4 : ℕ
  pub a5 : ℕ
  pub ebp : ℕ

abbrev pub args_of : Regs → Args
args_of st = record {
  nr = st.eax;
  a1 = st.ebx;
  a2 = st.ecx;
  a3 = st.edx;
  a4 = st.esi;
  a5 = st.edi;
  ebp = st.ebp;
}

-- EXC_BAD_INSTRUCTION
abbrev pub exc_bad_instruction : ℕ
exc_bad_instruction = 2

-- The two bytes at eip, zero if they cannot be read.
abbrev pub insn_of : Option (List ℕ) → List ℕ
insn_of none = 0 ∷ 0 ∷ []
insn_of (some bytes) = bytes

-- int $0x80
abbrev pub is_int80 : List ℕ → Bool
is_int80 insn = (get_or insn 0 0 == 0xcd) && (get_or insn 1 0 == 0x80)

-- The registers behind the system call.
abbrev pub return_regs : ℤ → Regs → Regs
return_regs ret st = record st { eax = to_word ret; eip = (st.eip + 2) % 2 ^ 32 }

module _ {K : Type 0} (host : Host K) (names : HostErrno) (flags : OpenFlags)
    (others : Server K → Server K) where
  -- Case 90: the six arguments stand in the guest's memory.
  unfoldable pub sys_old_mmap : ℕ → St (Server K) ℤ
  sys_old_mmap addr s = elim (peek host (me s).task addr 24 s.kernel) [
    | none ↦ (neg linux_efault, s)
    | some m ↦
        do_mmap host (word_at m 0) (word_at m 4) (word_at m 8) (word_at m 12)
          (hfd (me s) (word_at m 16)) (word_at m 20) s
  ]

  unfoldable pub run : Regs → Args → Call → St (Server K) ℤ
  run st a exit s = (do proc_exited host s.cur (a.a1 % 256); pure long_min) s
  run st a fork s = sys_fork host st s
  run st a clone s = if bit a.a1 8 then (neg linux_enosys, s) else sys_fork host st s
  run st a execve s = sys_execve host names flags a.a1 a.a2 a.a3 s
  run st a waitpid s = sys_wait4 host (to_int32 a.a1) a.a2 a.a3 s
  run st a read s = sys_read host names others (hfd (me s) a.a1) a.a2 a.a3 s
  run st a write s = sys_write host names others (hfd (me s) a.a1) a.a2 a.a3 s
  run st a writev s = sys_writev host names others (hfd (me s) a.a1) a.a2 a.a3 s
  run st a readv s = readv_loop host names others a.a1 a.a2 a.a3 0 0 s
  run st a open_path s = sys_open host names flags a.a1 a.a2 a.a3 s
  run st a openat s = sys_open host names flags a.a2 a.a3 a.a4 s
  run st a close s = sys_close host names a.a1 (hfd (me s) a.a1) s
  run st a getdents64 s = sys_getdents64 host (hfd (me s) a.a1) a.a2 a.a3 s
  run st a statx s = sys_statx host names a.a1 a.a2 a.a3 a.a5 s
  run st a clock_gettime64 s = sys_clock_gettime64 host a.a2 s
  run st a fstatat64 s = sys_fstatat64 host names a.a1 a.a2 a.a3 a.a4 s
  run st a readlinkat s = sys_readlinkat host names a.a2 a.a3 a.a4 s
  run st a faccessat s = sys_access host names a.a2 a.a3 s
  run st a unlink s = path_call host names a.a1 host.unlink s
  run st a mkdir s = path_call host names a.a1 (λ path. host.mkdir path a.a2) s
  run st a rmdir s = path_call host names a.a1 host.rmdir s
  run st a rename s = sys_rename host names a.a1 a.a2 s
  run st a chmod s = path_call host names a.a1 (λ path. host.chmod path a.a2) s
  run st a chdir s = path_call host names a.a1 host.chdir s
  run st a dup s = sys_dup host names (hfd (me s) a.a1) s
  run st a dup2 s = sys_dup2 host names a.nr a.a1 a.a2 a.a3 (hfd (me s) a.a1) s
  run st a pipe s = sys_pipe host names a.nr a.a1 a.a2 s
  run st a nanosleep s = sys_nanosleep host names others a.a1 s
  run st a access s = sys_access host names a.a1 a.a2 s
  run st a readlink s = sys_readlink host names a.a1 a.a2 a.a3 s
  run st a getcwd s = sys_getcwd host names a.a1 a.a2 s
  run st a stat64 s = sys_stat64 host names a.nr a.a1 a.a2 s
  run st a fstat64 s = sys_fstat64 host names a.a1 a.a2 s
  run st a lseek s = sys_lseek host names (hfd (me s) a.a1) a.a2 a.a3 s
  run st a llseek s = sys_llseek host names (hfd (me s) a.a1) a.a2 a.a3 a.a4 a.a5 s
  run st a brk s = sys_brk host a.a1 s
  run st a old_mmap s = sys_old_mmap a.a1 s
  run st a mmap2 s = do_mmap host a.a1 a.a2 a.a3 a.a4 (hfd (me s) a.a5) (a.ebp * 4096) s
  run st a unmap s = munmap host a.a1 a.a2 s
  run st a protect s = mprotect host a.a1 a.a2 a.a3 s
  run st a uname s = sys_uname host a.a1 s
  run st a getpid s = (pos (me s).pid, s)
  run st a getppid s = (pos (me s).ppid, s)
  run st a getuid s = (to_int32 host.getuid, s)
  run st a getgid s = (to_int32 host.getgid, s)
  run st a geteuid s = (to_int32 host.geteuid, s)
  run st a getegid s = (to_int32 host.getegid, s)
  run st a time s = sys_time host a.a1 s
  run st a gettimeofday s = sys_gettimeofday host a.a1 s
  run st a clock_gettime s = sys_clock_gettime host a.a2 s
  run st a getrandom s = sys_getrandom host a.a1 a.a2 s
  run st a ioctl s = sys_ioctl host names a.a1 a.a2 a.a3 s
  run st a fcntl64 s = sys_fcntl host names (hfd (me s) a.a1) a.a2 a.a3 s
  run st a ugetrlimit s = sys_ugetrlimit host a.a2 s
  run st a ignored s = (pos 0, s)
  run st a set_thread_area s = sys_set_thread_area host a.a1 s
  run st a unimplemented s = (neg linux_enosys, s)

  unfoldable pub dispatch : Regs → St (Server K) ℤ
  dispatch st s =
      run st (args_of st) (call_of st.eax) (record s { syscall_count = s.syscall_count + 1 })

  -- From the result of dispatch on: the registers stay if the call has set them, if wait4 has
  -- parked the caller, or if the caller is dead.
  unfoldable pub answer : (thread : ℕ) → Regs → ℤ → St (Server K) Bool
  answer thread st ret s =
      if (ret ==ℤ long_min) || s.defer_reply || not (me s).alive
      then (true, s)
      else lift (host.thread_set_state thread (return_regs ret st)) s

  -- A trap of a process: a system call, or a fault, which ends it with status 139.
  unfoldable pub handle_trap : (thread exception : ℕ) → Regs → St (Server K) Bool
  handle_trap thread exception st s =
      let insn = insn_of (peek host (me s).task st.eip 2 s.kernel) in
      if not (exception == exc_bad_instruction) || not (is_int80 insn)
      then (do proc_exited host s.cur 139; pure true) s
      else (do ret ← dispatch st; answer thread st ret) s

  -- With the process that trapped: `p` is its slot.
  unfoldable pub handle : (p thread exception : ℕ) → St (Server K) Bool
  handle p thread exception s0 =
      let s = (set_proc p (λ q. record q { thread = thread }) (record s0 { cur = p })).1 in
      elim (host.thread_get_state thread s.kernel) [
        | none ↦ (false, s)
        | some st ↦ handle_trap thread exception st s
      ]

  -- _S_catch_exception_raise; `true` is KERN_SUCCESS.
  unfoldable pub catch_exception_raise : (thread task exception : ℕ) → St (Server K) Bool
  catch_exception_raise thread task exception s = elim (proc_by_task task s) [
    | none ↦ (false, s)
    | some p ↦ handle p thread exception s
  ]

  -- One round of serve, up to the reply: the message names the thread, the task and the exception.
  -- `none` means that the reply is withheld.
  unfoldable pub serve_message :
      (reply thread task exception : ℕ) → St (Server K) (Option (Unit {0}))
  serve_message reply thread task exception s0 =
      let s = record s0 { cur_reply = reply; defer_reply = false } in
      let r = catch_exception_raise thread task exception s in
      if r.1.defer_reply then (none, r.1) else (some tt, (lift (host.send_reply reply) r.1).1)
