-- ===== src/Dispatch/Owed.antt =====
-- linux-personality/oryxlinux.c: execve, fork and exit leave the reply to serve, and wait4 may
-- withhold it.
use oryx_hurd.Base.{
  ℕ, ◌%◌, ◌≡◌, refl, ◌∙◌, ap, Bool, true, false, Option, none, some, ℤ, List, pos, neg, ◌==◌,
  if◌then◌else◌, arith,
}
use oryx_hurd.Host.{Host, Regs, Outcome, ok, fail}
use oryx_hurd.Server.{Server, me, lift, set_proc}
use oryx_hurd.Errno.{HostErrno}
use oryx_hurd.Process.Fork.{sys_fork}
use oryx_hurd.Process.{linux_efault}
use oryx_hurd.Process.History.Root.{sys_fork-globals, proc_exited-globals}
use oryx_hurd.Process.Quiet.{Quiet}
use oryx_hurd.Process.Wait.{
  wait_found, wait_dead, collect_if, parked_as, Scan, dead_child, children,
}
use oryx_hurd.Process.Exit.{proc_exited}
use oryx_hurd.Process.Exec.{
  sys_execve, exec_checked, exec_vectors, exec_replace, exec_loaded, peek_vector,
  wipe_address_space,
}
use oryx_hurd.Process.Exec.Sound.{load_program-Quiet}
use oryx_hurd.Loader.{load_program}
use oryx_hurd.Syscall.Files.{OpenFlags, with_path, path_arg, resolve}
use oryx_hurd.Syscall.Io.Keeps.{option-holds}
use oryx_hurd.Syscall.Io.Sound.{IsOwed}
use oryx_hurd.Dispatch.Number.{Call, waitpid}

-- The caller is parked in wait4, which is to answer the message later.
abbrev pub Parked : {K : Type 0} → (reply cur : ℕ) → Server K → Type 0
Parked reply cur t = ((t.procs cur).waiting ≡ true) × ((t.procs cur).wait_reply ≡ reply)

-- The message is answered now, or it was a wait4 that has parked the caller.
pub data IsAnswered {K : Type 0} (c : Call) (reply cur : ℕ) (t : Server K) : Type 0 where
  now : IsOwed t → IsAnswered c reply cur t
  later : c ≡ waitpid → Parked reply cur t → IsAnswered c reply cur t

module _ {K : Type 0} where
  Quiet-IsOwed : (s t : Server K) → Quiet s t → IsOwed s → IsOwed t
  Quiet-IsOwed s t quiet owed = ap (λ k. k.defer_reply) (quiet 0) ∙ owed

  pub Quiet-IsAnswered :
      {c : Call} {reply cur : ℕ} (s t : Server K) → Quiet s t → IsOwed s → IsAnswered c reply cur t
  Quiet-IsAnswered s t quiet owed = now (Quiet-IsOwed s t quiet owed)

module _ {K : Type 0} (host : Host K) where
  exec_loaded-IsOwed :
      (image : Option (ℕ × ℕ)) (s : Server K) → IsOwed s → IsOwed (exec_loaded host image s).1
  unfolding exec_loaded
  exec_loaded-IsOwed none s owed = owed
  exec_loaded-IsOwed (some (entry, esp)) s owed = owed

  exec_vectors-IsOwed :
      (o : OpenFlags) (path : List ℕ) (av ev : Option (List (List ℕ))) (s : Server K)
      → IsOwed s
      → IsOwed (exec_vectors host o path av ev s).1
  unfolding exec_vectors exec_replace
  exec_vectors-IsOwed o path none ev s owed = owed
  exec_vectors-IsOwed o path (some av) none s owed = owed
  exec_vectors-IsOwed o path (some av) (some ev) s owed =
      let t = (lift (wipe_address_space host (me s).task) s).1 in
      let r = load_program host o path av ev t in
      exec_loaded-IsOwed r.0 r.1 (Quiet-IsOwed t r.1 (load_program-Quiet host o path av ev t) owed)

  exec_checked-IsOwed :
      (names : HostErrno) (o : OpenFlags) (path : List ℕ) (argvp envp : ℕ) (r : Outcome (Unit {0}))
      (s : Server K)
      → IsOwed s
      → IsOwed (exec_checked host names o path argvp envp r s).1
  unfolding exec_checked
  exec_checked-IsOwed names o path argvp envp (fail e) s owed = owed
  exec_checked-IsOwed names o path argvp envp (ok tt) s owed =
      let av = lift (peek_vector host (me s).task argvp) s in
      let ev = lift (peek_vector host (me s).task envp) av.1 in
      exec_vectors-IsOwed o path av.0 ev.0 ev.1 owed

  pub sys_execve-IsOwed :
      (names : HostErrno) (o : OpenFlags) (pathp argvp envp : ℕ) (s : Server K)
      → IsOwed s
      → IsOwed (sys_execve host names o pathp argvp envp s).1
  unfolding sys_execve with_path
  sys_execve-IsOwed names o pathp argvp envp s owed =
      option-holds IsOwed (path_arg host (me s).task pathp s.kernel) (neg linux_efault, s) run owed
        (λ path. exec_checked-IsOwed names o _ argvp envp _ s owed)
    where
      run : List ℕ → ℤ × Server K
      run path =
          exec_checked host names o (resolve host s.sysroot path s.kernel) argvp envp
            (host.access (resolve host s.sysroot path s.kernel) 1 s.kernel) s

  collect_if-IsOwed :
      (written : Bool) (d : ℕ) (s : Server K) → IsOwed s → IsOwed (collect_if written d s).1
  unfolding collect_if
  collect_if-IsOwed true d s owed = owed
  collect_if-IsOwed false d s owed = owed

  pub wait_found-IsAnswered :
      (pid : ℤ) (status_addr options : ℕ) (o : Scan) (s : Server K)
      → IsOwed s
      → IsAnswered waitpid s.cur_reply s.cur (wait_found host pid status_addr options o s).1
  unfolding wait_found wait_dead
  wait_found-IsAnswered pid status_addr options (dead_child d) s owed =
      now (collect_if-IsOwed _ d _ owed)
  wait_found-IsAnswered pid status_addr options (children false) s owed = now owed
  wait_found-IsAnswered pid status_addr options (children true) s owed =
      by_option (options % 2 == 1)
    where
      parks : Server K
      parks = record (set_proc s.cur (parked_as pid s.cur_reply status_addr) s).1 {
        defer_reply = true;
      }

      returns : Bool → ℤ × Server K
      returns b = if b then (pos 0, s) else (pos 0, parks)

      by_option : (b : Bool) → IsAnswered waitpid s.cur_reply s.cur (returns b).1
      by_option true = now owed
      by_option false = later refl (ground arith, ground arith)

  pub fork-IsOwed : (st : Regs) (s : Server K) → IsOwed s → IsOwed (sys_fork host st s).1
  fork-IsOwed st s owed = ap (λ g. g.2) (sys_fork-globals host st s) ∙ owed

  pub exit-IsOwed :
      (p status : ℕ) (s : Server K) → IsOwed s → IsOwed (proc_exited host p status s).1
  exit-IsOwed p status s owed = ap (λ g. g.2) (proc_exited-globals host p status s) ∙ owed
