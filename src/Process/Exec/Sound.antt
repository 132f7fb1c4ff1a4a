-- ===== src/Process/Exec/Sound.antt =====
-- linux-personality/oryxlinux.c: what execve leaves of the process table.
use oryx_hurd.Base.{
  ℕ, ◌≡◌, refl, ◌∙◌, inl, inr, ◌⊎◌, false, Option, none, some, List, [], ◌∷◌, ℤ, neg, arith,
}
use oryx_hurd.Host.{Host, Outcome, ok, fail}
use oryx_hurd.Server.{Server, me, lift, set_proc}
use oryx_hurd.Errno.{HostErrno}
use oryx_hurd.Process.{linux_efault}
use oryx_hurd.Process.History.{IsSound}
use oryx_hurd.Process.Quiet.{Quiet, Quiet-IsSound}
use oryx_hurd.Process.Exec.{
  sys_execve, exec_checked, exec_vectors, exec_replace, exec_loaded, peek_vector,
  wipe_address_space,
}
use oryx_hurd.Stack.{Loaded}
use oryx_hurd.Syscall.Files.{OpenFlags, with_path, path_arg, resolve}
use oryx_hurd.Loader.{
  load_program, with_program, load_interp, with_interp, start_program, load_one, pie_base,
  interp_base, set_break,
}

-- The image of the process that runs could not be loaded: it is dead without an exit.
abbrev pub ImageLost : {K : Type 0} → Server K → Type 0
ImageLost t = ((me t).alive ≡ false) × ((me t).status ≡ 127)

module _ {K : Type 0} (host : Host K) where
  start_program-Quiet :
      (argv envp : List (List ℕ)) (ld : Loaded) (start : ℕ) (s : Server K)
      → Quiet s (start_program host argv envp ld start s).1
  unfolding start_program
  start_program-Quiet argv envp ld start s j = refl

  with_interp-Quiet :
      (argv envp : List (List ℕ)) (ld : Loaded) (o : Option Loaded) (s : Server K)
      → Quiet s (with_interp host argv envp ld o s).1
  unfolding with_interp start_program
  with_interp-Quiet argv envp ld none s j = refl
  with_interp-Quiet argv envp ld (some interp) s j = ground arith

  load_interp-Quiet :
      (o : OpenFlags) (argv envp : List (List ℕ)) (ld : Loaded) (text : List ℕ) (s : Server K)
      → Quiet s (load_interp host o argv envp ld text s).1
  unfolding load_interp
  load_interp-Quiet o argv envp ld [] s = start_program-Quiet argv envp ld ld.entry s
  load_interp-Quiet o argv envp ld (c ∷ rest) s =
      let r =
        lift (λ k. load_one host o (me s).task (resolve host s.sysroot (c ∷ rest) k) interp_base k)
          s in
      with_interp-Quiet argv envp ld r.0 r.1

  with_program-Quiet :
      (o : OpenFlags) (argv envp : List (List ℕ)) (l : Option Loaded) (s : Server K)
      → Quiet s (with_program host o argv envp l s).1
  unfolding with_program
  with_program-Quiet o argv envp none s = λ j. refl
  with_program-Quiet o argv envp (some ld) s =
      let t = (set_proc s.cur (set_break ld.brk) s).1 in
      λ j. load_interp-Quiet o argv envp ld ld.interp t j ∙ ground arith

  pub load_program-Quiet :
      (o : OpenFlags) (path : List ℕ) (argv envp : List (List ℕ)) (s : Server K)
      → Quiet s (load_program host o path argv envp s).1
  unfolding load_program
  load_program-Quiet o path argv envp s =
      let r = lift (load_one host o (me s).task path pie_base) s in
      with_program-Quiet o argv envp r.0 r.1

  exec_loaded-outcome :
      (image : Option (ℕ × ℕ)) (s : Server K)
      → IsSound s
      → let t = (exec_loaded host image s).1 in IsSound t ⊎ ImageLost t
  unfolding exec_loaded
  exec_loaded-outcome none s sound = inr (ground arith, ground arith)
  exec_loaded-outcome (some (entry, esp)) s sound = inl (Quiet-IsSound s _ (λ j. refl) sound)

  exec_replace-outcome :
      (o : OpenFlags) (path : List ℕ) (argv envp : List (List ℕ)) (s : Server K)
      → IsSound s
      → let t = (exec_replace host o path argv envp s).1 in IsSound t ⊎ ImageLost t
  unfolding exec_replace
  exec_replace-outcome o path argv envp s sound =
      let t = (lift (wipe_address_space host (me s).task) s).1 in
      let r = load_program host o path argv envp t in
      exec_loaded-outcome r.0 r.1 (
        Quiet-IsSound t r.1 (load_program-Quiet o path argv envp t)
          (Quiet-IsSound s t (λ j. refl) sound))

  exec_vectors-outcome :
      (o : OpenFlags) (path : List ℕ) (av ev : Option (List (List ℕ))) (s : Server K)
      → IsSound s
      → let t = (exec_vectors host o path av ev s).1 in IsSound t ⊎ ImageLost t
  unfolding exec_vectors
  exec_vectors-outcome o path none ev s sound = inl sound
  exec_vectors-outcome o path (some av) none s sound = inl sound
  exec_vectors-outcome o path (some av) (some ev) s sound =
      exec_replace-outcome o path av ev s sound

  exec_checked-outcome :
      (names : HostErrno) (o : OpenFlags) (path : List ℕ) (argvp envp : ℕ) (r : Outcome (Unit {0}))
      (s : Server K)
      → IsSound s
      → let t = (exec_checked host names o path argvp envp r s).1 in IsSound t ⊎ ImageLost t
  unfolding exec_checked
  exec_checked-outcome names o path argvp envp (fail e) s sound = inl sound
  exec_checked-outcome names o path argvp envp (ok tt) s sound =
      let av = lift (peek_vector host (me s).task argvp) s in
      let ev = lift (peek_vector host (me s).task envp) av.1 in
      exec_vectors-outcome o path av.0 ev.0 ev.1 (Quiet-IsSound s ev.1 (λ j. refl) sound)

  -- execve keeps the server sound, or has lost the image of the process that called it.
  pub sys_execve-outcome :
      (names : HostErrno) (o : OpenFlags) (pathp argvp envp : ℕ) (s : Server K)
      → IsSound s
      → let t = (sys_execve host names o pathp argvp envp s).1 in IsSound t ⊎ ImageLost t
  unfolding sys_execve with_path
  sys_execve-outcome names o pathp argvp envp s sound =
      by_path (path_arg host (me s).task pathp s.kernel)
    where
      run : List ℕ → ℤ × Server K
      run path =
          exec_checked host names o (resolve host s.sysroot path s.kernel) argvp envp
            (host.access (resolve host s.sysroot path s.kernel) 1 s.kernel) s

      by_path :
          (p : Option (List ℕ))
          → let t =
              (elim p as (λ _. ℤ × Server K) [
                | none ↦ (neg linux_efault, s)
                | some path ↦ run path
              ]).1 in
            IsSound t ⊎ ImageLost t
      by_path none = inl sound
      by_path (some path) = exec_checked-outcome names o _ argvp envp _ s sound
