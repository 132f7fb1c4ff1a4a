-- ===== src/Dispatch/Late.antt =====
-- linux-personality/oryxlinux.c: an execve that fails behind its point of no return, and the fault
-- that the thread of the lost image raises next.
use oryx_hurd.Base.{
  ℕ, ◌<◌, ◌≡◌, ◌≢◌, ◌∙◌, sym, ap, subst, inl, inr, ◌⊎◌, true, false, none, List, ℤ, ◌==◌, arith,
}
use oryx_hurd.Host.{Host, Regs}
use oryx_hurd.Server.{Server, max_proc, me, lift}
use oryx_hurd.Errno.{HostErrno}
use oryx_hurd.Process.View.{slot_of, table, free, running, parked, zombie, accepts, lost}
use oryx_hurd.Process.Invariant.{pid_of}
use oryx_hurd.Process.Tidy.{IsTidy}
use oryx_hurd.Process.History.{IsSound}
use oryx_hurd.Process.Exit.{proc_exited}
use oryx_hurd.Process.Exit.Steps.{Zombie, Released, proc_exited-Unparked}
use oryx_hurd.Process.Exec.{exec_loaded, exec_replace, wipe_address_space}
use oryx_hurd.Process.Exec.Sound.{load_program-Quiet}
use oryx_hurd.Process.Quiet.{Quiet, Quiet-IsSound, slot_of_sketch}
use oryx_hurd.Loader.{load_program}
use oryx_hurd.Syscall.Files.{OpenFlags}
use oryx_hurd.Dispatch.{handle_trap, exc_bad_instruction}

-- The process of slot `p` has ended and its parent, in slot `q`, runs.
abbrev pub Woken : {K : Type 0} → (p q ppid grand : ℕ) → Server K → Type 0
Woken p q ppid grand t = (slot_of (t.procs p) ≡ free) × (slot_of (t.procs q) ≡ running ppid grand)

-- The process of slot `p` is dead with status 127, and its parent, in slot `q`, is still parked for it.
abbrev pub StillParked : {K : Type 0} → (p q pid ppid grand : ℕ) → (target : ℤ) → Server K → Type 0
StillParked p q pid ppid grand target t =
    (slot_of (t.procs p) ≡ zombie pid ppid 127)
    × (slot_of (t.procs q) ≡ parked ppid grand target)
    × (lost (slot_of (t.procs q)) (slot_of (t.procs p)) ≡ true)

module _ {K : Type 0} (host : Host K) (s : Server K) (q pid ppid grand : ℕ) (target : ℤ) where
  exec_loaded-StillParked :
      slot_of (me s) ≡ running pid ppid
      → slot_of (s.procs q) ≡ parked ppid grand target
      → accepts target pid ≡ true
      → StillParked s.cur q pid ppid grand target (exec_loaded host none s).1
  unfolding exec_loaded
  exec_loaded-StillParked own up fits = (ground arith, ground arith, ground arith)

  exec_loaded-IsTidy :
      slot_of (me s) ≡ running pid ppid → IsTidy s → IsTidy (exec_loaded host none s).1
  unfolding exec_loaded
  exec_loaded-IsTidy own tidy = record {
    waits = λ j u v. ground (arith, tidy.waits j);
    kept = λ j u. ground (arith, tidy.kept j);
  }

  -- The parent that an exit releases is the one that is parked.
  fault-Woken :
      IsSound s
      → slot_of (me s) ≡ running pid ppid
      → slot_of (s.procs q) ≡ parked ppid grand target
      → accepts target pid ≡ true
      → q < max_proc
      → s.cur ≢ s.root
      → let t = (exec_loaded host none s).1 in
        Woken s.cur q ppid grand (proc_exited host s.cur 139 t).1
  unfolding exec_loaded
  fault-Woken sound own up fits small ne = by_end (proc_exited host s.cur 139 t).1 (
      proc_exited-Unparked host s.cur 139 t pid ppid
        (ground arith, ground arith, ground arith, ground arith) (exec_loaded-IsTidy own sound.tidy)
        ne)
    where
      t : Server K
      t = (exec_loaded host none s).1

      others_stay : (j : ℕ) → s.cur ≢ j → slot_of (t.procs j) ≡ slot_of (s.procs j)
      others_stay j other = ground arith

      by_end :
          (u : Server K)
          → Zombie (table t) s.cur pid ppid 139 (table u)
            ⊎ Released (table t) s.cur pid ppid (table u)
          → Woken s.cur q ppid grand u
      by_end u (inl (alone, sets)) = absurd (ground (arith, alone q small, others_stay q))
      by_end u (inr (q2, grand2, target2, parks, ok, slots)) =
          let there : s.cur ≢ q2 = λ e. ground arith in
          let before : slot_of (s.procs q2) ≡ parked ppid grand2 target2 =
            sym (others_stay q2 there) ∙ parks in
          let same : q ≡ q2 = sound.inv.distinct q q2 ppid (ap pid_of up) (ap pid_of before) in
          let grand_same : grand2 ≡ grand = ground arith in
          (ground (arith, slots s.cur), ground (arith, slots q, same, grand_same))

module _ {K : Type 0} (host : Host K) (q pid ppid grand : ℕ) (target : ℤ) where
  -- `r` is the state in which load_program has failed.
  lost-Woken :
      (s r : Server K)
      → Quiet s r
      → IsSound s
      → slot_of (me s) ≡ running pid ppid
      → slot_of (s.procs q) ≡ parked ppid grand target
      → accepts target pid ≡ true
      → q < max_proc
      → s.cur ≢ s.root
      → let t = (exec_loaded host none r).1 in
        StillParked s.cur q pid ppid grand target t
        × Woken s.cur q ppid grand (proc_exited host r.cur 139 t).1
  lost-Woken s r quiet sound own up fits small ne =
      let t = (exec_loaded host none r).1 in
      subst
        (λ c.
          StillParked c q pid ppid grand target t
          × Woken c q ppid grand (proc_exited host r.cur 139 t).1)
        same_cur
        (
          exec_loaded-StillParked host r q pid ppid grand target mine (slots q ∙ up) fits,
          fault-Woken host r q pid ppid grand target (Quiet-IsSound s r quiet sound) mine
              (slots q ∙ up) fits small other,
        )
    where
      same_cur : r.cur ≡ s.cur
      same_cur = ap (λ k. k.cur) (quiet 0)

      same_root : r.root ≡ s.root
      same_root = ap (λ k. k.root) (quiet 0)

      other : r.cur ≢ r.root
      other e = ne (sym same_cur ∙ (e ∙ same_root))

      slots : (j : ℕ) → slot_of (r.procs j) ≡ slot_of (s.procs j)
      slots j = ap (λ k. slot_of_sketch k) (quiet j)

      mine : slot_of (me r) ≡ running pid ppid
      mine = ap (λ c. slot_of (r.procs c)) same_cur ∙ (slots s.cur ∙ own)

  -- An execve of a process other than the root whose parent is parked for it, and whose new image
  -- cannot be loaded, leaves the process dead with status 127 and the parent parked. The next fault
  -- of the thread, if it is no bad instruction and nothing comes between, ends the process: its slot
  -- is free, and the parent runs.
  pub exec_delays_wakeup :
      (names : HostErrno) (flags : OpenFlags) (others : Server K → Server K) (path : List ℕ)
      (argv envp : List (List ℕ)) (thread exception : ℕ) (st : Regs) (s : Server K)
      → IsSound s
      → slot_of (me s) ≡ running pid ppid
      → slot_of (s.procs q) ≡ parked ppid grand target
      → accepts target pid ≡ true
      → q < max_proc
      → s.cur ≢ s.root
      → (load_program host flags path argv envp (lift (wipe_address_space host (me s).task) s).1).0
        ≡ none
      → exception ≢ exc_bad_instruction
      → let t = (exec_replace host flags path argv envp s).1 in
        StillParked s.cur q pid ppid grand target t
        × Woken s.cur q ppid grand (handle_trap host names flags others thread exception st t).1
  unfolding exec_replace handle_trap exec_loaded load_program
  exec_delays_wakeup names flags others path argv envp thread exception st s sound own up fits small
        ne failed fault =
      let w = (lift (wipe_address_space host (me s).task) s).1 in
      let r = load_program host flags path argv envp w in
      let quiet = load_program-Quiet host flags path argv envp w in
      rw (failed, no_call, exec_replace, handle_trap)
        (lost-Woken s r.1 quiet sound own up fits small ne)
    where
      no_call : (exception == exc_bad_instruction) ≡ false
      no_call = ground arith
