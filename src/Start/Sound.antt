-- ===== src/Start/Sound.antt =====
-- linux-personality/oryxlinux.c: the state in which main leaves the server to its workers.
use oryx_hurd.Base.{
  ℕ, ◌≡◌, ◌≢◌, ◌∙◌, ap, refl, inl, inr, ◌⊎◌, Bool, true, false, Option, none, some, List, [], ◌∷◌,
  St, ◌>>=◌, if◌then◌else◌, arith, first_index, first_from,
}
use oryx_hurd.Host.{Host, Regs}
use oryx_hurd.Server.{Server, lift, set_proc}
use oryx_hurd.Fd.{fd_init}
use oryx_hurd.Process.{proc_new, proc_take}
use oryx_hurd.Process.View.{slot_of, free, running}
use oryx_hurd.Process.History.{IsSound}
use oryx_hurd.Process.Quiet.{Quiet, Quiet-IsSound, slot_of_sketch}
use oryx_hurd.Process.Exec.Sound.{load_program-Quiet}
use oryx_hurd.Syscall.Files.{OpenFlags}
use oryx_hurd.Loader.{load_program}
use oryx_hurd.Start.{
  Start, exits, serves, initial, or_exit, start_regs, start_thread, start_image, start_task,
  start_proc, start_guest, main_start, read_options, no_options,
}

-- main has refused, or the workers serve with the processes as they are in `b`.
data Ends {K : Type 0} (b : Server K) (r : Start × Server K) : Type 0 where
  refused : r.0 ≡ exits 1 → Ends b r
  served : r.0 ≡ serves → Quiet b r.1 → Ends b r

-- Only slot 0 is taken, by the process with pid 100, which has no parent.
abbrev pub Sole : {K : Type 0} → Server K → Type 0
Sole s =
    (s.root ≡ 0)
    × (s.cur ≡ 0)
    × (slot_of (s.procs 0) ≡ running 100 0)
    × ((j : ℕ) → j ≢ 0 → slot_of (s.procs j) ≡ free)

-- The ends of main's start, with the arguments that the options leave.
abbrev pub Started : {K : Type 0} → List (List ℕ) → Start × Server K → Type 0
Started args r =
    ((r.0 ≡ exits 2) × (args ≡ [])) ⊎ ((r.0 ≡ exits 1) ⊎ ((r.0 ≡ serves) × IsSound r.1 × Sole r.1))

module _ {K : Type 0} (host : Host K) (b : Server K) where
  or_exit-Ends :
      (call : St K Bool) (rest : St (Server K) Start) (s : Server K)
      → Quiet b s
      → ((t : Server K) → Quiet b t → Ends b (rest t))
      → Ends b (or_exit host call rest s)
  unfolding or_exit
  or_exit-Ends call rest s quiet go = by_result (call s.kernel).0
    where
      t : Server K
      t = (lift call s).1

      by_result : (ok : Bool) → Ends b (if ok then rest t else (exits 1, t))
      by_result false = refused refl
      by_result true = go t quiet

  start_regs-Ends :
      (thread entry esp : ℕ) (o : Option Regs) (s : Server K)
      → Quiet b s
      → Ends b (start_regs host thread entry esp o s)
  unfolding start_regs
  start_regs-Ends thread entry esp none s quiet = refused refl
  start_regs-Ends thread entry esp (some st) s quiet =
      or_exit-Ends _ _ s quiet (λ t still. or_exit-Ends _ _ t still (λ u same. served refl same))

  start_thread-Ends :
      (entry esp : ℕ) (o : Option ℕ) (s : Server K)
      → Quiet b s
      → Ends b (start_thread host entry esp o s)
  unfolding start_thread
  start_thread-Ends entry esp none s quiet = refused refl
  start_thread-Ends entry esp (some thread) s quiet =
      start_regs-Ends thread entry esp _ _ (λ j. ground (arith, quiet j))

  start_image-Ends : (o : Option (ℕ × ℕ)) (s : Server K) → Quiet b s → Ends b (start_image host o s)
  unfolding start_image
  start_image-Ends none s quiet = refused refl
  start_image-Ends (some (entry, esp)) s quiet =
      or_exit-Ends _ _ s quiet (λ t still. start_thread-Ends entry esp _ _ still)

  start_task-Ends :
      (flags : OpenFlags) (path : List ℕ) (argv envp : List (List ℕ)) (o : Option ℕ) (s : Server K)
      → Quiet b s
      → Ends b (start_task host flags path argv envp o s)
  unfolding start_task
  start_task-Ends flags path argv envp none s quiet = refused refl
  start_task-Ends flags path argv envp (some task) s quiet =
      let t = (set_proc s.cur (λ p. record p { task = task }) s).1 in
      let r = load_program host flags path argv envp t in
      start_image-Ends r.0 r.1
        (λ j. load_program-Quiet host flags path argv envp t j ∙ ground (arith, quiet j))

-- The state with the first process in its slot.
abbrev booted : {K : Type 0} → Option (List ℕ) → K → Server K
booted sysroot k = record (proc_take (some 0) (record (initial k) { sysroot = sysroot })).1 {
  cur = 0;
  root = 0;
}

module _ {K : Type 0} (host : Host K) (flags : OpenFlags) where
  -- With the tables as they are when the program starts, and whatever the kernel has done since.
  first_proc-Ends :
      (path : List ℕ) (argv envp : List (List ℕ)) (sysroot : Option (List ℕ)) (k : K)
      → let s = record (initial k) { sysroot = sysroot } in
        Ends (booted sysroot k) ((do slot ← proc_new; start_proc host flags path argv envp slot) s)
  unfolding proc_new proc_take first_index first_from start_proc fd_init
  first_proc-Ends path argv envp sysroot k =
      start_task-Ends host (booted sysroot k) flags path argv envp _ _ (λ j. ground arith)

  booted-IsSound : (sysroot : Option (List ℕ)) (k : K) → IsSound (booted sysroot k)
  unfolding proc_take
  booted-IsSound sysroot k = record {
    inv = record {
      outside = λ i o. ground arith;
      fresh = λ i p e. ground arith;
      younger = λ i p e. ground arith;
      distinct = λ i j p e f. ground arith;
      none_lost = λ i j. ground arith;
    };
    tidy = record { waits = λ j u v. ground arith; kept = λ j u. ground arith };
    rooted = (100, refl, refl);
  }

  Ends-Sole :
      (sysroot : Option (List ℕ)) (k : K) (r : Start × Server K)
      → Ends (booted sysroot k) r
      → (r.0 ≡ exits 1) ⊎ ((r.0 ≡ serves) × IsSound r.1 × Sole r.1)
  unfolding proc_take
  Ends-Sole sysroot k r (refused e) = inl e
  Ends-Sole sysroot k r (served e quiet) = inr (
    e,
    Quiet-IsSound (booted sysroot k) r.1 quiet (booted-IsSound sysroot k),
    (
      ap (λ p. p.root) (quiet 0),
      ap (λ p. p.cur) (quiet 0),
      ap slot_of_sketch (quiet 0),
      (λ j ne. ap slot_of_sketch (quiet j) ∙ ground (arith, ne)),
    ),
  )

  start_guest-Sole :
      (args envp : List (List ℕ)) (sysroot : Option (List ℕ)) (k : K)
      → let r = start_guest host flags args envp (record (initial k) { sysroot = sysroot }) in
        Started args r
  unfolding start_guest or_exit
  start_guest-Sole [] envp sysroot k = inl (refl, refl)
  start_guest-Sole (path ∷ args) envp sysroot k = inr (by_ports allocated.0 inserted.0)
    where
      allocated : Bool × K
      allocated = host.mach_port_allocate k

      inserted : Bool × K
      inserted = host.mach_port_insert_right allocated.1

      after : Server K
      after = record (initial inserted.1) { sysroot = sysroot }

      body : Start × Server K
      body = (do slot ← proc_new; start_proc host flags path (path ∷ args) envp slot) after

      ports : (got put : Bool) → Start × Server K
      ports got put =
          if got
          then (if put then body else (exits 1, after))
          else (exits 1, record (initial allocated.1) { sysroot = sysroot })

      by_ports :
          (got put : Bool)
          → ((ports got put).0 ≡ exits 1)
            ⊎ (((ports got put).0 ≡ serves) × IsSound (ports got put).1 × Sole (ports got put).1)
      by_ports false put = inl refl
      by_ports true false = inl refl
      by_ports true true =
          Ends-Sole sysroot inserted.1 body
            (first_proc-Ends path (path ∷ args) envp sysroot inserted.1)

  pub main_start-Sole :
      (args envp : List (List ℕ)) (k : K)
      → let r = main_start host flags args envp (initial k) in
        Started (read_options no_options args).1 r
  unfolding main_start
  main_start-Sole args envp k = start_guest-Sole _ envp _ k
