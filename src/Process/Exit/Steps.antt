-- ===== src/Process/Exit/Steps.antt =====
-- proc_exited changes the process table as `die` or `release`.
use oryx_hurd.Base.{
  ℕ, ◌<◌, ◌≡◌, ◌≢◌, refl, inl, inr, ◌⊎◌, true, false, Option, none, some, ℤ, pos, ◌==◌,
  if◌then◌else◌, Bool-cases, first_index, first_index-holds, first_index-none, arith,
}
use native.Mathlib.Decide.{ℕ_discrete}
use oryx_hurd.Process.Invariant.{Inv}
use oryx_hurd.Process.Tidy.{IsTidy}
use oryx_hurd.Host.{Host}
use oryx_hurd.Server.{Server, max_proc}
use oryx_hurd.Process.Exit.{proc_exited, bury, wake_parent, wake_found, wait_complete, awaits}
use oryx_hurd.Process.View.{
  Sets, free, running, parked, zombie, Table, table, slot_of, Life, die, release, accepts, lost,
}
use oryx_hurd.Process.Exit.Slots.{
  bury-slots, bury-rest, bury-IsTidy, wait_complete-slots, wait_complete-IsTidy, awaits-parked,
  awaits-lost, orphan-lost,
}

-- The two ends of an exit: nobody was parked for the process, or `q` was and is released.
abbrev pub Zombie : Table → (p pid ppid status : ℕ) → Table → Type 0
Zombie v p pid ppid status w =
    ((j : ℕ) → j < max_proc → lost (v.slots j) (zombie pid ppid status) ≡ false)
    × Sets v p (zombie pid ppid status) w

abbrev pub Released : Table → (p pid ppid : ℕ) → Table → Type 0
Released v p pid ppid w =
    (q : ℕ) × (grand : ℕ) × (target : ℤ) × (v.slots q ≡ parked ppid grand target)
    × (accepts target pid ≡ true)
    × ((j : ℕ)
        → w.slots j ≡ (if p == j then free else if q == j then running ppid grand else v.slots j))

module _ {K : Type 0} (host : Host K) (p status : ℕ) where
  wake_cases :
      (t : Server K) (o : Option ℕ)
      → first_index (λ i. awaits (t.procs p) (t.procs i)) max_proc ≡ o
      → slot_of (t.procs p) ≡ zombie (t.procs p).pid (t.procs p).ppid status
      → IsTidy t
      → let w = (wake_found host p o t).1 in
        Zombie (table t) p (t.procs p).pid (t.procs p).ppid status (table w)
        ⊎ Released (table t) p (t.procs p).pid (t.procs p).ppid (table w)
  unfolding wake_found
  wake_cases t none e dead tidy = inl (
    (λ j small. awaits-lost (t.procs p) (t.procs j) status (first_index-none _ max_proc j e small)),
    (λ j. ground arith),
  )
  wake_cases t (some q) e dead tidy =
      let found =
        awaits-parked (t.procs p) (t.procs q) (first_index-holds _ max_proc q e).0 (tidy.waits q) in
      inr (
        q,
        (t.procs q).ppid,
        (t.procs q).wait_for,
        found.0,
        found.1,
        (λ j. ground (arith, found, wait_complete-slots host q p t j)),
      )

  -- The process is in use and not parked. It may be dead already, which an execve leaves behind.
  abbrev pub Unparked : ℕ → ℕ → Server K → Type 0
  Unparked pid ppid s =
      ((s.procs p).used ≡ true)
      × ((s.procs p).waiting ≡ false)
      × ((s.procs p).pid ≡ pid)
      × ((s.procs p).ppid ≡ ppid)

  -- The parent's release, seen from the state before the process was buried.
  wake_parent_lem :
      (s : Server K) (pid ppid : ℕ)
      → Unparked pid ppid s
      → IsTidy s
      → let w = (wake_parent host p (bury host p status s).1).1 in
        Zombie (table s) p pid ppid status (table w) ⊎ Released (table s) p pid ppid (table w)
  unfolding wake_parent
  wake_parent_lem s pid ppid e tidy =
      let t = (bury host p status s).1 in
      let slots = λ (j : ℕ). bury-slots host p status s j (ground arith) in
      let rest = bury-rest host p status s in
      elim (wake_cases t _ refl (ground (arith, slots p, rest))
        (bury-IsTidy host p status s (ground arith) tidy)) [
          | inl (alone, sets) ↦ inl (
            (λ j small. ground (arith, alone j small, slots j, rest)),
            (λ j. ground (arith, sets j, slots j, rest)),
          )
          | inr (q, grand, target, up, ok, sets) ↦ inr (
            q,
            grand,
            target,
            ground (arith, up, slots q, rest),
            ground (arith, ok, rest),
            (λ j. ground (arith, sets j, slots j, rest, up)),
          )
        ]

  wake_found-next_pid :
      (o : Option ℕ) (t : Server K) → (wake_found host p o t).1.next_pid ≡ t.next_pid
  unfolding wake_found wait_complete
  wake_found-next_pid none t = refl
  wake_found-next_pid (some q) t = refl

  pub proc_exited-Unparked :
      (s : Server K) (pid ppid : ℕ)
      → Unparked pid ppid s
      → IsTidy s
      → p ≢ s.root
      → let w = (proc_exited host p status s).1 in
        Zombie (table s) p pid ppid status (table w) ⊎ Released (table s) p pid ppid (table w)
  unfolding proc_exited
  proc_exited-Unparked s pid ppid e tidy ne =
      rw (other, proc_exited) (wake_parent_lem s pid ppid e tidy)
    where
      other : (p == (bury host p status s).1.root) ≡ false
      other = ground (arith, bury-rest host p status s)

  -- A process other than the root that exits becomes a zombie if nobody is parked for it, and
  -- otherwise its slot is free and one parent that was parked for it runs again.
  pub proc_exited_lem :
      (s : Server K) (pid ppid : ℕ)
      → slot_of (s.procs p) ≡ running pid ppid
      → IsTidy s
      → p ≢ s.root
      → let w = (proc_exited host p status s).1 in
        Zombie (table s) p pid ppid status (table w) ⊎ Released (table s) p pid ppid (table w)
  proc_exited_lem s pid ppid e tidy ne =
      proc_exited-Unparked s pid ppid (ground arith, ground arith, ground arith, ground arith) tidy
        ne

  proc_exited-next_pid : (s : Server K) → (proc_exited host p status s).1.next_pid ≡ s.next_pid
  unfolding proc_exited wake_parent
  proc_exited-next_pid s =
      let t = (bury host p status s).1 in
      ground (
        arith,
        bury-rest host p status s,
        wake_found-next_pid (first_index (λ i. awaits (t.procs p) (t.procs i)) max_proc) t,
      )

  -- The exit of the root process ends the emulator: the exit status is kept, the main loop is told
  -- to finish, and no parked process is released.
  pub proc_exited-root :
      (s : Server K) (pid ppid : ℕ)
      → slot_of (s.procs p) ≡ running pid ppid
      → p ≡ s.root
      → let w = (proc_exited host p status s).1 in
        (w.guest_status ≡ pos status)
        × (w.guest_done ≡ true)
        × Sets (table s) p (zombie pid ppid status) (table w)
  unfolding proc_exited
  proc_exited-root s pid ppid e same =
      let slots = λ (j : ℕ). bury-slots host p status s j (ground arith) in
      let rest = bury-rest host p status s in
      (ground (arith, rest), ground (arith, rest), (λ j. ground (arith, slots j, rest)))

  wake_found-IsTidy : (o : Option ℕ) (t : Server K) → IsTidy t → IsTidy (wake_found host p o t).1
  unfolding wake_found
  wake_found-IsTidy none t tidy = tidy
  wake_found-IsTidy (some q) t tidy = wait_complete-IsTidy host q p t tidy

  pub proc_exited-IsTidy :
      (s : Server K)
      → (s.procs p).waiting ≡ false
      → IsTidy s
      → IsTidy (proc_exited host p status s).1
  unfolding proc_exited wake_parent
  proc_exited-IsTidy s w tidy =
      let t = (bury host p status s).1 in
      elim (Bool-cases (p == t.root)) [
        | inl root ↦
            rw (root, proc_exited)
              (record {
                waits = (bury-IsTidy host p status s w tidy).waits;
                kept = (bury-IsTidy host p status s w tidy).kept;
              })
        | inr other ↦
            rw (other, proc_exited) (wake_found-IsTidy _ t (bury-IsTidy host p status s w tidy))
      ]

  -- So an exit is one step of the table, the root's too, whose parent is no process.
  pub proc_exited-Life :
      (s : Server K) (pid ppid : ℕ)
      → slot_of (s.procs p) ≡ running pid ppid
      → IsTidy s
      → Inv (table s)
      → (s.procs s.root).ppid ≡ 0
      → Life (table s) (table (proc_exited host p status s).1)
  proc_exited-Life s pid ppid e tidy inv orphan = elim (ℕ_discrete p s.root) [
    | yes root ↦
        die p pid ppid status e
          (λ j small. orphan-lost _ pid ppid status (inv.younger j) (ground arith))
          (proc_exited-root s pid ppid e root).2 (proc_exited-next_pid s)
    | no other ↦ elim (proc_exited_lem s pid ppid e tidy other) [
      | inl (alone, sets) ↦ die p pid ppid status e alone sets (proc_exited-next_pid s)
      | inr (q, grand, target, up, ok, sets) ↦
          release p pid ppid q grand target e up ok sets (proc_exited-next_pid s)
    ]
  ]
