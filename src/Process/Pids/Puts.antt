-- ===== src/Process/Pids/Puts.antt =====
-- What a change of a slot of the process table is to the map from pids to processes.
use oryx_hurd.Base.{ℕ, ℤ, ◌≡◌, ◌≢◌, ◌∙◌, ap, inl, inr, none, some, ◌==◌, if◌then◌else◌, arith}
use native.Mathlib.Decide.{ℕ_discrete}
use oryx_hurd.Process.View.{Slot, free, running, parked, Table, Sets}
use oryx_hurd.Process.Invariant.{Inv, pid_of}
use oryx_hurd.Process.Pids.{by_pid, Puts, by_pid-absent, by_pid-found, by_pid-same}

module _ {v w : Table} (inv : Inv v) (after : Inv w) where
  -- A pid that the changed slot neither had nor has.
  Sets-same :
      (i q : ℕ) (x : Slot)
      → Sets v i x w
      → pid_of x ≢ some q
      → pid_of (v.slots i) ≢ some q
      → by_pid w q ≡ by_pid v q
  Sets-same i q x sets new old = by_pid-same q inv after (λ j. elim (ℕ_discrete i j) [
    | yes here ↦ inr ((λ e. new (ground (arith, sets j))), (λ e. old (ground arith)))
    | no there ↦ inl (ground (arith, sets j))
  ])

  -- A slot that was free or had the pid gets a process of that pid.
  pub Sets-Puts :
      (i p : ℕ) (x : Slot)
      → Sets v i x w
      → pid_of x ≡ some p
      → ((q : ℕ) → pid_of (v.slots i) ≡ some q → q ≡ p)
      → Puts (by_pid v) p (some x) (by_pid w)
  Sets-Puts i p x sets has was q = elim (ℕ_discrete p q) [
    | yes same ↦
        let here : w.slots i ≡ x = ground (arith, sets i) in
        let found = by_pid-found w after i p (ap pid_of here ∙ has) in
        rw (← same) (ground (arith, found, here))
    | no other ↦
        let kept = Sets-same i q x sets (λ e. ground arith) (λ e. ground (arith, was q)) in
        ground (arith, kept)
  ]

  -- The slot of a process is freed.
  pub Sets-free :
      (i p : ℕ) → Sets v i free w → pid_of (v.slots i) ≡ some p → Puts (by_pid v) p none (by_pid w)
  Sets-free i p sets was q = elim (ℕ_discrete p q) [
    | yes same ↦
        let absent = by_pid-absent w p (λ j e. ground (arith, sets j, inv.distinct i j p)) in
        rw (← same) (ground (arith, absent))
    | no other ↦
        let kept = Sets-same i q free sets (λ e. ground arith) (λ e. ground arith) in
        ground (arith, kept)
  ]

  -- The slot of a process is freed and its parked parent runs.
  pub release-Puts :
      (i pid ppid q grand : ℕ) (target : ℤ)
      → v.slots i ≡ running pid ppid
      → v.slots q ≡ parked ppid grand target
      → ((j : ℕ)
          → w.slots j ≡ (if i == j then free else if q == j then running ppid grand else v.slots j))
      → (r : ℕ)
      → by_pid w r
        ≡ (if pid == r then none else if ppid == r then some (running ppid grand) else by_pid v r)
  release-Puts i pid ppid q grand target was up sets r = elim (ℕ_discrete pid r) [
    | yes same ↦
        let absent =
          by_pid-absent w pid (λ j e. ground (arith, sets j, inv.distinct i j pid, was, up)) in
        rw (← same) (ground (arith, absent))
    | no other ↦ elim (ℕ_discrete ppid r) [
      | yes parent ↦
          let here : w.slots q ≡ running ppid grand = ground (arith, sets q) in
          let found = by_pid-found w after q ppid (ap pid_of here) in
          rw (← parent) (ground (arith, found, here))
      | no another ↦
          let kept = by_pid-same r inv after (λ j. elim (ℕ_discrete i j) [
            | yes at_child ↦ inr ((λ e. ground (arith, sets j)), (λ e. ground arith))
            | no off_child ↦ elim (ℕ_discrete q j) [
              | yes at_parent ↦ inr ((λ e. ground (arith, sets j)), (λ e. ground arith))
              | no off ↦ inl (ground (arith, sets j))
            ]
          ]) in
          ground (arith, kept)
    ]
  ]
