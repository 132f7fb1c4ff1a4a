-- ===== src/Process/Fork/Steps.antt =====
-- sys_fork changes the process table as `spawn` or `idle`.
use oryx_hurd.Base.{
  ℕ, ◌+◌, ◌≤◌, ◌<◌, ◌≡◌, refl, inl, inr, ◌⊎◌, true, Option, none, some, pos, neg, is_neg, ℤ,
  Bool-cases, first_index, first_index-holds, arith, not, update,
}
use oryx_hurd.Host.{Host, Regs}
use oryx_hurd.Server.{Server, max_proc, me}
use oryx_hurd.Process.{proc_new, proc_take, linux_eagain, blank}
use oryx_hurd.Process.Fork.{sys_fork, fork_into}
use oryx_hurd.Process.View.{Sets, free, running, table, slot_of, Life, idle, spawn}
use oryx_hurd.Process.Fork.Slots.{fork_into-slots, fork_into-result}

module _ {K : Type 0} (host : Host K) where
  -- The state that proc_new leaves when it takes slot `c`.
  abbrev taken : ℕ → Server K → Server K
  taken c s = record s { procs = update s.procs c (blank s.next_pid); next_pid = s.next_pid + 1 }

  -- The two results of a fork: the table as it was, or one more running process.
  abbrev pub NotForked : Server K → ℤ × Server K → Type 0
  NotForked s r =
      (r.0 ≡ neg linux_eagain)
      × ((j : ℕ) → slot_of (r.1.procs j) ≡ slot_of (s.procs j))
      × (s.next_pid ≤ r.1.next_pid)

  abbrev pub Forked : Server K → Server K → ℕ → Type 0
  Forked s t c =
      (c < max_proc)
      × (slot_of (s.procs c) ≡ free)
      × Sets (table s) c (running s.next_pid (me s).pid) (table t)
      × (t.next_pid ≡ s.next_pid + 1)

  fork_taken :
      (st : Regs) (c : ℕ) (s : Server K)
      → first_index (λ i. not (s.procs i).used) max_proc ≡ some c
      → (me s).used ≡ true
      → let r = fork_into host st (some c) (taken c s) in
        NotForked s r ⊎ ((r.0 ≡ pos s.next_pid) × Forked s r.1 c)
  fork_taken st c s e up =
      let slots = λ (j : ℕ). fork_into-slots host st c s.next_pid (taken c s) j (ground arith) in
      let result = fork_into-result host st c s.next_pid (taken c s) (ground arith) in
      let found = first_index-holds _ max_proc c e in
      elim (Bool-cases (is_neg (fork_into host st (some c) (taken c s)).0)) [
        | inl failed ↦
            inl (
              ground (arith, result),
              (λ j. ground (arith, slots j, found)),
              ground (arith, result),
            )
        | inr done ↦ inr (
          ground (arith, result),
          (
            found.1,
            ground (arith, found),
            (λ j. ground (arith, slots j, found)),
            ground (arith, result),
          ),
        )
      ]

  fork_cases :
      (st : Regs) (s : Server K) (o : Option ℕ)
      → first_index (λ i. not (s.procs i).used) max_proc ≡ o
      → (me s).used ≡ true
      → let t = proc_take o s in
        let r = fork_into host st t.0 t.1 in
        NotForked s r ⊎ ((c : ℕ) × (r.0 ≡ pos s.next_pid) × Forked s r.1 c)
  unfolding proc_take fork_into
  fork_cases st s none e up = inl (refl, (λ j. refl), omega arith)
  fork_cases st s (some c) e up = elim (fork_taken st c s e up) [
    | inl failed ↦ inl failed
    | inr done ↦ inr (c, done.0, done.1)
  ]

  -- fork either fails with EAGAIN and leaves every slot as it was, or gives a free slot to a
  -- process that runs under the next pid as a child of the caller, whose pid it returns.
  pub sys_fork_lem :
      (st : Regs) (s : Server K)
      → (me s).used ≡ true
      → let r = sys_fork host st s in
        NotForked s r ⊎ ((c : ℕ) × (r.0 ≡ pos s.next_pid) × Forked s r.1 c)
  unfolding sys_fork proc_new
  sys_fork_lem st s up = fork_cases st s _ refl up

  -- So it is one step of the table.
  pub sys_fork-Life :
      (st : Regs) (s : Server K) (pid ppid : ℕ)
      → slot_of (me s) ≡ running pid ppid
      → Life (table s) (table (sys_fork host st s).1)
  sys_fork-Life st s pid ppid e = elim (sys_fork_lem st s (ground arith)) [
    | inl failed ↦ idle failed.1 failed.2
    | inr (c, _, (small, was, sets, n)) ↦
        spawn c s.cur (me s).pid (me s).ppid small was (ground arith) sets n
  ]
