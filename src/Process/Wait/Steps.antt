-- ===== src/Process/Wait/Steps.antt =====
-- sys_wait4 collects a dead child, fails, or parks the caller.
use oryx_hurd.Base.{
  ℕ, ◌%◌, ◌<◌, ◌≡◌, ◌≢◌, refl, inl, inr, ◌⊎◌, Bool, true, false, ◌&&◌, ℤ, pos, neg, ◌==◌, arith,
}
use native.Mathlib.Decide.{ℕ_discrete}
use oryx_hurd.Host.{Host}
use oryx_hurd.Server.{Server, max_proc, me, lift}
use oryx_hurd.Process.{linux_echild, linux_efault}
use oryx_hurd.Process.Wait.{
  Scan, dead_child, children, is_child, is_zombie, wait_scan, collect_if, store_status, wait_dead,
  wait_found, sys_wait4,
}
use oryx_hurd.Process.Tidy.{IsTidy}
use oryx_hurd.Process.View.{
  Sets, free, running, parked, zombie, table, slot_of, Life, idle, collect, park,
}
use oryx_hurd.Process.Wait.Found.{
  scan-dead, scan-alive, scan-no_child, scan-child, dead_child-slot, wanted, not_lost,
}

module _ {K : Type 0} where
  -- A dead child `d` is collected, or its status could not be written and nothing changed.
  abbrev pub Collected : Server K → ℤ × Server K → ℕ → Type 0
  Collected s r d =
      ((r.0 ≡ pos (s.procs d).pid) × Sets (table s) d free (table r.1))
      ⊎ ((r.0 ≡ neg linux_efault) × ((j : ℕ) → slot_of (r.1.procs j) ≡ slot_of (s.procs j)))

  collect_if-Collected : (b : Bool) (d : ℕ) (s : Server K) → Collected s (collect_if b d s) d
  unfolding collect_if
  collect_if-Collected true d s = inl (refl, (λ j. ground arith))
  collect_if-Collected false d s = inr (refl, (λ j. refl))

  collect_if-IsTidy : (b : Bool) (d : ℕ) (s : Server K) → IsTidy s → IsTidy (collect_if b d s).1
  unfolding collect_if
  collect_if-IsTidy true d s tidy = record {
    waits = λ j u v. ground (arith, tidy.waits j);
    kept = λ j u. ground (arith, tidy.kept j);
  }
  collect_if-IsTidy false d s tidy = tidy

  collect_if-next_pid :
      (b : Bool) (d : ℕ) (s : Server K) → (collect_if b d s).1.next_pid ≡ s.next_pid
  unfolding collect_if
  collect_if-next_pid true d s = refl
  collect_if-next_pid false d s = refl

  -- The four results of wait4.
  pub data Waited (pid : ℤ) (options : ℕ) (s : Server K) (r : ℤ × Server K) : Type 0 where
    no_child :
        ((j : ℕ) → j < max_proc → is_child (me s).pid pid (s.procs j) ≡ false)
        → r.0 ≡ neg linux_echild
        → r.1 ≡ s
        → Waited pid options s r
    collected :
        (d : ℕ)
        → d < max_proc
        → is_child (me s).pid pid (s.procs d) ≡ true
        → slot_of (s.procs d) ≡ zombie (s.procs d).pid (me s).pid (s.procs d).status
        → Collected s r d
        → r.1.next_pid ≡ s.next_pid
        → Waited pid options s r
    not_yet :
        options % 2 ≡ 1
        → ((j : ℕ)
            → j < max_proc
            → (is_child (me s).pid pid (s.procs j) && is_zombie (s.procs j)) ≡ false)
        → r.0 ≡ pos 0
        → r.1 ≡ s
        → Waited pid options s r
    parks :
        options % 2 ≢ 1
        → ((j : ℕ)
            → j < max_proc
            → (is_child (me s).pid pid (s.procs j) && is_zombie (s.procs j)) ≡ false)
        → (c : ℕ) → c < max_proc
        → is_child (me s).pid pid (s.procs c) ≡ true
        → r.1.defer_reply ≡ true
        → Sets (table s) s.cur (parked (me s).pid (me s).ppid (wanted pid)) (table r.1)
        → r.1.next_pid ≡ s.next_pid
        → Waited pid options s r

module _ {K : Type 0} (host : Host K) (pid : ℤ) (status_addr options : ℕ) where
  wait_dead-Collected : (d : ℕ) (s : Server K) → Collected s (wait_dead host status_addr d s) d
  unfolding wait_dead
  wait_dead-Collected d s =
      let r = lift (store_status host status_addr d s) s in collect_if-Collected r.0 d r.1

  wait_dead-next_pid :
      (d : ℕ) (s : Server K) → (wait_dead host status_addr d s).1.next_pid ≡ s.next_pid
  unfolding wait_dead
  wait_dead-next_pid d s =
      let r = lift (store_status host status_addr d s) s in collect_if-next_pid r.0 d r.1

  wait_found-Waited :
      (s : Server K) (o : Scan)
      → wait_scan s.procs (me s).pid pid max_proc 0 false ≡ o
      → (me s).used ≡ true
      → (me s).alive ≡ true
      → Waited pid options s (wait_found host pid status_addr options o s)
  unfolding wait_found
  wait_found-Waited s (dead_child d) e up live =
      let found = scan-dead s.procs (me s).pid pid max_proc 0 false d e in
      collected d found.1 found.2 (dead_child-slot (me s).pid pid (s.procs d) found.2 found.3)
        (wait_dead-Collected d s) (wait_dead-next_pid d s)
  wait_found-Waited s (children false) e up live =
      no_child
        (λ j small. scan-no_child s.procs (me s).pid pid max_proc 0 false j e (omega arith) small)
        refl refl
  wait_found-Waited s (children true) e up live =
      let alive = λ (j : ℕ) (small : j < max_proc).
        scan-alive s.procs (me s).pid pid max_proc 0 false true j e (omega arith) small in
      let (c, _, small, mine) = scan-child s.procs (me s).pid pid max_proc 0 e in
      elim (ℕ_discrete (options % 2) 1) [
        | yes flag ↦ rw (flag, wait_found) (not_yet flag alive refl refl)
        | no flag ↦
            rw (no_flag flag, wait_found)
              (parks flag alive c small mine refl (λ j. ground arith) refl)
      ]
    where
      no_flag : options % 2 ≢ 1 → (options % 2 == 1) ≡ false
      no_flag ne = ground arith

  pub sys_wait4_lem :
      (s : Server K)
      → (me s).used ≡ true
      → (me s).alive ≡ true
      → Waited pid options s (sys_wait4 host pid status_addr options s)
  unfolding sys_wait4
  sys_wait4_lem s up live = wait_found-Waited s _ refl up live

  -- So wait4 is one step of the table.
  pub sys_wait4-Life :
      (s : Server K) (own ppid : ℕ)
      → slot_of (me s) ≡ running own ppid
      → IsTidy s
      → Life (table s) (table (sys_wait4 host pid status_addr options s).1)
  sys_wait4-Life s own ppid e tidy =
      Waited-Life s own ppid e tidy (sys_wait4_lem s (ground arith) (ground arith))
    where
      Waited-Life :
          (s : Server K) (own ppid : ℕ)
          → slot_of (me s) ≡ running own ppid
          → IsTidy s
          → {r : ℤ × Server K} → Waited pid options s r
          → Life (table s) (table r.1)
      Waited-Life s own ppid e tidy (no_child none_ err same) =
          rw same (idle (λ j. refl) (omega arith))
      Waited-Life s own ppid e tidy (collected d small mine dead (inl done) n) =
          collect d _ _ _ s.cur ppid dead (ground arith) done.1 n
      Waited-Life s own ppid e tidy (collected d small mine dead (inr kept) n) =
          idle kept.1 (omega arith)
      Waited-Life s own ppid e tidy (not_yet flag alive zero_ same) =
          rw same (idle (λ j. refl) (omega arith))
      Waited-Life s own ppid e tidy (parks flag alive c small mine deferred sets n) =
          park s.cur (me s).pid (me s).ppid (wanted pid) (ground arith)
            (λ j lt. not_lost (me s).pid (me s).ppid pid (s.procs j) (alive j lt) (tidy.kept j))
            sets n

  wait_found-IsTidy :
      (s : Server K) (o : Scan)
      → (me s).alive ≡ true
      → IsTidy s
      → IsTidy (wait_found host pid status_addr options o s).1
  unfolding wait_found wait_dead
  wait_found-IsTidy s (dead_child d) live tidy =
      let r = lift (store_status host status_addr d s) s in
      collect_if-IsTidy r.0 d r.1 (record { waits = tidy.waits; kept = tidy.kept })
  wait_found-IsTidy s (children false) live tidy = tidy
  wait_found-IsTidy s (children true) live tidy = record {
    waits = λ j u v. ground (arith, tidy.waits j);
    kept = λ j u. ground (arith, tidy.kept j);
  }

  pub sys_wait4-IsTidy :
      (s : Server K)
      → (me s).alive ≡ true
      → IsTidy s
      → IsTidy (sys_wait4 host pid status_addr options s).1
  unfolding sys_wait4
  sys_wait4-IsTidy s live tidy = wait_found-IsTidy s _ live tidy
