-- ===== src/Process/Wait/Found.antt =====
-- What the scan of sys_wait4 over the children of the caller finds.
use oryx_hurd.Base.{
  ℕ, zero, suc, ◌+◌, ◌≤◌, ◌<◌, ◌≡◌, ◌≢◌, inl, inr, Bool, true, false, ◌&&◌, ℤ, negsuc, is_pos,
  if◌then◌else◌, Bool-cases, eq-or-lt, arith,
}
use oryx_hurd.Server.{Proc}
use oryx_hurd.Process.Wait.{dead_child, children, is_child, is_zombie, wait_scan}
use oryx_hurd.Process.View.{parked, zombie, slot_of, lost}

module _ (procs : ℕ → Proc) (parent : ℕ) (pid : ℤ) where
  -- The slot that the scan returns holds a dead child, and it is the first.
  pub scan-dead :
      (k i : ℕ) (have : Bool) (d : ℕ)
      → wait_scan procs parent pid k i have ≡ dead_child d
      → (i ≤ d)
        × (d < i + k)
        × (is_child parent pid (procs d) ≡ true)
        × (is_zombie (procs d) ≡ true)
  unfolding wait_scan
  scan-dead zero i have d e = ground arith
  scan-dead (suc k) i have d e =
      ground (arith, scan-dead k (suc i) have d, scan-dead k (suc i) true d)

  -- Without a dead child, every child of the caller is alive.
  pub scan-alive :
      (k i : ℕ) (have b : Bool) (j : ℕ)
      → wait_scan procs parent pid k i have ≡ children b
      → i ≤ j
      → j < i + k
      → (is_child parent pid (procs j) && is_zombie (procs j)) ≡ false
  unfolding wait_scan
  scan-alive zero i have b j e lo hi = absurd (omega arith)
  scan-alive (suc k) i have b j e lo hi = elim (eq-or-lt i j lo) [
    | inl same ↦ rw (← same) (ground arith)
    | inr later ↦ ground (arith, scan-alive k (suc i) have b j, scan-alive k (suc i) true b j)
  ]

  scan-seen : (k i : ℕ) → wait_scan procs parent pid k i true ≢ children false
  unfolding wait_scan
  scan-seen zero i e = cc
  scan-seen (suc k) i e = ground (arith, scan-seen k (suc i))

  -- The scan says that there is no child only if no slot holds one.
  pub scan-no_child :
      (k i : ℕ) (have : Bool) (j : ℕ)
      → wait_scan procs parent pid k i have ≡ children false
      → i ≤ j
      → j < i + k
      → is_child parent pid (procs j) ≡ false
  unfolding wait_scan
  scan-no_child zero i have j e lo hi = absurd (omega arith)
  scan-no_child (suc k) i have j e lo hi = elim (eq-or-lt i j lo) [
    | inl same ↦ rw (← same) (ground (arith, scan-seen k (suc i)))
    | inr later ↦ ground (arith, scan-no_child k (suc i) have j, scan-no_child k (suc i) true j)
  ]

  -- It says that there is one only if a slot holds one.
  pub scan-child :
      (k i : ℕ)
      → wait_scan procs parent pid k i false ≡ children true
      → (j : ℕ) × (i ≤ j) × (j < i + k) × (is_child parent pid (procs j) ≡ true)
  unfolding wait_scan
  scan-child zero i e = absurd (cc)
  scan-child (suc k) i e = elim (Bool-cases (is_child parent pid (procs i))) [
    | inl mine ↦ (i, omega arith, omega arith, mine)
    | inr other ↦
        let (j, lo, hi, mine) = scan-child k (suc i) (ground arith) in
        (j, omega arith, omega arith, mine)
  ]

pub dead_child-slot :
    (parent : ℕ) (pid : ℤ) (p : Proc)
    → is_child parent pid p ≡ true
    → is_zombie p ≡ true
    → slot_of p ≡ zombie p.pid parent p.status
unfolding is_child is_zombie
dead_child-slot parent pid p c z = ground arith

-- The target that a parked process waits for.
abbrev pub wanted : ℤ → ℤ
wanted pid = if is_pos pid then pid else negsuc 0

pub not_lost :
    (parent ppid : ℕ) (pid : ℤ) (p : Proc)
    → (is_child parent pid p && is_zombie p) ≡ false
    → (p.used ≡ true → p.reaped ≡ false)
    → lost (parked parent ppid (wanted pid)) (slot_of p) ≡ false
unfolding is_child is_zombie
not_lost parent ppid pid p e kept = ground arith
