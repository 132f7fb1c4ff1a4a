-- ===== src/Process/Invariant.antt =====
-- The process table of linux-personality/oryxlinux.c stays well formed: pids are distinct and grow,
-- a child is younger than its parent, and no process stays parked for a child that has died.
use oryx_hurd.Base.{
  ℕ, ℤ, ◌≤◌, ◌<◌, ◌≡◌, refl, false, Option, none, some, ◌==◌, if◌then◌else◌, arith,
}
use oryx_hurd.Server.{max_proc}
use oryx_hurd.Process.View.{
  Slot, free, running, parked, zombie, Table, lost, Sets, Life, idle, spawn, die, release, collect,
  park,
}

abbrev pub pid_of : Slot → Option ℕ
pid_of free = none
pid_of (running pid _) = some pid
pid_of (parked pid _ _) = some pid
pid_of (zombie pid _ _) = some pid

abbrev pub ppid_of : Slot → ℕ
ppid_of free = 0
ppid_of (running _ ppid) = ppid
ppid_of (parked _ ppid _) = ppid
ppid_of (zombie _ ppid _) = ppid

pub record Inv (v : Table) : Type 0 where
  pub outside : (i : ℕ) → max_proc ≤ i → v.slots i ≡ free
  pub fresh : (i p : ℕ) → pid_of (v.slots i) ≡ some p → p < v.next
  pub younger : (i p : ℕ) → pid_of (v.slots i) ≡ some p → ppid_of (v.slots i) < p
  pub distinct : (i j p : ℕ) → pid_of (v.slots i) ≡ some p → pid_of (v.slots j) ≡ some p → i ≡ j
  pub none_lost : (i j : ℕ) → lost (v.slots i) (v.slots j) ≡ false

idle-Inv : (v w : Table) → ((j : ℕ) → w.slots j ≡ v.slots j) → v.next ≤ w.next → Inv v → Inv w
idle-Inv v w same h inv = record {
  outside = λ i o. ground (arith, same i, inv.outside i o);
  fresh = λ i p e. ground (arith, same i, inv.fresh i p);
  younger = λ i p e. ground (arith, same i, inv.younger i p);
  distinct = λ i j p e f. ground (arith, same i, same j, inv.distinct i j p);
  none_lost = λ i j. ground (arith, same i, same j, inv.none_lost i j);
}

-- One slot is changed to `x`, whose pid is the old one or the next.
Sets-Inv :
    (v w : Table) (i : ℕ) (x : Slot)
    → Inv v
    → i < max_proc
    → Sets v i x w
    → v.next ≤ w.next
    → ((p : ℕ) → pid_of x ≡ some p → (p < w.next) × (ppid_of x < p))
    → ((p j : ℕ) → pid_of x ≡ some p → pid_of (v.slots j) ≡ some p → i ≡ j)
    → ((j : ℕ) → lost x (v.slots j) ≡ false)
    → ((j : ℕ) → lost (v.slots j) x ≡ false)
    → lost x x ≡ false
    → Inv w
Sets-Inv v w i x inv small sets grow young new below above self = record {
  outside = λ k o. ground (arith, sets k, inv.outside k o);
  fresh = λ k p e. ground (arith, sets k, inv.fresh k p, young p);
  younger = λ k p e. ground (arith, sets k, inv.younger k p, young p);
  distinct = λ k j p e f. ground (arith, sets k, sets j, inv.distinct k j p, new p k, new p j);
  none_lost = λ k j. ground (arith, sets k, sets j, inv.none_lost k j, below j, above k);
}

lost-free : (x : Slot) → lost x free ≡ false
lost-free free = refl
lost-free _ = refl

lost-running : (x : Slot) (pid ppid : ℕ) → lost x (running pid ppid) ≡ false
lost-running free pid ppid = refl
lost-running _ pid ppid = refl

lost-parked : (x : Slot) (pid ppid : ℕ) (t : ℤ) → lost x (parked pid ppid t) ≡ false
lost-parked free pid ppid t = refl
lost-parked _ pid ppid t = refl

module _ {v : Table} (inv : Inv v) where
  in_table : (i p : ℕ) → pid_of (v.slots i) ≡ some p → i < max_proc
  in_table i p e = ground (arith, inv.outside i)

  lost_above :
      (x : Slot)
      → ((j : ℕ) → j < max_proc → lost (v.slots j) x ≡ false)
      → (j : ℕ) → lost (v.slots j) x ≡ false
  lost_above x alone j = ground (arith, inv.outside j, alone j)

  lost_below :
      (x : Slot)
      → ((j : ℕ) → j < max_proc → lost x (v.slots j) ≡ false)
      → (j : ℕ) → lost x (v.slots j) ≡ false
  lost_below x alone j = ground (arith, inv.outside j, alone j, lost-free x)

-- The slots after a release are those of two changes, of the child and then of the parent.
release-Inv :
    {v w : Table} (i pid ppid q grand : ℕ) (target : ℤ)
    → v.slots i ≡ running pid ppid
    → v.slots q ≡ parked ppid grand target
    → ((j : ℕ)
        → w.slots j ≡ (if i == j then free else if q == j then running ppid grand else v.slots j))
    → w.next ≡ v.next
    → Inv v
    → Inv w
release-Inv {v} {w} i pid ppid q grand target was up sets n inv =
    Sets-Inv m w q (running ppid grand) mid (in_table inv q ppid (ground arith))
      (λ j. ground (arith, sets j)) (omega arith)
      (λ p e. ground (arith, inv.fresh q ppid, inv.younger q ppid))
      (λ p j e f. ground (arith, inv.distinct q j p)) (λ j. refl)
      (λ j. lost-running (m.slots j) ppid grand) refl
  where
    m : Table
    m = record { slots = λ j. if i == j then free else v.slots j; next = v.next }

    mid : Inv m
    mid =
        Sets-Inv v m i free inv (in_table inv i pid (ground arith)) (λ j. refl) (omega arith)
          (λ p e. ground arith) (λ p j e f. ground arith) (λ j. refl) (λ j. lost-free (v.slots j))
          refl

-- Every operation on the table keeps it well formed.
pub Life-Inv : {v w : Table} → Life v w → Inv v → Inv w
Life-Inv {v} {w} (idle same grow) inv = idle-Inv v w same grow inv
Life-Inv {v} {w} (spawn i parent pid ppid small was up sets n) inv =
    Sets-Inv v w i (running v.next pid) inv small sets (omega arith)
      (λ p e. ground (arith, inv.fresh parent pid)) (λ p j e f. ground (arith, inv.fresh j p))
      (λ j. refl) (λ j. lost-running (v.slots j) v.next pid) refl
Life-Inv {v} {w} (die i pid ppid status was alone sets n) inv =
    Sets-Inv v w i (zombie pid ppid status) inv (in_table inv i pid (ground arith)) sets
      (omega arith) (λ p e. ground (arith, inv.fresh i p, inv.younger i p))
      (λ p j e f. inv.distinct i j p (ground arith) f) (λ j. refl)
      (lost_above inv (zombie pid ppid status) alone) refl
Life-Inv {v} {w} (release i pid ppid q grand target was up ok sets n) inv =
    release-Inv i pid ppid q grand target was up sets n inv
Life-Inv {v} {w} (collect i pid ppid status caller grand was up sets n) inv =
    Sets-Inv v w i free inv (in_table inv i pid (ground arith)) sets (omega arith)
      (λ p e. ground arith) (λ p j e f. ground arith) (λ j. refl) (λ j. lost-free (v.slots j)) refl
Life-Inv {v} {w} (park i pid ppid target was alone sets n) inv =
    Sets-Inv v w i (parked pid ppid target) inv (in_table inv i pid (ground arith)) sets
      (omega arith) (λ p e. ground (arith, inv.fresh i p, inv.younger i p))
      (λ p j e f. inv.distinct i j p (ground arith) f)
      (lost_below inv (parked pid ppid target) alone) (λ j. lost-parked (v.slots j) pid ppid target)
      refl
