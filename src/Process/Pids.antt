-- ===== src/Process/Pids.antt =====
-- The process table of linux-personality/oryxlinux.c as a map from pids: which slot a process has is
-- forgotten, and the steps of the slots are steps of the map.
pub mod Puts
pub mod History
use oryx_hurd.Base.{
  ℕ, ℤ, ◌<◌, ◌≡◌, ◌≢◌, refl, sym, ◌∙◌, ap, inl, inr, ◌⊎◌, Bool, true, false, Option, none, some,
  ◌==◌, if◌then◌else◌, Bool-cases, first_index, first_index-holds, first_index-none, arith,
}
use oryx_hurd.Server.{max_proc}
use oryx_hurd.Process.View.{
  Slot, free, running, parked, zombie, Table, accepts, lost, Sets, Life, idle, spawn, die, release,
  collect, park,
}
use oryx_hurd.Process.Invariant.{Inv, pid_of, Life-Inv}

-- The process with pid `p`, if there is one.
unfoldable has_pid : ℕ → Slot → Bool
has_pid p free = false
has_pid p (running pid _) = pid == p
has_pid p (parked pid _ _) = pid == p
has_pid p (zombie pid _ _) = pid == p

unfoldable at_index : (ℕ → Slot) → Option ℕ → Option Slot
at_index slots none = none
at_index slots (some i) = some (slots i)

unfoldable pub by_pid : Table → ℕ → Option Slot
unfolding has_pid at_index
by_pid v p = at_index v.slots (first_index (λ i. has_pid p (v.slots i)) max_proc)

-- `g` is `f` with `o` at pid `p`.
abbrev pub Puts : (ℕ → Option Slot) → ℕ → Option Slot → (ℕ → Option Slot) → Type 0
Puts f p o g = (q : ℕ) → g q ≡ (if p == q then o else f q)

-- The steps of a map from pids to processes.
pub data Step (f g : ℕ → Option Slot) : Type 0 where
  stays : ((q : ℕ) → g q ≡ f q) → Step f g
  -- fork: the child's pid is above all that are in use
  born :
      (child pid ppid : ℕ)
      → f pid ≡ some (running pid ppid)
      → ((q : ℕ) (x : Slot) → f q ≡ some x → q < child)
      → Puts f child (some (running child pid)) g
      → Step f g
  -- exit: nobody is parked for the process
  dies :
      (pid ppid status : ℕ)
      → f pid ≡ some (running pid ppid)
      → ((q : ℕ) (x : Slot) → f q ≡ some x → lost x (zombie pid ppid status) ≡ false)
      → Puts f pid (some (zombie pid ppid status)) g
      → Step f g
  -- exit: the parent is parked for the process; its pid is free and the parent runs
  reported :
      (pid ppid grand : ℕ) (target : ℤ)
      → f pid ≡ some (running pid ppid)
      → f ppid ≡ some (parked ppid grand target)
      → accepts target pid ≡ true
      → ((q : ℕ)
          → g q ≡ (if pid == q then none else if ppid == q then some (running ppid grand) else f q))
      → Step f g
  -- wait4: a dead child of the caller goes
  collected :
      (pid ppid status grand : ℕ)
      → f pid ≡ some (zombie pid ppid status)
      → f ppid ≡ some (running ppid grand)
      → Puts f pid none g
      → Step f g
  -- wait4: no dead child is what the caller waits for
  waits_for :
      (pid ppid : ℕ) (target : ℤ)
      → f pid ≡ some (running pid ppid)
      → ((q : ℕ) (x : Slot) → f q ≡ some x → lost (parked pid ppid target) x ≡ false)
      → Puts f pid (some (parked pid ppid target)) g
      → Step f g

has_pid-pid_of : (p : ℕ) (x : Slot) → has_pid p x ≡ true → pid_of x ≡ some p
unfolding has_pid
has_pid-pid_of p x e = ground arith

pid_of-has_pid : (p : ℕ) (x : Slot) → pid_of x ≡ some p → has_pid p x ≡ true
unfolding has_pid
pid_of-has_pid p x e = ground arith

module _ (v : Table) where
  -- A process of the map has a slot.
  pub by_pid-slot :
      (p : ℕ) (x : Slot)
      → by_pid v p ≡ some x
      → (i : ℕ) × (i < max_proc) × (v.slots i ≡ x) × (pid_of x ≡ some p)
  unfolding by_pid at_index
  by_pid-slot p x e = found _ refl e
    where
      found :
          (o : Option ℕ)
          → first_index (λ i. has_pid p (v.slots i)) max_proc ≡ o
          → at_index v.slots o ≡ some x
          → (i : ℕ) × (i < max_proc) × (v.slots i ≡ x) × (pid_of x ≡ some p)
      found none s e = absurd (cc)
      found (some i) s e =
          let here = first_index-holds (λ i. has_pid p (v.slots i)) max_proc i s in
          let same : v.slots i ≡ x = ground arith in
          (i, here.1, same, (ap pid_of (sym same) ∙ has_pid-pid_of p (v.slots i) here.0))

  pub by_pid-absent : (p : ℕ) → ((i : ℕ) → pid_of (v.slots i) ≢ some p) → by_pid v p ≡ none
  by_pid-absent p gone = by_result _ refl
    where
      by_result : (o : Option Slot) → by_pid v p ≡ o → by_pid v p ≡ none
      by_result none e = e
      by_result (some x) e =
          let (i, _, same, has) = by_pid-slot p x e in absurd (gone i (ap pid_of same ∙ has))

  -- A process of a slot is in the map.
  pub by_pid-found : Inv v → (i p : ℕ) → pid_of (v.slots i) ≡ some p → by_pid v p ≡ some (v.slots i)
  unfolding by_pid at_index
  by_pid-found inv i p e = found _ refl
    where
      found :
          (o : Option ℕ)
          → first_index (λ i. has_pid p (v.slots i)) max_proc ≡ o
          → at_index v.slots o ≡ some (v.slots i)
      found none s =
          let small : i < max_proc = ground (arith, inv.outside i) in
          absurd (
            ground (
              arith,
              first_index-none (λ i. has_pid p (v.slots i)) max_proc i s small,
              pid_of-has_pid p (v.slots i) e,
            ))
      found (some j) s =
          let here = first_index-holds (λ i. has_pid p (v.slots i)) max_proc j s in
          let same = inv.distinct i j p e (has_pid-pid_of p (v.slots j) here.0) in
          ap (λ k. some (v.slots k)) (sym same)

-- A pid whose slots did not change.
pub by_pid-same :
    {v w : Table} (p : ℕ)
    → Inv v
    → Inv w
    → ((j : ℕ)
        → (w.slots j ≡ v.slots j) ⊎ ((pid_of (w.slots j) ≢ some p) × (pid_of (v.slots j) ≢ some p)))
    → by_pid w p ≡ by_pid v p
by_pid-same {v} {w} p inv after same = by_result _ refl
  where
    by_result : (o : Option Slot) → by_pid v p ≡ o → by_pid w p ≡ by_pid v p
    by_result none e = by_pid-absent w p (λ j. gone j (same j)) ∙ sym e
      where
        gone :
            (j : ℕ)
            → (w.slots j ≡ v.slots j)
              ⊎ ((pid_of (w.slots j) ≢ some p) × (pid_of (v.slots j) ≢ some p))
            → pid_of (w.slots j) ≢ some p
        gone j (inl kept) has =
            let there = by_pid-found v inv j p (ap pid_of (sym kept) ∙ has) in cc
        gone j (inr other) has = other.0 has
    by_result (some x) e =
        let (i, _, here, has) = by_pid-slot v p x e in
        elim (same i) [
          | inl kept ↦
              by_pid-found w after i p (ap pid_of (kept ∙ here) ∙ has)
              ∙ (ap (λ y. some y) (kept ∙ here) ∙ sym e)
          | inr other ↦ absurd (other.1 (ap pid_of here ∙ has))
        ]
