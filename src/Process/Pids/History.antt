-- ===== src/Process/Pids/History.antt =====
-- Histories of linux-personality/oryxlinux.c's server as steps of the map from pids to processes.
use oryx_hurd.Base.{ℕ, ◌≡◌, refl, ◌∙◌, ap, inl, Option, some, arith}
use oryx_hurd.Host.{Host}
use oryx_hurd.Server.{Server}
use oryx_hurd.Process.View.{
  Slot, running, parked, zombie, Table, table, Life, idle, spawn, die, release, collect, park,
}
use oryx_hurd.Process.Invariant.{Inv, pid_of, Life-Inv}
use oryx_hurd.Process.History.{
  turn, turn-IsSound, IsSound, Ran, start, guest_moves, forks, exits, waits, Ran-IsSound, orphan,
}
use oryx_hurd.Process.Fork.Steps.{sys_fork-Life}
use oryx_hurd.Process.Exit.Steps.{proc_exited-Life}
use oryx_hurd.Process.Wait.Steps.{sys_wait4-Life}
use oryx_hurd.Process.Pids.{
  by_pid, Step, stays, born, dies, reported, collected, waits_for, by_pid-slot, by_pid-found,
  by_pid-same,
}
use oryx_hurd.Process.Pids.Puts.{Sets-Puts, Sets-free, release-Puts}

-- A process of a known slot, as the map has it.
shown :
    {v : Table}
    → Inv v
    → (i p : ℕ) (x : Slot) → v.slots i ≡ x
    → pid_of x ≡ some p
    → by_pid v p ≡ some x
shown {v} inv i p x here has = by_pid-found v inv i p (ap pid_of here ∙ has) ∙ ap (λ y. some y) here

module _ {v w : Table} (inv : Inv v) where
  -- A step of the slots is a step of the map.
  pub Life-Step : Life v w → Inv w → Step (by_pid v) (by_pid w)
  Life-Step (idle same grow) after = stays (λ q. by_pid-same q inv after (λ j. inl (same j)))
  Life-Step (spawn i parent pid ppid small was up sets n) after =
      born v.next pid ppid (shown inv parent pid (running pid ppid) up refl)
        (λ q x e.
          let (j, _, here, has) = by_pid-slot v q x e in inv.fresh j q (ap pid_of here ∙ has))
        (Sets-Puts inv after i v.next (running v.next pid) sets refl (λ q e. ground arith))
  Life-Step (die i pid ppid status was alone sets n) after =
      dies pid ppid status (shown inv i pid (running pid ppid) was refl)
        (λ q x e. let (j, small, here, _) = by_pid-slot v q x e in ground (arith, alone j small))
        (Sets-Puts inv after i pid (zombie pid ppid status) sets refl (λ q e. ground arith))
  Life-Step (release i pid ppid q grand target was up ok sets n) after =
      reported pid ppid grand target (shown inv i pid (running pid ppid) was refl)
        (shown inv q ppid (parked ppid grand target) up refl) ok
        (release-Puts inv after i pid ppid q grand target was up sets)
  Life-Step (collect i pid ppid status caller grand was up sets n) after =
      collected pid ppid status grand (shown inv i pid (zombie pid ppid status) was refl)
        (shown inv caller ppid (running ppid grand) up refl)
        (Sets-free inv after i pid sets (ground arith))
  Life-Step (park i pid ppid target was alone sets n) after =
      waits_for pid ppid target (shown inv i pid (running pid ppid) was refl)
        (λ q x e. let (j, small, here, _) = by_pid-slot v q x e in ground (arith, alone j small))
        (Sets-Puts inv after i pid (parked pid ppid target) sets refl (λ q e. ground arith))

pub data Steps (f : ℕ → Option Slot) : (ℕ → Option Slot) → Type 0 where
  none_yet : Steps f f
  then_step : {g h : ℕ → Option Slot} → Steps f g → Step g h → Steps f h

module _ {K : Type 0} (host : Host K) where
  -- From a sound server, every history in which running processes fork, exit and wait in any order
  -- is a sequence of steps of a map from pids to processes: a fork adds a running child of the
  -- caller under a pid above all in use; an exit leaves a zombie that nobody is parked for, or
  -- frees its pid and lets the parent that is parked for it run; a wait takes a zombie child of the
  -- caller away, or parks the caller when no zombie is what it waits for; or nothing changes.
  pub Ran-Steps :
      {s t : Server K} → Ran host s t → IsSound s → Steps (by_pid (table s)) (by_pid (table t))
  Ran-Steps start sound = none_yet
  Ran-Steps (guest_moves k h) sound = Ran-Steps h sound
  Ran-Steps (forks {t} p reply st (pid, ppid, up) h) sound =
      let before = Ran-IsSound host h sound in
      let life = sys_fork-Life host st (turn p reply t) pid ppid up in
      then_step (Ran-Steps h sound) (Life-Step before.inv life (Life-Inv life before.inv))
  Ran-Steps (exits {t} p reply status (pid, ppid, up) h) sound =
      let before = turn-IsSound p reply (Ran-IsSound host h sound) in
      let life =
        proc_exited-Life host p status (turn p reply t) pid ppid up before.tidy before.inv
          (orphan (turn p reply t) before.rooted) in
      then_step (Ran-Steps h sound) (Life-Step before.inv life (Life-Inv life before.inv))
  Ran-Steps (waits {t} p reply pid status_addr options (own, ppid, up) h) sound =
      let before = turn-IsSound p reply (Ran-IsSound host h sound) in
      let life =
        sys_wait4-Life host pid status_addr options (turn p reply t) own ppid up before.tidy in
      then_step (Ran-Steps h sound) (Life-Step before.inv life (Life-Inv life before.inv))
