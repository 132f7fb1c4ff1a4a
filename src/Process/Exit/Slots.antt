-- ===== src/Process/Exit/Slots.antt =====
-- The slots that bury, wait_complete and awaits of proc_exited read and change.
use oryx_hurd.Base.{ℕ, ◌<◌, ◌≡◌, refl, true, false, some, ◌==◌, if◌then◌else◌, arith}
use oryx_hurd.Process.Invariant.{pid_of, ppid_of}
use oryx_hurd.Process.Tidy.{IsTidy}
use oryx_hurd.Host.{Host}
use oryx_hurd.Server.{Server, Proc}
use oryx_hurd.Fd.{fd_closeall}
use oryx_hurd.Process.Exit.{bury, wait_complete, awaits}
use oryx_hurd.Process.View.{Slot, free, running, parked, zombie, slot_of, accepts, lost}

module _ {K : Type 0} (host : Host K) where
  pub bury-slots :
      (p status : ℕ) (s : Server K) (j : ℕ)
      → (s.procs p).used ≡ true
      → slot_of ((bury host p status s).1.procs j)
        ≡ (if p == j then zombie (s.procs p).pid (s.procs p).ppid status else slot_of (s.procs j))
  unfolding bury fd_closeall
  bury-slots p status s j up = ground arith

  pub bury-rest :
      (p status : ℕ) (s : Server K)
      → let t = (bury host p status s).1 in
        (t.next_pid ≡ s.next_pid)
        × (t.root ≡ s.root)
        × ((t.procs p).used ≡ (s.procs p).used)
        × ((t.procs p).pid ≡ (s.procs p).pid)
        × ((t.procs p).ppid ≡ (s.procs p).ppid)
        × (t.guest_done ≡ s.guest_done)
  unfolding bury fd_closeall
  bury-rest p status s = ground arith

  pub bury-IsTidy :
      (p status : ℕ) (s : Server K)
      → (s.procs p).waiting ≡ false
      → IsTidy s
      → IsTidy (bury host p status s).1
  unfolding bury fd_closeall
  bury-IsTidy p status s w tidy = record {
    waits = λ j u v. ground (arith, tidy.waits j);
    kept = λ j u. ground (arith, tidy.kept j);
  }

  pub wait_complete-slots :
      (q p : ℕ) (s : Server K) (j : ℕ)
      → (s.procs q).used ≡ true
      → (s.procs q).alive ≡ true
      → slot_of ((wait_complete host q p s).1.procs j) ≡ (
          if p == j
          then free
          else if q == j
          then running (s.procs q).pid (s.procs q).ppid
          else slot_of (s.procs j))
  unfolding wait_complete
  wait_complete-slots q p s j up live = ground arith

  pub wait_complete-IsTidy :
      (q p : ℕ) (s : Server K) → IsTidy s → IsTidy (wait_complete host q p s).1
  unfolding wait_complete
  wait_complete-IsTidy q p s tidy = record {
    waits = λ j u v. ground (arith, tidy.waits j);
    kept = λ j u. ground (arith, tidy.kept j);
  }

pub awaits-parked :
    (p q : Proc)
    → awaits p q ≡ true
    → (q.used ≡ true → q.waiting ≡ true → q.alive ≡ true)
    → (slot_of q ≡ parked p.ppid q.ppid q.wait_for) × (accepts q.wait_for p.pid ≡ true)
unfolding awaits
awaits-parked p q e live = ground arith

pub awaits-lost :
    (p q : Proc) (status : ℕ)
    → awaits p q ≡ false
    → lost (slot_of q) (zombie p.pid p.ppid status) ≡ false
unfolding awaits
awaits-lost p q status e = ground arith

-- Pids are positive, so nobody is parked for a child of 0.
pub orphan-lost :
    (x : Slot) (pid ppid status : ℕ)
    → ((p : ℕ) → pid_of x ≡ some p → ppid_of x < p)
    → ppid ≡ 0
    → lost x (zombie pid ppid status) ≡ false
orphan-lost free pid ppid status young e = refl
orphan-lost (running a b) pid ppid status young e = refl
orphan-lost (parked a b t) pid ppid status young e = ground (arith, young a refl)
orphan-lost (zombie a b c) pid ppid status young e = refl
