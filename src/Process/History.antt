-- ===== src/Process/History.antt =====
-- linux-personality/oryxlinux.c: histories of a server. A worker takes the lock, finds the process
-- that trapped and runs fork, exit or wait4 for it; between them the guests change the kernel.
pub mod Root
use oryx_hurd.Base.{ℕ, ◌≡◌, refl, ap, ◌∙◌, true, false, Option, none, some, ℤ, arith}
use oryx_hurd.Host.{Host, Regs}
use oryx_hurd.Server.{Server, max_proc, me, lift}
use oryx_hurd.Process.View.{slot_of, table, running, Life}
use oryx_hurd.Process.Tidy.{IsTidy}
use oryx_hurd.Process.Invariant.{Inv, Life-Inv}
use oryx_hurd.Process.History.Root.{
  Rooted, Life-Rooted, sys_fork-globals, proc_exited-globals, sys_wait4-root,
}
use oryx_hurd.Process.Fork.{sys_fork}
use oryx_hurd.Process.Fork.Steps.{sys_fork-Life}
use oryx_hurd.Process.Fork.Tidy.{sys_fork-IsTidy}
use oryx_hurd.Process.Exit.{proc_exited}
use oryx_hurd.Process.Exit.Steps.{proc_exited-Life, proc_exited-IsTidy}
use oryx_hurd.Process.Wait.{sys_wait4}
use oryx_hurd.Process.Wait.Steps.{sys_wait4-Life, sys_wait4-IsTidy}

module _ {K : Type 0} where
  -- What the exception handler sets before it dispatches: cur, cur_reply and defer_reply.
  abbrev pub turn : (p reply : ℕ) → Server K → Server K
  turn p reply s = record s { cur = p; cur_reply = reply; defer_reply = false }

  abbrev pub IsRunning : ℕ → Server K → Type 0
  IsRunning p s = (pid : ℕ) × (ppid : ℕ) × (slot_of (s.procs p) ≡ running pid ppid)

  -- What every state of a server satisfies.
  pub record IsSound (s : Server K) : Type 0 where
    pub inv : Inv (table s)
    pub tidy : IsTidy s
    pub rooted : Rooted s.root (table s)

  -- One operation that is a step of the table and keeps the flags and the variable `root`.
  pub step-IsSound :
      {s t : Server K}
      → Life (table s) (table t)
      → IsTidy t
      → t.root ≡ s.root
      → IsSound s
      → IsSound t
  step-IsSound {s} {t} step tidy same sound = record {
    inv = Life-Inv step sound.inv;
    tidy = tidy;
    rooted = rw same (Life-Rooted s.root step sound.inv sound.rooted);
  }

  pub turn-IsSound : (p reply : ℕ) {s : Server K} → IsSound s → IsSound (turn p reply s)
  turn-IsSound p reply sound = record {
    inv = sound.inv;
    tidy = record { waits = sound.tidy.waits; kept = sound.tidy.kept };
    rooted = sound.rooted;
  }

  pub orphan : (s : Server K) → Rooted s.root (table s) → (s.procs s.root).ppid ≡ 0
  orphan s rooted = ground arith

module _ {K : Type 0} (host : Host K) where
  -- The histories of a server, with whatever guest runs next and whatever it asks for.
  pub data Ran (s : Server K) : Server K → Type 0 where
    start : Ran s s
    guest_moves : {t : Server K} (k : K) → Ran s t → Ran s (record t { kernel = k })
    forks :
        {t : Server K} (p reply : ℕ) (st : Regs)
        → IsRunning p t
        → Ran s t
        → Ran s (sys_fork host st (turn p reply t)).1
    exits :
        {t : Server K} (p reply status : ℕ)
        → IsRunning p t
        → Ran s t
        → Ran s (proc_exited host p status (turn p reply t)).1
    waits :
        {t : Server K} (p reply : ℕ) (pid : ℤ) (status_addr options : ℕ)
        → IsRunning p t
        → Ran s t
        → Ran s (sys_wait4 host pid status_addr options (turn p reply t)).1

  pub sys_fork-IsSound :
      (st : Regs) (s : Server K) → IsRunning s.cur s → IsSound s → IsSound (sys_fork host st s).1
  sys_fork-IsSound st s (pid, ppid, up) sound =
      step-IsSound (sys_fork-Life host st s pid ppid up) (sys_fork-IsTidy host st s sound.tidy)
        (ap (λ g. g.0) (sys_fork-globals host st s)) sound

  pub proc_exited-IsSound :
      (p status : ℕ) (s : Server K)
      → IsRunning p s
      → IsSound s
      → IsSound (proc_exited host p status s).1
  proc_exited-IsSound p status s (pid, ppid, up) sound =
      step-IsSound
        (proc_exited-Life host p status s pid ppid up sound.tidy sound.inv (orphan s sound.rooted))
        (proc_exited-IsTidy host p status s (ground arith) sound.tidy)
        (ap (λ g. g.0) (proc_exited-globals host p status s)) sound

  pub sys_wait4-IsSound :
      (pid : ℤ) (status_addr options : ℕ) (s : Server K)
      → IsRunning s.cur s
      → IsSound s
      → IsSound (sys_wait4 host pid status_addr options s).1
  sys_wait4-IsSound pid status_addr options s (own, ppid, up) sound =
      step-IsSound (sys_wait4-Life host pid status_addr options s own ppid up sound.tidy)
        (sys_wait4-IsTidy host pid status_addr options s (ground arith) sound.tidy)
        (sys_wait4-root host pid status_addr options s) sound

  -- Whatever the guests do, forks, exits and waits of running processes keep every state sound.
  pub Ran-IsSound : {s t : Server K} → Ran s t → IsSound s → IsSound t
  Ran-IsSound start sound = sound
  Ran-IsSound (guest_moves k h) sound =
      let before = Ran-IsSound h sound in
      record {
        inv = before.inv;
        tidy = record { waits = before.tidy.waits; kept = before.tidy.kept };
        rooted = before.rooted;
      }
  Ran-IsSound (forks {t} p reply st up h) sound =
      sys_fork-IsSound st (turn p reply t) up (turn-IsSound p reply (Ran-IsSound h sound))
  Ran-IsSound (exits {t} p reply status up h) sound =
      proc_exited-IsSound p status (turn p reply t) up (turn-IsSound p reply (Ran-IsSound h sound))
  Ran-IsSound (waits {t} p reply pid status_addr options up h) sound =
      sys_wait4-IsSound pid status_addr options (turn p reply t) up
        (turn-IsSound p reply (Ran-IsSound h sound))
