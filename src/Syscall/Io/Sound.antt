-- ===== src/Syscall/Io/Sound.antt =====
-- linux-personality/oryxlinux.c: read, write, readv, writev and nanosleep keep the server sound if
-- what the other workers do while the lock is free keeps it sound, and never withhold a reply.
use oryx_hurd.Base.{◌≡◌, refl, false, St}
use oryx_hurd.Server.{Server, lift, unlocked, resume}
use oryx_hurd.Process.History.{IsSound}
use oryx_hurd.Process.Quiet.{Quiet-IsSound, Alike-IsSound}

-- The reply to the message of the worker is not withheld.
abbrev pub IsOwed : {K : Type 0} → Server K → Type 0
IsOwed t = t.defer_reply ≡ false

module _ {K : Type 0} where
  pub kernel-IsSound : (s : Server K) (k : K) → IsSound s → IsSound (record s { kernel = k })
  kernel-IsSound s k sound = Quiet-IsSound s (record s { kernel = k }) (λ j. refl) sound

  pub kernel-IsOwed : (s : Server K) (k : K) → IsOwed s → IsOwed (record s { kernel = k })
  kernel-IsOwed s k owed = owed

  -- Whatever the other workers do, `resume` restores what this one knows.
  pub unlocked-IsOwed :
      (others : Server K → Server K) (A : Type 0) (f : St K A) (s : Server K)
      → IsOwed s
      → IsOwed (unlocked others f s).1
  unlocked-IsOwed others A f s owed = owed

module _ {K : Type 0} (others : Server K → Server K)
    (fair : (s : Server K) → IsSound s → IsSound (others s)) where
  resume-IsSound : (s t : Server K) → IsSound t → IsSound (resume s t)
  resume-IsSound s t sound = Alike-IsSound t (resume s t) (λ j. refl) sound

  pub unlocked-IsSound :
      (A : Type 0) (f : St K A) (s : Server K) → IsSound s → IsSound (unlocked others f s).1
  unlocked-IsSound A f s sound =
      let t = resume s (others s) in
      let r = lift f t in
      resume-IsSound s (others r.1)
        (fair r.1 (kernel-IsSound t r.1.kernel (resume-IsSound s (others s) (fair s sound))))
