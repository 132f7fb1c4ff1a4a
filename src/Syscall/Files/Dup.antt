-- ===== src/Syscall/Files/Dup.antt =====
-- linux-personality/oryxlinux.c: dup2 onto another entry of the table.
use oryx_hurd.Base.{ℕ, ◌≡◌, ◌≢◌, ℤ, pos, to_int32}
use oryx_hurd.Host.{Host, Outcome, ok, fail}
use oryx_hurd.Server.{Server, me}
use oryx_hurd.Errno.{HostErrno, ret_err}

module _ {K : Type 0} (host : Host K) (names : HostErrno) where
  -- The host refused the copy, or entry `a2` of the caller holds it and no other entry changed.
  abbrev pub Copied : (a2 : ℕ) → Server K → Outcome ℕ → ℤ × Server K → Type 0
  Copied a2 s (fail e) r = (r.0 ≡ ret_err names e) × ((j : ℕ) → r.1.procs j ≡ s.procs j)
  Copied a2 s (ok n) r =
      (r.0 ≡ to_int32 a2)
      × ((me r.1).fd a2 ≡ pos n)
      × ((i : ℕ) → a2 ≢ i → (me r.1).fd i ≡ (me s).fd i)
      × ((j : ℕ) → s.cur ≢ j → r.1.procs j ≡ s.procs j)
