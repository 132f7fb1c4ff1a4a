-- ===== src/Syscall/Mem/Results.antt =====
-- linux-personality/oryxlinux.c: what brk and mmap return and change.
use oryx_hurd.Base.{ℕ, ◌≤◌, ◌≡◌, ◌≢◌, ◌⊎◌, ℤ, to_int32}
use oryx_hurd.Host.{Host}
use oryx_hurd.Server.{Server, me}

module _ {K : Type 0} (host : Host K) where
  -- The two results of brk: the old break, which stays, or the one asked for.
  abbrev pub Broke : (want : ℕ) → Server K → ℤ × Server K → Type 0
  Broke want s r =
      ((r.0 ≡ to_int32 (me s).brk_hi) × ((j : ℕ) → r.1.procs j ≡ s.procs j))
      ⊎ ((r.0 ≡ to_int32 want)
          × ((me s).brk_lo ≤ want)
          × ((me r.1).brk_hi ≡ want)
          × ((me r.1).brk_lo ≡ (me s).brk_lo)
          × ((j : ℕ) → s.cur ≢ j → r.1.procs j ≡ s.procs j))
