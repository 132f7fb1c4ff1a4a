-- ===== src/Syscall/Clock.antt =====
-- linux-personality/oryxlinux.c: the cases of dispatch that read a clock, sleep, give out random
-- bytes, or say what the machine is.
use oryx_hurd.Base.{
  ℕ, zero, suc, ◌-◌, ◌*◌, ◌%◌, ◌^◌, none, some, List, [], ◌∷◌, ◌++◌, ℤ, pos, neg, to_int32, St,
  pure, ◌>>=◌, ◌==◌, if◌then◌else◌, length, max, replicate,
}
use oryx_hurd.Host.{Host, Outcome, ok, fail}
use oryx_hurd.Server.{Server, me, lift, unlocked}
use oryx_hurd.Memory.{peek, poke}
use oryx_hurd.Fd.{hfd}
use oryx_hurd.Process.{word_bytes, linux_efault}
use oryx_hurd.Errno.{HostErrno, ret_err}
use oryx_hurd.Syscall.{result_zero}
use oryx_hurd.Syscall.Io.{word_at, linux_enomem}
use oryx_hurd.Syscall.Stat.{le_bytes}

abbrev pub linux_enotty : ℕ
linux_enotty = 25

-- One field of struct utsname, 65 bytes.
unfoldable pub uts_field : List ℕ → List ℕ
uts_field name = name ++ replicate (65 - length name) 0

-- The six fields, given as the bytes of the source's strings.
unfoldable pub utsname : List ℕ
utsname =
    -- Linux
    uts_field (0x4c ∷ 0x69 ∷ 0x6e ∷ 0x75 ∷ 0x78 ∷ [])
    -- oryx
    ++ (uts_field (0x6f ∷ 0x72 ∷ 0x79 ∷ 0x78 ∷ [])
        -- 4.4.0-oryx
        ++ (uts_field (0x34 ∷ 0x2e ∷ 0x34 ∷ 0x2e ∷ 0x30 ∷ 0x2d ∷ 0x6f ∷ 0x72 ∷ 0x79 ∷ 0x78 ∷ [])
            -- #1 Oryx Hurd linux-personality
            ++ (uts_field (
                  0x23 ∷ 0x31 ∷ 0x20 ∷ 0x4f ∷ 0x72 ∷ 0x79 ∷ 0x78 ∷ 0x20 ∷ 0x48 ∷ 0x75 ∷ 0x72 ∷ 0x64
                  ∷ 0x20 ∷ 0x6c ∷ 0x69 ∷ 0x6e ∷ 0x75 ∷ 0x78 ∷ 0x2d ∷ 0x70 ∷ 0x65 ∷ 0x72 ∷ 0x73
                  ∷ 0x6f ∷ 0x6e ∷ 0x61 ∷ 0x6c ∷ 0x69 ∷ 0x74 ∷ 0x79 ∷ [])
                -- i686
                ++ (uts_field (0x69 ∷ 0x36 ∷ 0x38 ∷ 0x36 ∷ [])
                    -- (none)
                    ++ uts_field (0x28 ∷ 0x6e ∷ 0x6f ∷ 0x6e ∷ 0x65 ∷ 0x29 ∷ [])))))

module _ {K : Type 0} (host : Host K) where
  -- poke(addr, ...) < 0 ? -LINUX_EFAULT : r
  unfoldable pub give : (addr : ℕ) → List ℕ → ℤ → St (Server K) ℤ
  give addr bytes r s =
      (do
        written ← lift (poke host (me s).task addr bytes)
        pure (if written then r else neg linux_efault))
        s

  -- The same for an address that may be NULL.
  unfoldable pub give_if : (addr : ℕ) → List ℕ → ℤ → St (Server K) ℤ
  give_if addr bytes r s = if addr == 0 then (r, s) else give addr bytes r s

  unfoldable pub sys_uname : ℕ → St (Server K) ℤ
  sys_uname buf = give buf utsname (pos 0)

  -- Case 13: the result of time is a long, as the clock's seconds are.
  unfoldable pub sys_time : ℕ → St (Server K) ℤ
  sys_time addr s =
      let sec = host.time s.kernel % 2 ^ 32 in give_if addr (word_bytes sec) (to_int32 sec) s

  -- Cases 78, 265 and 403.
  unfoldable pub sys_gettimeofday : ℕ → St (Server K) ℤ
  sys_gettimeofday addr s =
      let tv = host.gettimeofday s.kernel in
      give_if addr (word_bytes tv.0 ++ word_bytes tv.1) (pos 0) s

  unfoldable pub sys_clock_gettime : ℕ → St (Server K) ℤ
  sys_clock_gettime addr s =
      let tv = host.gettimeofday s.kernel in
      give_if addr (word_bytes tv.0 ++ word_bytes (tv.1 * 1000)) (pos 0) s

  unfoldable pub sys_clock_gettime64 : ℕ → St (Server K) ℤ
  sys_clock_gettime64 addr s =
      let tv = host.gettimeofday s.kernel in
      give_if addr (le_bytes 8 tv.0 ++ le_bytes 8 (tv.1 * 1000)) (pos 0) s

  -- Case 162: the lock is free while the host sleeps.
  unfoldable pub sys_nanosleep : HostErrno → (Server K → Server K) → ℕ → St (Server K) ℤ
  sys_nanosleep names others addr s = elim (peek host (me s).task addr 8 s.kernel) [
    | none ↦ (neg linux_efault, s)
    | some ts ↦
        let r = unlocked others (host.nanosleep (word_at ts 0) (word_at ts 4)) s in
        (result_zero names r.0, r.1)
  ]

  -- The `n` bytes that getrandom fills its buffer with.
  unfoldable pub chance : ℕ → St K (List ℕ)
  chance zero = pure []
  chance (suc n) = do r ← host.rand; rest ← chance n; pure (r % 256 ∷ rest)

  -- Case 355.
  unfoldable pub sys_getrandom : (addr len : ℕ) → St (Server K) ℤ
  sys_getrandom addr len = do
    got_tmp ← lift (host.malloc (max len 1))
    if got_tmp
        then (do bytes ← lift (chance len); give addr bytes (to_int32 len))
        else pure (neg linux_enomem)

  -- Case 54: the window size, and otherwise enough for isatty.
  unfoldable pub winsize : HostErrno → (addr : ℕ) → Outcome (ℕ × ℕ × ℕ × ℕ) → St (Server K) ℤ
  winsize names addr (fail e) s = (ret_err names e, s)
  winsize names addr (ok (row, col, x, y)) s =
      give addr (le_bytes 2 row ++ (le_bytes 2 col ++ (le_bytes 2 x ++ le_bytes 2 y))) (pos 0) s

  unfoldable pub sys_ioctl : HostErrno → (gfd request addr : ℕ) → St (Server K) ℤ
  sys_ioctl names gfd request addr s =
      let h = hfd (me s) gfd in
      if request == 0x5413
      then winsize names addr (host.window_size h s.kernel) s
      else (if host.isatty h s.kernel then pos 0 else neg linux_enotty, s)

  -- Case 191: no limit.
  unfoldable pub sys_ugetrlimit : ℕ → St (Server K) ℤ
  sys_ugetrlimit addr = give_if addr (replicate 8 255) (pos 0)
