-- ===== src/Syscall/Io/Bounds.antt =====
-- linux-personality/oryxlinux.c: read gives no more than was asked for, and not more than 1 MB.
use oryx_hurd.Base.{
  ℕ, ◌+◌, ◌≤◌, ◌≡◌, refl, Bool, true, false, List, [], ◌∷◌, ℤ, pos, negsuc, neg, pure, ◌>>=◌,
  if◌then◌else◌, length, min, max, arith,
}
use oryx_hurd.Host.{Host, Outcome, ok, fail}
use oryx_hurd.Server.{Server, lift, unlocked}
use oryx_hurd.Errno.{HostErrno}
use oryx_hurd.Errno.Range.{ret_err_range}
use oryx_hurd.Syscall.Io.{sys_read, read_done, max_io, linux_enomem}

-- read(fd, buf, n) gives n bytes at most.
pub record ReadLaws {K : Type 0} (host : Host K) : Type 0 where
  pub read_length :
      (fd : ℤ) (n : ℕ) (k : K) (d : List ℕ) → (host.read fd n k).0 ≡ ok d → length d ≤ n

-- A number of bytes that is at most `n`, or a negated error number from 1 to 40.
abbrev pub Transferred : ℕ → ℤ → Type 0
Transferred n (pos m) = m ≤ n
Transferred n (negsuc e) = e + 1 ≤ 40

module _ {K : Type 0} {host : Host K} (laws : ReadLaws host) (names : HostErrno)
    (others : Server K → Server K) where
  read_done-Transferred :
      (buf n : ℕ) (o : Outcome (List ℕ)) (s : Server K)
      → ((d : List ℕ) → o ≡ ok d → length d ≤ n)
      → Transferred n (read_done host names others buf o s).0
  unfolding read_done
  read_done-Transferred buf n (fail e) s fits = ground (arith, ret_err_range names e)
  read_done-Transferred buf n (ok []) s fits = omega arith
  read_done-Transferred buf n (ok (b ∷ bytes)) s fits = ground (arith, fits (b ∷ bytes) refl)

  -- read returns at most as many bytes as the guest asked for and at most 2 ^ 20, or an error
  -- number of Linux.
  pub sys_read-Transferred :
      (fd : ℤ) (buf len : ℕ) (s : Server K)
      → Transferred (min len max_io) (sys_read host names others fd buf len s).0
  unfolding sys_read
  sys_read-Transferred (negsuc n) buf len s = omega arith
  sys_read-Transferred (pos fd) buf len s =
      let size = min len max_io in let got = lift (host.malloc (max size 1)) s in branch got.0 got.1
    where
      branch :
          (b : Bool) (t : Server K)
          → let size = min len max_io in
            Transferred size
              ((if b
                  then (unlocked others (host.read (pos fd) size) >>= λ r.
                      read_done host names others buf r)
                  else pure (neg linux_enomem))
                t).0
      branch true t =
          let r = unlocked others (host.read (pos fd) (min len max_io)) t in
          read_done-Transferred buf (min len max_io) r.0 r.1
            (λ d e. laws.read_length (pos fd) _ _ d e)
      branch false t = omega arith
