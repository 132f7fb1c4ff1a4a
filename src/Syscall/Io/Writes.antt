-- ===== src/Syscall/Io/Writes.antt =====
-- linux-personality/oryxlinux.c: write gives no more than was asked for, and not more than 1 MB.
use oryx_hurd.Base.{
  ℕ, ◌-◌, ◌≤◌, ◌≡◌, refl, Bool, true, false, Option, none, some, List, [], ℤ, pos, negsuc, neg,
  pure, ◌==◌, if◌then◌else◌, length, drop, length-take, min, max, arith,
}
use oryx_hurd.Host.{Host, Outcome, ok, fail}
use oryx_hurd.Server.{Server, me, lift}
use oryx_hurd.Memory.{peek, peek_slice, page_down, page_span}
use oryx_hurd.Errno.{HostErrno}
use oryx_hurd.Errno.Range.{ret_err_range}
use oryx_hurd.Syscall.{result}
use oryx_hurd.Syscall.Io.{sys_write, write_bytes, max_io, linux_enomem}
use oryx_hurd.Syscall.Io.Bounds.{Transferred}

-- write(fd, buf, n) gives n bytes at most.
pub record WriteLaws {K : Type 0} (host : Host K) : Type 0 where
  pub write_length :
      (fd : ℤ) (d : List ℕ) (k : K) (n : ℕ) → (host.write fd d k).0 ≡ ok n → n ≤ length d

module _ {K : Type 0} (host : Host K) where
  length-peek_slice :
      (off len : ℕ) (got d : List ℕ) → peek_slice host off len got ≡ some d → length d ≤ len
  unfolding peek_slice
  length-peek_slice off len got d e = ground (arith, length-take len (drop off got))

  length-peek :
      (task addr len : ℕ) (k : K) (d : List ℕ) → peek host task addr len k ≡ some d → length d ≤ len
  unfolding peek
  length-peek task addr len k d = by_length (len == 0)
    where
      by_read :
          (o : Option (List ℕ))
          → (elim o as (λ _. Option (List ℕ)) [
            | none ↦ none
            | some got ↦ peek_slice host (addr - page_down addr) len got
          ])
            ≡ some d
          → length d ≤ len
      by_read none e = absurd (ground arith)
      by_read (some got) e = length-peek_slice _ len got d e

      by_length :
          (b : Bool)
          → (if b
              then some []
              else elim (host.vm_read task (page_down addr) (page_span addr len) k)
                  as (λ _. Option (List ℕ)) [
                    | none ↦ none
                    | some got ↦ peek_slice host (addr - page_down addr) len got
                  ])
            ≡ some d
          → length d ≤ len
      by_length true e = ground arith
      by_length false e = by_read (host.vm_read task (page_down addr) (page_span addr len) k) e

module _ {K : Type 0} {host : Host K} (laws : WriteLaws host) (names : HostErrno)
    (others : Server K → Server K) where
  result-Transferred :
      (n : ℕ) (o : Outcome ℕ) → ((m : ℕ) → o ≡ ok m → m ≤ n) → Transferred n (result names o)
  result-Transferred n (ok m) fits = fits m refl
  result-Transferred n (fail e) fits = ground (arith, ret_err_range names e)

  write_bytes-Transferred :
      (fd : ℤ) (n : ℕ) (o : Option (List ℕ)) (s : Server K)
      → ((d : List ℕ) → o ≡ some d → length d ≤ n)
      → Transferred n (write_bytes host names others fd o s).0
  unfolding write_bytes
  write_bytes-Transferred fd n none s short = omega arith
  write_bytes-Transferred fd n (some d) s short =
      result-Transferred n _ (λ m e. omega (arith, laws.write_length fd d _ m e, short d refl))

  pub sys_write-Transferred :
      (fd : ℤ) (buf len : ℕ) (s : Server K)
      → Transferred (min len max_io) (sys_write host names others fd buf len s).0
  unfolding sys_write
  sys_write-Transferred (negsuc n) buf len s = omega arith
  sys_write-Transferred (pos fd) buf len s =
      let size = min len max_io in let got = lift (host.malloc (max size 1)) s in branch got.0 got.1
    where
      branch :
          (b : Bool) (t : Server K)
          → let size = min len max_io in
            Transferred size
              ((if b
                  then (λ u.
                      write_bytes host names others
                        (pos fd)
                        (peek host (me u).task buf size u.kernel)
                        u)
                  else pure (neg linux_enomem))
                t).0
      branch true t =
          write_bytes-Transferred (pos fd) _ _ t
            (λ d e. length-peek host (me t).task buf _ t.kernel d e)
      branch false t = omega arith
