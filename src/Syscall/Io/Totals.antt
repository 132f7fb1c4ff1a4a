-- ===== src/Syscall/Io/Totals.antt =====
-- linux-personality/oryxlinux.c: the totals of writev and readv.
use oryx_hurd.Base.{
  ℕ, zero, suc, ◌+◌, ◌*◌, ◌%◌, ◌^◌, ◌≤◌, ◌<◌, ◌≡◌, refl, Bool, true, false, Option, none, some,
  List, ℤ, pos, negsuc, neg, ltb, ◌==◌, if◌then◌else◌, min, to_int32, arith,
}
use oryx_hurd.Host.{Host}
use oryx_hurd.Server.{Server, me}
use oryx_hurd.Memory.{peek}
use oryx_hurd.Fd.{hfd}
use oryx_hurd.Errno.{HostErrno, linux_einval}
use oryx_hurd.Syscall.Io.{
  sys_write, sys_writev, writev_loop, readv_loop, Progress, stop, more, after_transfer, max_io,
  word_at, sys_read,
}
use oryx_hurd.Syscall.Io.Bounds.{ReadLaws, Transferred, sys_read-Transferred}
use oryx_hurd.Syscall.Io.Writes.{WriteLaws, sys_write-Transferred}

-- A transfer of at most 2 ^ 20 bytes that is added to a total.
abbrev Added : (total : ℕ) → Progress → Type 0
Added total (stop v) = Transferred (total + max_io) v
Added total (more t) = t ≤ total + max_io

to_int32-Transferred : (m n : ℕ) → n ≤ m → n < 2 ^ 31 → Transferred m (to_int32 n)
to_int32-Transferred m n fits small = ground arith

after_transfer-Added :
    (total len : ℕ) (v : ℤ)
    → total + max_io < 2 ^ 31
    → Transferred (min len max_io) v
    → Added total (after_transfer total len v)
unfolding after_transfer
after_transfer-Added total len (negsuc n) room moved = by_total (total == 0)
  where
    by_total : (b : Bool) → Transferred (total + max_io) (if b then negsuc n else to_int32 total)
    by_total true = moved
    by_total false = to_int32-Transferred _ total (omega arith) (omega arith)
after_transfer-Added total len (pos n) room moved = by_length (n == len)
  where
    by_length :
        (b : Bool)
        → Added total
            (if b then more ((total + n) % 2 ^ 32) else stop (to_int32 ((total + n) % 2 ^ 32)))
    by_length true = omega arith
    by_length false = to_int32-Transferred _ ((total + n) % 2 ^ 32) (omega arith) (omega arith)

Transferred-weaken : (m n : ℕ) (v : ℤ) → m ≤ n → Transferred m v → Transferred n v
Transferred-weaken m n (pos v) h moved = omega arith
Transferred-weaken m n (negsuc e) h moved = moved

module _ {K : Type 0} {host : Host K} (reads : ReadLaws host) (writes : WriteLaws host)
    (names : HostErrno) (others : Server K → Server K) where
  -- `rest` is the loop over the later entries.
  progress-Transferred :
      (bound total : ℕ) (p : Progress) (s : Server K) (rest : ℕ → ℤ × Server K)
      → Added total p
      → total + max_io ≤ bound
      → ((t : ℕ) → t ≤ total + max_io → Transferred bound (rest t).0)
      → Transferred bound (elim p as (λ _. ℤ × Server K) [ stop v ↦ (v, s) | more t ↦ rest t ]).0
  progress-Transferred bound total (stop v) s rest added room later =
      Transferred-weaken (total + max_io) bound v room added
  progress-Transferred bound total (more t) s rest added room later = later t added

  -- One entry: the transfer of `r`, and the loop over the later entries.
  entry-Transferred :
      (bound total len : ℕ) (r : ℤ × Server K) (rest : ℕ → Server K → ℤ × Server K)
      → Transferred (min len max_io) r.0
      → bound < 2 ^ 31
      → total + max_io ≤ bound
      → ((t : ℕ) (u : Server K) → t ≤ total + max_io → Transferred bound (rest t u).0)
      → Transferred bound
          (elim (after_transfer total len r.0) as (λ _. ℤ × Server K) [
            | stop v ↦ (v, r.1)
            | more t ↦ rest t r.1
          ]).0
  entry-Transferred bound total len r rest moved small room later =
      progress-Transferred bound total _ r.1 (λ t. rest t r.1)
        (after_transfer-Added total len r.0 (omega arith) moved) room (λ t h. later t r.1 h)

  skip-Transferred :
      (bound : ℕ) (b : Bool) (x y : ℤ × Server K)
      → Transferred bound x.0
      → Transferred bound y.0
      → Transferred bound (elim b as (λ _. ℤ × Server K) [ true ↦ x | false ↦ y ]).0
  skip-Transferred bound true x y left right = left
  skip-Transferred bound false x y left right = right

  writev_loop-Transferred :
      (fd : ℤ) (vec k i total : ℕ) (s : Server K)
      → total ≤ i * max_io
      → (i + k) * max_io < 2 ^ 31
      → Transferred ((i + k) * max_io) (writev_loop host names others fd vec k i total s).0
  unfolding writev_loop
  writev_loop-Transferred fd vec zero i total s small room =
      to_int32-Transferred _ total (omega arith) (omega arith)
  writev_loop-Transferred fd vec (suc k) i total s small room =
      by_entry (peek host (me s).task ((vec + i * 8) % 2 ^ 32) 8 s.kernel) (λ t u h.
        Transferred-weaken _ _ _ (omega arith)
          (writev_loop-Transferred fd vec k (suc i) t u h (omega arith)))
    where
      rest : ℕ → Server K → ℤ × Server K
      rest t u = writev_loop host names others fd vec k (suc i) t u

      Later : Type 0
      Later =
          (t : ℕ) (u : Server K)
          → t ≤ (suc i) * max_io
          → Transferred ((i + suc k) * max_io) (rest t u).0

      by_entry :
          (o : Option (List ℕ))
          → Later
          → Transferred
              ((i + suc k) * max_io)
              (elim o as (λ _. ℤ × Server K) [
                | none ↦ (neg 14, s)
                | some iov ↦ elim (word_at iov 4 == 0) [
                  | true ↦ rest total s
                  | false ↦
                      let r = sys_write host names others fd (word_at iov 0) (word_at iov 4) s in
                      elim (after_transfer total (word_at iov 4) r.0) [
                        | stop v ↦ (v, r.1)
                        | more t ↦ rest t r.1
                      ]
                ]
              ]).0
      by_entry none later = omega arith
      by_entry (some iov) later =
          let r = sys_write host names others fd (word_at iov 0) (word_at iov 4) s in
          skip-Transferred _ (word_at iov 4 == 0) _ _ (later total s (omega arith)) (
            entry-Transferred _ total (word_at iov 4) r rest
              (sys_write-Transferred writes names others fd (word_at iov 0) (word_at iov 4) s) room
              (omega arith) (λ t u h. later t u (omega arith)))

  -- writev gives at most 2 ^ 20 bytes for each entry, of which it takes 1024, so its total does not
  -- reach 2 ^ 31.
  sys_writev-Transferred :
      (fd : ℤ) (vec cnt : ℕ) (s : Server K)
      → Transferred (min cnt 1024 * max_io) (sys_writev host names others fd vec cnt s).0
  unfolding sys_writev
  sys_writev-Transferred fd vec cnt s = by_count (ltb 1024 cnt) refl
    where
      by_count :
          (b : Bool)
          → ltb 1024 cnt ≡ b
          → Transferred
              (min cnt 1024 * max_io)
              (if b
                then (neg linux_einval, s)
                else writev_loop host names others fd vec cnt 0 0 s).0
      by_count true e = omega arith
      by_count false e =
          Transferred-weaken ((0 + cnt) * max_io) _ _ (ground arith)
            (writev_loop-Transferred fd vec cnt 0 0 s (omega arith) (ground arith))

  readv_loop-Transferred :
      (gfd vec k i total : ℕ) (s : Server K)
      → total ≤ i * max_io
      → (i + k) * max_io < 2 ^ 31
      → Transferred ((i + k) * max_io) (readv_loop host names others gfd vec k i total s).0
  unfolding readv_loop
  readv_loop-Transferred gfd vec zero i total s small room =
      to_int32-Transferred _ total (omega arith) (omega arith)
  readv_loop-Transferred gfd vec (suc k) i total s small room =
      by_entry (peek host (me s).task ((vec + i * 8) % 2 ^ 32) 8 s.kernel) (λ t u h.
        Transferred-weaken _ _ _ (omega arith)
          (readv_loop-Transferred gfd vec k (suc i) t u h (omega arith)))
    where
      rest : ℕ → Server K → ℤ × Server K
      rest t u = readv_loop host names others gfd vec k (suc i) t u

      Later : Type 0
      Later =
          (t : ℕ) (u : Server K)
          → t ≤ (suc i) * max_io
          → Transferred ((i + suc k) * max_io) (rest t u).0

      by_entry :
          (o : Option (List ℕ))
          → Later
          → Transferred
              ((i + suc k) * max_io)
              (elim o as (λ _. ℤ × Server K) [
                | none ↦ (neg 14, s)
                | some iov ↦
                    let r =
                      sys_read host names others
                        (hfd (me s) gfd)
                        (word_at iov 0)
                        (word_at iov 4)
                        s in
                    elim (after_transfer total (word_at iov 4) r.0) [
                      | stop v ↦ (v, r.1)
                      | more t ↦ rest t r.1
                    ]
              ]).0
      by_entry none later = omega arith
      by_entry (some iov) later =
          let r = sys_read host names others (hfd (me s) gfd) (word_at iov 0) (word_at iov 4) s in
          entry-Transferred _ total (word_at iov 4) r rest
            (sys_read-Transferred reads names others (hfd (me s) gfd) (word_at iov 0)
              (word_at iov 4) s)
            room (omega arith) (λ t u h. later t u (omega arith))

  -- read and write give at most the bytes asked for and at most 2 ^ 20; writev at most 2 ^ 20 for each
  -- of its entries, of which it takes 1024, so its total stays below 2 ^ 31; readv at most 2 ^ 20 for
  -- each of its entries if these are fewer than 2048. Otherwise the result is a Linux error.
  pub transfers_bounded :
      (fd : ℤ) (buf len gfd vec cnt n : ℕ) (s : Server K)
      → n < 2048
      → Transferred (min len max_io) (sys_read host names others fd buf len s).0
        × Transferred (min len max_io) (sys_write host names others fd buf len s).0
        × Transferred (min cnt 1024 * max_io) (sys_writev host names others fd vec cnt s).0
        × Transferred (n * max_io) (readv_loop host names others gfd vec n 0 0 s).0
  transfers_bounded fd buf len gfd vec cnt n s few = (
    sys_read-Transferred reads names others fd buf len s,
    sys_write-Transferred writes names others fd buf len s,
    sys_writev-Transferred fd vec cnt s,
    Transferred-weaken ((0 + n) * max_io) _ _ (omega arith)
        (readv_loop-Transferred gfd vec n 0 0 s (omega arith) (omega arith)),
  )
