-- ===== src/Syscall/Io.antt =====
-- linux-personality/oryxlinux.c: sys_write, sys_read, sys_writev and readv. The lock is free while
-- the host reads or writes; `others` is what the other workers do then.
pub mod Keeps
pub mod Sound
pub mod Bounds
pub mod Writes
pub mod Totals
use oryx_hurd.Base.{
  ℕ, zero, suc, ◌+◌, ◌*◌, ◌%◌, ◌^◌, true, false, Option, none, some, List, [], ◌∷◌, ℤ, pos, negsuc,
  neg, St, pure, ◌>>=◌, ltb, ◌==◌, if◌then◌else◌, length, min, get_or, max, to_int32,
}
use oryx_hurd.Host.{Host, Outcome, ok, fail}
use oryx_hurd.Server.{Server, me, lift, unlocked}
use oryx_hurd.Memory.{peek, poke}
use oryx_hurd.Fd.{hfd}
use oryx_hurd.Process.{linux_efault}
use oryx_hurd.Errno.{HostErrno, ret_err, linux_einval}
use oryx_hurd.Syscall.{result}

abbrev pub linux_ebadf : ℕ
linux_ebadf = 9

abbrev pub linux_enomem : ℕ
linux_enomem = 12

-- The transfer limit, 1u << 20.
abbrev pub max_io : ℕ
max_io = 2 ^ 20

-- One 32-bit word of the guest, from four bytes.
abbrev pub word_at : List ℕ → ℕ → ℕ
word_at b i =
    get_or b i 0
    + get_or b (i + 1) 0 * 256
    + get_or b (i + 2) 0 * 65536
    + get_or b (i + 3) 0 * 16777216

-- What the loop of writev and readv does with the result of one transfer: stop at an error or a
-- short transfer, and otherwise go on with the new total. The total is a long of 32 bits, kept as
-- its word.
pub data Progress : Type 0 where
  stop : ℤ → Progress
  more : ℕ → Progress

unfoldable pub after_transfer : (total len : ℕ) → ℤ → Progress
after_transfer total len (negsuc n) = stop (if total == 0 then negsuc n else to_int32 total)
after_transfer total len (pos n) =
    let sum = (total + n) % 2 ^ 32 in if n == len then more sum else stop (to_int32 sum)

module _ {K : Type 0} (host : Host K) (names : HostErrno) (others : Server K → Server K) where
  -- From the bytes of the guest on: `none` is a failed peek.
  unfoldable pub write_bytes : ℤ → Option (List ℕ) → St (Server K) ℤ
  write_bytes fd none s = (neg linux_efault, s)
  write_bytes fd (some bytes) s =
      let r = unlocked others (host.write fd bytes) s in (result names r.0, r.1)

  unfoldable pub sys_write : ℤ → (buf len : ℕ) → St (Server K) ℤ
  sys_write (negsuc n) buf len s = (neg linux_ebadf, s)
  sys_write (pos fd) buf len s =
      let size = min len max_io in
      (do
        got_tmp ← lift (host.malloc (max size 1))
        if got_tmp
            then (λ t. write_bytes (pos fd) (peek host (me t).task buf size t.kernel) t)
            else pure (neg linux_enomem))
        s

  -- From the result of the host's read on: what was read goes to the guest.
  unfoldable pub read_done : ℕ → Outcome (List ℕ) → St (Server K) ℤ
  read_done buf (fail e) s = (ret_err names e, s)
  read_done buf (ok []) s = (pos 0, s)
  read_done buf (ok (b ∷ bytes)) s =
      let r = lift (poke host (me s).task buf (b ∷ bytes)) s in
      (if r.0 then pos (length (b ∷ bytes)) else neg linux_efault, r.1)

  unfoldable pub sys_read : ℤ → (buf len : ℕ) → St (Server K) ℤ
  sys_read (negsuc n) buf len s = (neg linux_ebadf, s)
  sys_read (pos fd) buf len s =
      let size = min len max_io in
      (do
        got_tmp ← lift (host.malloc (max size 1))
        if got_tmp
            then (unlocked others (host.read (pos fd) size) >>= λ r. read_done buf r)
            else pure (neg linux_enomem))
        s

  unfoldable pub writev_loop : ℤ → (vec k i total : ℕ) → St (Server K) ℤ
  writev_loop fd vec zero i total s = (to_int32 total, s)
  writev_loop fd vec (suc k) i total s =
      elim (peek host (me s).task ((vec + i * 8) % 2 ^ 32) 8 s.kernel) [
        | none ↦ (neg linux_efault, s)
        | some iov ↦ elim (word_at iov 4 == 0) [
          | true ↦ writev_loop fd vec k (suc i) total s
          | false ↦
              let r = sys_write fd (word_at iov 0) (word_at iov 4) s in
              elim (after_transfer total (word_at iov 4) r.0) [
                | stop v ↦ (v, r.1)
                | more t ↦ writev_loop fd vec k (suc i) t r.1
              ]
        ]
      ]

  unfoldable pub sys_writev : ℤ → (vec cnt : ℕ) → St (Server K) ℤ
  sys_writev fd vec cnt s =
      let rest = writev_loop fd vec cnt 0 0 s in
      if ltb 1024 cnt then (neg linux_einval, s) else rest

  -- Case 145. The descriptor is looked up for each entry. An entry of length 0 is read too, and the
  -- number of entries is not limited.
  unfoldable pub readv_loop : (gfd vec k i total : ℕ) → St (Server K) ℤ
  readv_loop gfd vec zero i total s = (to_int32 total, s)
  readv_loop gfd vec (suc k) i total s =
      elim (peek host (me s).task ((vec + i * 8) % 2 ^ 32) 8 s.kernel) [
        | none ↦ (neg linux_efault, s)
        | some iov ↦
            let r = sys_read (hfd (me s) gfd) (word_at iov 0) (word_at iov 4) s in
            elim (after_transfer total (word_at iov 4) r.0) [
              | stop v ↦ (v, r.1)
              | more t ↦ readv_loop gfd vec k (suc i) t r.1
            ]
      ]
