-- ===== src/Syscall/Stat.antt =====
-- linux-personality/oryxlinux.c: struct linux_stat64, struct linux_statx, fill_stat64, fill_statx
-- and the cases of dispatch that fill them. A packed structure is its bytes in memory order.
pub mod Layout
pub mod Filled
use oryx_hurd.Base.{
  ℕ, zero, suc, ◌/◌, ◌%◌, Bool, true, false, not, ◌&&◌, List, [], ◌∷◌, ◌++◌, ℤ, pos, neg, St, pure,
  ◌>>=◌, ◌==◌, bit, if◌then◌else◌, replicate,
}
use oryx_hurd.Host.{Host, HostStat, Outcome, ok, fail}
use oryx_hurd.Server.{Server, me, lift}
use oryx_hurd.Memory.{poke}
use oryx_hurd.Fd.{hfd}
use oryx_hurd.Process.{linux_efault}
use oryx_hurd.Errno.{HostErrno, ret_err}
use oryx_hurd.Syscall.Files.{with_path, resolve, starts_with_slash}

abbrev pub linux_enosys : ℕ
linux_enosys = 38

-- An unsigned field of `n` bytes, low byte first.
unfoldable pub le_bytes : ℕ → ℕ → List ℕ
le_bytes zero v = []
le_bytes (suc n) v = v % 256 ∷ le_bytes n (v / 256)

unfoldable pub fill_stat64 : HostStat → List ℕ
fill_stat64 s =
    le_bytes 8 s.st_dev
    ++ (le_bytes 4 0
        ++ (le_bytes 4 s.st_ino
            ++ (le_bytes 4 s.st_mode
                ++ (le_bytes 4 s.st_nlink
                    ++ (le_bytes 4 s.st_uid
                        ++ (le_bytes 4 s.st_gid
                            ++ (le_bytes 8 s.st_rdev
                                ++ (le_bytes 4 0
                                    ++ (le_bytes 8 s.st_size
                                        ++ (le_bytes 4 s.st_blksize
                                            ++ (le_bytes 8 s.st_blocks
                                                ++ (le_bytes 4 s.st_atime
                                                    ++ (le_bytes 4 0
                                                        ++ (le_bytes 4 s.st_mtime
                                                            ++ (le_bytes 4 0
                                                            ++ (le_bytes 4 s.st_ctime
                                                            ++ (le_bytes 4 0
                                                            ++ le_bytes 8 s.st_ino)))))))))))))))))

-- struct statx_ts
unfoldable pub statx_ts : ℕ → List ℕ
statx_ts sec = le_bytes 8 sec ++ (le_bytes 4 0 ++ le_bytes 4 0)

unfoldable pub fill_statx : HostStat → List ℕ
fill_statx s =
    le_bytes 4 0x7ff
    ++ (le_bytes 4 s.st_blksize
        ++ (le_bytes 8 0
            ++ (le_bytes 4 s.st_nlink
                ++ (le_bytes 4 s.st_uid
                    ++ (le_bytes 4 s.st_gid
                        ++ (le_bytes 2 s.st_mode
                            ++ (le_bytes 2 0
                                ++ (le_bytes 8 s.st_ino
                                    ++ (le_bytes 8 s.st_size
                                        ++ (le_bytes 8 s.st_blocks
                                            ++ (le_bytes 8 0
                                                ++ (statx_ts s.st_atime
                                                    ++ (statx_ts 0
                                                        ++ (statx_ts s.st_ctime
                                                            ++ (statx_ts s.st_mtime
                                                            ++ (le_bytes 4 (s.st_rdev / 256 % 4096)
                                                            ++ (le_bytes 4 (s.st_rdev % 256)
                                                            ++ (le_bytes 4 (s.st_dev / 256 % 4096)
                                                            ++ (le_bytes 4 (s.st_dev % 256)
                                                            ++ (le_bytes 8 0
                                                            ++ (le_bytes 4 0
                                                            ++ (le_bytes 4 0
                                                            ++ replicate 96 0))))))))))))))))))))))

-- AT_FDCWD, -100 as an unsigned word
abbrev pub at_fdcwd : ℕ
at_fdcwd = 0xffffff9c

abbrev pub is_empty : List ℕ → Bool
is_empty [] = true
is_empty (_ ∷ _) = false

module _ {K : Type 0} (host : Host K) (names : HostErrno) where
  -- From the host's result on: the structure goes to the guest.
  unfoldable pub stat_done : (HostStat → List ℕ) → (buf : ℕ) → Outcome HostStat → St (Server K) ℤ
  stat_done encode buf (fail e) s = (ret_err names e, s)
  stat_done encode buf (ok st) s =
      (do
        written ← lift (poke host (me s).task buf (encode st))
        pure (if written then pos 0 else neg linux_efault))
        s

  -- Cases 195 and 196.
  unfoldable pub sys_stat64 : (nr addr buf : ℕ) → St (Server K) ℤ
  sys_stat64 nr addr buf = with_path host addr (λ path s.
      let rp = resolve host s.sysroot path s.kernel in
      stat_done fill_stat64 buf
        (if nr == 195 then host.stat rp s.kernel else host.lstat rp s.kernel) s)

  -- Case 197.
  unfoldable pub sys_fstat64 : (gfd buf : ℕ) → St (Server K) ℤ
  sys_fstat64 gfd buf s = stat_done fill_stat64 buf (host.fstat (hfd (me s) gfd) s.kernel) s

  abbrev pub stat_path : (flags : ℕ) → List ℕ → Server K → Outcome HostStat
  stat_path flags path s =
      let rp = resolve host s.sysroot path s.kernel in
      if bit flags 8 then host.lstat rp s.kernel else host.stat rp s.kernel

  -- Case 300.
  unfoldable pub sys_fstatat64 : (dirfd addr buf flags : ℕ) → St (Server K) ℤ
  sys_fstatat64 dirfd addr buf flags = with_path host addr (λ path s.
      if not (dirfd == at_fdcwd) && not (starts_with_slash path)
      then (neg linux_enosys, s)
      else stat_done fill_stat64 buf (stat_path flags path s) s)

  -- Case 383: an empty path names the descriptor itself.
  unfoldable pub sys_statx : (dirfd addr flags buf : ℕ) → St (Server K) ℤ
  sys_statx dirfd addr flags buf = with_path host addr (λ path s.
      if is_empty path
      then stat_done fill_statx buf (host.fstat (hfd (me s) dirfd) s.kernel) s
      else if not (dirfd == at_fdcwd) && not (starts_with_slash path)
      then (neg linux_enosys, s)
      else stat_done fill_statx buf (stat_path flags path s) s)
