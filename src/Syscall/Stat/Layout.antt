-- ===== src/Syscall/Stat/Layout.antt =====
-- linux-personality/oryxlinux.c: struct linux_stat64 and struct linux_statx as a guest reads them,
-- at the offsets of the i386's interface.
use oryx_hurd.Base.{
  ℕ, zero, suc, ◌+◌, ◌*◌, ◌/◌, ◌%◌, ◌^◌, ◌<◌, ◌≡◌, refl, List, [], ◌++◌, length, drop, arith,
}
use oryx_hurd.Host.{HostStat}
use oryx_hurd.Syscall.Stat.{le_bytes, fill_stat64, fill_statx, statx_ts}
use oryx_hurd.Syscall.Dirs.Parse.{le_value, capacity}

-- What a field keeps of a number, and the rest of the number.
le_value-rest :
    (n v : ℕ) (after : List ℕ)
    → let kept = le_value n (le_bytes n v ++ after) in
      (q : ℕ) × (kept < capacity n) × (v ≡ kept + q * capacity n)
unfolding le_value le_bytes
le_value-rest zero v after = (v, omega arith, omega arith)
le_value-rest (suc n) v after =
    let (q, small, whole) = le_value-rest n (v / 256) after in (q, omega arith, grind arith)

word2 : (v : ℕ) (after : List ℕ) → le_value 2 (le_bytes 2 v ++ after) ≡ v % 2 ^ 16
word2 v after = let (q, small, whole) = le_value-rest 2 v after in omega arith

word4 : (v : ℕ) (after : List ℕ) → le_value 4 (le_bytes 4 v ++ after) ≡ v % 2 ^ 32
word4 v after = let (q, small, whole) = le_value-rest 4 v after in omega arith

word8 : (v : ℕ) (after : List ℕ) → le_value 8 (le_bytes 8 v ++ after) ≡ v % 2 ^ 64
word8 v after = let (q, small, whole) = le_value-rest 8 v after in omega arith

-- struct stat64 of the i386's interface: what a guest reads at the offsets of its fields.
abbrev pub ReadsStat64 : HostStat → List ℕ → Type 0
ReadsStat64 s b =
    (length b ≡ 96)
    × (le_value 8 b ≡ s.st_dev % 2 ^ 64)
    × (le_value 4 (drop 12 b) ≡ s.st_ino % 2 ^ 32)
    × (le_value 4 (drop 16 b) ≡ s.st_mode % 2 ^ 32)
    × (le_value 4 (drop 20 b) ≡ s.st_nlink % 2 ^ 32)
    × (le_value 4 (drop 24 b) ≡ s.st_uid % 2 ^ 32)
    × (le_value 4 (drop 28 b) ≡ s.st_gid % 2 ^ 32)
    × (le_value 8 (drop 32 b) ≡ s.st_rdev % 2 ^ 64)
    × (le_value 8 (drop 44 b) ≡ s.st_size % 2 ^ 64)
    × (le_value 4 (drop 52 b) ≡ s.st_blksize % 2 ^ 32)
    × (le_value 8 (drop 56 b) ≡ s.st_blocks % 2 ^ 64)
    × (le_value 4 (drop 64 b) ≡ s.st_atime % 2 ^ 32)
    × (le_value 4 (drop 68 b) ≡ 0)
    × (le_value 4 (drop 72 b) ≡ s.st_mtime % 2 ^ 32)
    × (le_value 4 (drop 76 b) ≡ 0)
    × (le_value 4 (drop 80 b) ≡ s.st_ctime % 2 ^ 32)
    × (le_value 4 (drop 84 b) ≡ 0)
    × (le_value 8 (drop 88 b) ≡ s.st_ino % 2 ^ 64)

pub fill_stat64-Reads : (s : HostStat) → ReadsStat64 s (fill_stat64 s)
unfolding fill_stat64 le_bytes
fill_stat64-Reads s = (
  refl,
  word8 s.st_dev _,
  word4 s.st_ino _,
  word4 s.st_mode _,
  word4 s.st_nlink _,
  word4 s.st_uid _,
  word4 s.st_gid _,
  word8 s.st_rdev _,
  word8 s.st_size _,
  word4 s.st_blksize _,
  word8 s.st_blocks _,
  word4 s.st_atime _,
  word4 0 _,
  word4 s.st_mtime _,
  word4 0 _,
  word4 s.st_ctime _,
  word4 0 _,
  word8 s.st_ino [],
)

-- struct statx, its size and the fields that the emulator fills; the mask is that of the basic ones.
abbrev pub ReadsStatx : HostStat → List ℕ → Type 0
ReadsStatx s b =
    (length b ≡ 256)
    × (le_value 4 b ≡ 0x7ff)
    × (le_value 4 (drop 4 b) ≡ s.st_blksize % 2 ^ 32)
    × (le_value 4 (drop 16 b) ≡ s.st_nlink % 2 ^ 32)
    × (le_value 4 (drop 20 b) ≡ s.st_uid % 2 ^ 32)
    × (le_value 4 (drop 24 b) ≡ s.st_gid % 2 ^ 32)
    × (le_value 2 (drop 28 b) ≡ s.st_mode % 2 ^ 16)
    × (le_value 8 (drop 32 b) ≡ s.st_ino % 2 ^ 64)
    × (le_value 8 (drop 40 b) ≡ s.st_size % 2 ^ 64)
    × (le_value 8 (drop 48 b) ≡ s.st_blocks % 2 ^ 64)
    × (le_value 8 (drop 64 b) ≡ s.st_atime % 2 ^ 64)
    × (le_value 8 (drop 96 b) ≡ s.st_ctime % 2 ^ 64)
    × (le_value 8 (drop 112 b) ≡ s.st_mtime % 2 ^ 64)
    × (le_value 4 (drop 128 b) ≡ s.st_rdev / 256 % 4096)
    × (le_value 4 (drop 132 b) ≡ s.st_rdev % 256)
    × (le_value 4 (drop 136 b) ≡ s.st_dev / 256 % 4096)
    × (le_value 4 (drop 140 b) ≡ s.st_dev % 256)

pub fill_statx-Reads : (s : HostStat) → ReadsStatx s (fill_statx s)
unfolding fill_statx le_bytes statx_ts
fill_statx-Reads s = (
  refl,
  word4 0x7ff _,
  word4 s.st_blksize _,
  word4 s.st_nlink _,
  word4 s.st_uid _,
  word4 s.st_gid _,
  word2 s.st_mode _,
  word8 s.st_ino _,
  word8 s.st_size _,
  word8 s.st_blocks _,
  word8 s.st_atime _,
  word8 s.st_ctime _,
  word8 s.st_mtime _,
  omega (arith, word4 (s.st_rdev / 256 % 4096) (drop 132 (fill_statx s))),
  omega (arith, word4 (s.st_rdev % 256) (drop 136 (fill_statx s))),
  omega (arith, word4 (s.st_dev / 256 % 4096) (drop 140 (fill_statx s))),
  omega (arith, word4 (s.st_dev % 256) (drop 144 (fill_statx s))),
)
