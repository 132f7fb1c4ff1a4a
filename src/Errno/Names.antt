-- ===== src/Errno/Names.antt =====
-- Each error name of the host becomes the number that Linux gives to that name on the i386.
use oryx_hurd.Base.{ℕ, ◌≡◌, ◌≢◌, refl, List, [], ◌∷◌, arith, get_elem?, some, zero, suc}
use oryx_hurd.Errno.{HostErrno, errno_cases, switch_errno, errno_to_linux}

-- `v` is none of the values, and the values are distinct.
abbrev pub Misses : ℕ → List ℕ → Type 0
Misses v [] = Unit {0}
Misses v (x ∷ xs) = (x ≢ v) × Misses v xs

abbrev pub Distinct : List ℕ → Type 0
Distinct [] = Unit {0}
Distinct (x ∷ xs) = Misses x xs × Distinct xs

-- The host's values of the 34 names.
abbrev pub host_values : HostErrno → List ℕ
host_values h =
    h.eperm ∷ h.enoent ∷ h.esrch ∷ h.eintr ∷ h.eio ∷ h.enxio ∷ h.e2big ∷ h.enoexec ∷ h.ebadf
    ∷ h.echild ∷ h.eagain ∷ h.enomem ∷ h.eacces ∷ h.efault ∷ h.ebusy ∷ h.eexist ∷ h.exdev ∷ h.enodev
    ∷ h.enotdir ∷ h.eisdir ∷ h.einval ∷ h.enfile ∷ h.emfile ∷ h.enotty ∷ h.efbig ∷ h.enospc
    ∷ h.espipe ∷ h.erofs ∷ h.emlink ∷ h.epipe ∷ h.erange ∷ h.enametoolong ∷ h.enotempty ∷ h.eloop
    ∷ []

-- The numbers of Linux, from its header errno.h.
abbrev pub LinuxNumbers : HostErrno → Type 0
LinuxNumbers h =
    (errno_to_linux h h.eperm ≡ 1)
    × (errno_to_linux h h.enoent ≡ 2)
    × (errno_to_linux h h.esrch ≡ 3)
    × (errno_to_linux h h.eintr ≡ 4)
    × (errno_to_linux h h.eio ≡ 5)
    × (errno_to_linux h h.enxio ≡ 6)
    × (errno_to_linux h h.e2big ≡ 7)
    × (errno_to_linux h h.enoexec ≡ 8)
    × (errno_to_linux h h.ebadf ≡ 9)
    × (errno_to_linux h h.echild ≡ 10)
    × (errno_to_linux h h.eagain ≡ 11)
    × (errno_to_linux h h.enomem ≡ 12)
    × (errno_to_linux h h.eacces ≡ 13)
    × (errno_to_linux h h.efault ≡ 14)
    × (errno_to_linux h h.ebusy ≡ 16)
    × (errno_to_linux h h.eexist ≡ 17)
    × (errno_to_linux h h.exdev ≡ 18)
    × (errno_to_linux h h.enodev ≡ 19)
    × (errno_to_linux h h.enotdir ≡ 20)
    × (errno_to_linux h h.eisdir ≡ 21)
    × (errno_to_linux h h.einval ≡ 22)
    × (errno_to_linux h h.enfile ≡ 23)
    × (errno_to_linux h h.emfile ≡ 24)
    × (errno_to_linux h h.enotty ≡ 25)
    × (errno_to_linux h h.efbig ≡ 27)
    × (errno_to_linux h h.enospc ≡ 28)
    × (errno_to_linux h h.espipe ≡ 29)
    × (errno_to_linux h h.erofs ≡ 30)
    × (errno_to_linux h h.emlink ≡ 31)
    × (errno_to_linux h h.epipe ≡ 32)
    × (errno_to_linux h h.erange ≡ 34)
    × (errno_to_linux h h.enametoolong ≡ 36)
    × (errno_to_linux h h.enotempty ≡ 39)
    × (errno_to_linux h h.eloop ≡ 40)

abbrev hosts : List (ℕ × ℕ) → List ℕ
hosts [] = []
hosts ((host, linux) ∷ cases) = host ∷ hosts cases

Misses-later :
    (v : ℕ) (cases : List (ℕ × ℕ)) (i : ℕ) (c : ℕ × ℕ)
    → Misses v (hosts cases)
    → get_elem? cases i ≡ some c
    → v ≢ c.0
Misses-later v [] i c m e = cc
Misses-later v ((host, linux) ∷ cases) zero c m e = λ same. m.0 (ground arith)
Misses-later v ((host, linux) ∷ cases) (suc i) c m e = Misses-later v cases i c m.1 e

switch-case :
    (cases : List (ℕ × ℕ)) (i : ℕ) (c : ℕ × ℕ)
    → Distinct (hosts cases)
    → get_elem? cases i ≡ some c
    → switch_errno cases c.0 ≡ c.1
unfolding switch_errno
switch-case [] i c d e = cc
switch-case ((host, linux) ∷ cases) zero c d e = ground arith
switch-case ((host, linux) ∷ cases) (suc i) c d e =
    ground (arith, Misses-later host cases i c d.0 e, switch-case cases i c d.1 e)

switch-default : (cases : List (ℕ × ℕ)) (e : ℕ) → Misses e (hosts cases) → switch_errno cases e ≡ 22
unfolding switch_errno
switch-default [] e m = refl
switch-default ((host, linux) ∷ cases) e m = ground (arith, switch-default cases e m.1)

module _ (h : HostErrno) (distinct : Distinct (host_values h)) where
  -- The name in place `i` of the switch.
  at : (i v n : ℕ) → get_elem? (errno_cases h) i ≡ some (v, n) → errno_to_linux h v ≡ n
  unfolding errno_to_linux
  at i v n e = switch-case (errno_cases h) i (v, n) distinct e

-- With distinct host values, each of the 34 names becomes the number that Linux gives to it, and
-- every other host value becomes 22, which is EINVAL.
pub errno_to_linux_lem :
    (h : HostErrno)
    → Distinct (host_values h)
    → LinuxNumbers h × ((e : ℕ) → Misses e (host_values h) → errno_to_linux h e ≡ 22)
unfolding errno_to_linux
errno_to_linux_lem h distinct = (numbers, switch-default (errno_cases h))
  where
    numbers : LinuxNumbers h
    numbers = (
      at h distinct 0 h.eperm 1 refl,
      at h distinct 1 h.enoent 2 refl,
      at h distinct 2 h.esrch 3 refl,
      at h distinct 3 h.eintr 4 refl,
      at h distinct 4 h.eio 5 refl,
      at h distinct 5 h.enxio 6 refl,
      at h distinct 6 h.e2big 7 refl,
      at h distinct 7 h.enoexec 8 refl,
      at h distinct 8 h.ebadf 9 refl,
      at h distinct 9 h.echild 10 refl,
      at h distinct 10 h.eagain 11 refl,
      at h distinct 11 h.enomem 12 refl,
      at h distinct 12 h.eacces 13 refl,
      at h distinct 13 h.efault 14 refl,
      at h distinct 14 h.ebusy 16 refl,
      at h distinct 15 h.eexist 17 refl,
      at h distinct 16 h.exdev 18 refl,
      at h distinct 17 h.enodev 19 refl,
      at h distinct 18 h.enotdir 20 refl,
      at h distinct 19 h.eisdir 21 refl,
      at h distinct 20 h.einval 22 refl,
      at h distinct 21 h.enfile 23 refl,
      at h distinct 22 h.emfile 24 refl,
      at h distinct 23 h.enotty 25 refl,
      at h distinct 24 h.efbig 27 refl,
      at h distinct 25 h.enospc 28 refl,
      at h distinct 26 h.espipe 29 refl,
      at h distinct 27 h.erofs 30 refl,
      at h distinct 28 h.emlink 31 refl,
      at h distinct 29 h.epipe 32 refl,
      at h distinct 30 h.erange 34 refl,
      at h distinct 31 h.enametoolong 36 refl,
      at h distinct 32 h.enotempty 39 refl,
      at h distinct 33 h.eloop 40 refl,
    )
