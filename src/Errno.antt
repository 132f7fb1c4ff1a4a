-- ===== src/Errno.antt =====
-- linux-personality/oryxlinux.c, the Linux error numbers and errno_to_linux. The host's own error
-- numbers come from its headers, so they are parameters.
pub mod Range
pub mod Names
use oryx_hurd.Base.{ℕ, ◌≡◌, List, [], ◌∷◌, ◌==◌, if◌then◌else◌, ℤ, neg}

-- The host's values of the error names that the source maps.
pub record HostErrno : Type 0 where
  pub eperm : ℕ
  pub enoent : ℕ
  pub esrch : ℕ
  pub eintr : ℕ
  pub eio : ℕ
  pub enxio : ℕ
  pub e2big : ℕ
  pub enoexec : ℕ
  pub ebadf : ℕ
  pub echild : ℕ
  pub eagain : ℕ
  pub enomem : ℕ
  pub eacces : ℕ
  pub efault : ℕ
  pub ebusy : ℕ
  pub eexist : ℕ
  pub exdev : ℕ
  pub enodev : ℕ
  pub enotdir : ℕ
  pub eisdir : ℕ
  pub einval : ℕ
  pub enfile : ℕ
  pub emfile : ℕ
  pub enotty : ℕ
  pub efbig : ℕ
  pub enospc : ℕ
  pub espipe : ℕ
  pub erofs : ℕ
  pub emlink : ℕ
  pub epipe : ℕ
  pub erange : ℕ
  pub enametoolong : ℕ
  pub enotempty : ℕ
  pub eloop : ℕ

-- The cases of the switch, in order: the host's value and the LINUX_ constant.
abbrev pub errno_cases : HostErrno → List (ℕ × ℕ)
errno_cases h =
    (h.eperm, 1)
    ∷ (h.enoent, 2)
    ∷ (h.esrch, 3)
    ∷ (h.eintr, 4)
    ∷ (h.eio, 5)
    ∷ (h.enxio, 6)
    ∷ (h.e2big, 7)
    ∷ (h.enoexec, 8)
    ∷ (h.ebadf, 9)
    ∷ (h.echild, 10)
    ∷ (h.eagain, 11)
    ∷ (h.enomem, 12)
    ∷ (h.eacces, 13)
    ∷ (h.efault, 14)
    ∷ (h.ebusy, 16)
    ∷ (h.eexist, 17)
    ∷ (h.exdev, 18)
    ∷ (h.enodev, 19)
    ∷ (h.enotdir, 20)
    ∷ (h.eisdir, 21)
    ∷ (h.einval, 22)
    ∷ (h.enfile, 23)
    ∷ (h.emfile, 24)
    ∷ (h.enotty, 25)
    ∷ (h.efbig, 27)
    ∷ (h.enospc, 28)
    ∷ (h.espipe, 29)
    ∷ (h.erofs, 30)
    ∷ (h.emlink, 31)
    ∷ (h.epipe, 32)
    ∷ (h.erange, 34)
    ∷ (h.enametoolong, 36)
    ∷ (h.enotempty, 39)
    ∷ (h.eloop, 40)
    ∷ []

abbrev pub linux_einval : ℕ
linux_einval = 22

-- The switch: the first case that fits, or EINVAL.
unfoldable pub switch_errno : List (ℕ × ℕ) → ℕ → ℕ
switch_errno [] e = linux_einval
switch_errno ((host, linux) ∷ cases) e = if host == e then linux else switch_errno cases e

unfoldable pub errno_to_linux : HostErrno → ℕ → ℕ
errno_to_linux h e = switch_errno (errno_cases h) e

-- RET_ERR()
abbrev pub ret_err : HostErrno → ℕ → ℤ
ret_err h e = neg (errno_to_linux h e)
