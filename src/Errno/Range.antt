-- ===== src/Errno/Range.antt =====
-- Every host error becomes a Linux error number.
use oryx_hurd.Base.{ℕ, ◌≤◌, ◌<◌, ◌≡◌, refl, List, [], ◌∷◌, negsuc, neg, arith, zero, suc}
use oryx_hurd.Errno.{HostErrno, errno_cases, switch_errno, errno_to_linux, ret_err}

-- Every number of the table lies in the range of Linux error numbers.
abbrev InRange : List (ℕ × ℕ) → Type 0
InRange [] = Unit {0}
InRange ((host, linux) ∷ cases) = (0 < linux) × (linux ≤ 40) × InRange cases

switch-InRange :
    (cases : List (ℕ × ℕ)) (e : ℕ)
    → InRange cases
    → (0 < switch_errno cases e) × (switch_errno cases e ≤ 40)
unfolding switch_errno
switch-InRange [] e h = (omega arith, omega arith)
switch-InRange ((host, linux) ∷ cases) e h = ground (arith, switch-InRange cases e h.2)

errno_cases-InRange : (h : HostErrno) → InRange (errno_cases h)
errno_cases-InRange h = omega arith

-- A result made by RET_ERR is never mistaken for success: it is -40 to -1 for every host error,
-- also for one that the table does not know.
pub ret_err_range : (h : HostErrno) (e : ℕ) → (n : ℕ) × (ret_err h e ≡ negsuc n) × (n < 40)
unfolding errno_to_linux
ret_err_range h e =
    negative (switch_errno (errno_cases h) e)
      (switch-InRange (errno_cases h) e (errno_cases-InRange h))
  where
    negative : (m : ℕ) → (0 < m) × (m ≤ 40) → (n : ℕ) × (neg m ≡ negsuc n) × (n < 40)
    negative zero b = absurd (omega arith)
    negative (suc n) b = (n, refl, omega arith)
