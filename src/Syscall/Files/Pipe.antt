-- ===== src/Syscall/Files/Pipe.antt =====
-- linux-personality/oryxlinux.c: pipe and pipe2, with a full table and with one free entry.
use oryx_hurd.Base.{ℕ, ◌<◌, ◌≡◌, ◌≢◌, ◌⊎◌, true, false, ℤ, pos, neg, is_neg, update}
use oryx_hurd.Host.{Host}
use oryx_hurd.Server.{Server, max_fd}
use oryx_hurd.Process.{linux_efault}
use oryx_hurd.Syscall.Files.{linux_emfile}

-- The ends of a pipe whose host descriptors are `r` and `w`: `f` and `g` are the caller's table
-- before and after, and `v` is the result.
pub data Piped (r w : ℕ) (f g : ℕ → ℤ) (v : ℤ) : Type 0 where
  -- the two lowest free entries, the lower for reading
  opened :
      (i j : ℕ)
      → i < j
      → j < max_fd
      → is_neg (f i) ≡ true
      → is_neg (f j) ≡ true
      → ((m : ℕ) → m < j → i ≢ m → is_neg (f m) ≡ false)
      → g ≡ update (update f i (pos r)) j (pos w)
      → (v ≡ pos 0) ⊎ (v ≡ neg linux_efault)
      → Piped r w f g v
  -- one free entry, which stays taken
  leaked :
      (i : ℕ)
      → i < max_fd
      → is_neg (f i) ≡ true
      → ((m : ℕ) → m < max_fd → i ≢ m → is_neg (f m) ≡ false)
      → g ≡ update f i (pos r)
      → v ≡ neg linux_emfile
      → Piped r w f g v
  -- a full table
  full :
      ((m : ℕ) → m < max_fd → is_neg (f m) ≡ false) → g ≡ f → v ≡ neg linux_emfile → Piped r w f g v
