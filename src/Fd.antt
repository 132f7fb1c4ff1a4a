-- ===== src/Fd.antt =====
-- linux-personality/oryxlinux.c, the descriptor table of a guest process: hfd, gfd_alloc, fd_init,
-- fd_fork, fd_closeall. The host's descriptors are reached through the host's calls.
pub mod Alloc
pub mod Isolation
pub mod Close
use oryx_hurd.Base.{
  ℕ, zero, suc, ◌&&◌, Option, none, some, ℤ, pos, negsuc, is_neg, ◌==ℤ◌, St, pure, ◌>>=◌, ◌>>◌, ltb,
  leb, if◌then◌else◌, update, first_index,
}
use oryx_hurd.Host.{Host, Outcome, ok, fail}
use oryx_hurd.Server.{Server, Proc, max_fd, me, lift, set_proc}

-- The int that a host call returns: the value, or -1.
abbrev pub int_of : Outcome ℕ → ℤ
int_of (ok n) = pos n
int_of (fail e) = negsuc 0

unfoldable pub hfd : Proc → ℕ → ℤ
hfd p gfd = if leb max_fd gfd then negsuc 0 else p.fd gfd

unfoldable pub fd_init : Proc → Proc
fd_init p = record p { fd = update (update (update (λ _. negsuc 0) 0 (pos 0)) 1 (pos 1)) 2 (pos 2) }

abbrev pub set_fd : ℕ → ℤ → Proc → Proc
set_fd i v p = record p { fd = update p.fd i v }

module _ {K : Type 0} (host : Host K) where
  -- What gfd_alloc does with the lowest free entry.
  unfoldable pub gfd_place : ℕ → Option ℕ → St (Server K) ℤ
  gfd_place h (some i) s = (pos i, (set_proc s.cur (set_fd i (pos h)) s).1)
  gfd_place h none s = (negsuc 0, (lift (host.close h) s).1)

  unfoldable pub gfd_alloc : ℤ → St (Server K) ℤ
  gfd_alloc (negsuc n) s = (negsuc 0, s)
  gfd_alloc (pos h) s = gfd_place h (first_index (λ i. is_neg ((me s).fd i)) max_fd) s

  -- What fd_fork puts in the child's entry `i`.
  unfoldable pub fork_fd : ℕ → ℤ → St K ℤ
  fork_fd i (negsuc n) = pure (negsuc 0)
  fork_fd i (pos h) =
      if leb i 2 && (pos h ==ℤ pos i) then pure (pos i) else do r ← host.dup h; pure (int_of r)

  -- The loop of fd_fork, from entry `i` on.
  unfoldable pub fd_fork_loop : (k i : ℕ) → (parent child : ℕ → ℤ) → St K (ℕ → ℤ)
  fd_fork_loop zero i parent child = pure child
  fd_fork_loop (suc k) i parent child = do
    v ← fork_fd i (parent i)
    fd_fork_loop k (suc i) parent (update child i v)

  unfoldable pub fd_fork : (child parent : ℕ) → St (Server K) (Unit {0})
  fd_fork child parent s =
      (do
        table ← lift (fd_fork_loop max_fd 0 (s.procs parent).fd (s.procs child).fd)
        set_proc child (λ p. record p { fd = table }))
        s

  -- Only a host descriptor above 2 is closed.
  unfoldable pub close_fd : ℤ → St K (Unit {0})
  close_fd (negsuc n) = pure tt
  close_fd (pos h) = if ltb 2 h then (host.close h >>= λ _. pure tt) else pure tt

  unfoldable pub fd_close_loop : (k i : ℕ) → (ℕ → ℤ) → St K (ℕ → ℤ)
  fd_close_loop zero i table = pure table
  fd_close_loop (suc k) i table = do
    close_fd (table i)
    fd_close_loop k (suc i) (update table i (negsuc 0))

  unfoldable pub fd_closeall : ℕ → St (Server K) (Unit {0})
  fd_closeall i s =
      (do
        table ← lift (fd_close_loop max_fd 0 (s.procs i).fd)
        set_proc i (λ p. record p { fd = table }))
        s
