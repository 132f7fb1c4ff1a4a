-- ===== src/Fd/Isolation.antt =====
-- fork copies the descriptor table so that the two processes close independently.
use oryx_hurd.Base.{
  ℕ, zero, suc, ◌+◌, ◌≤◌, ◌<◌, ◌≡◌, ◌≢◌, refl, sym, ap, ◌∙◌, ltb, ltb→lt, inl, inr, Bool, true,
  false, ◌&&◌, ℤ, pos, negsuc, ◌==◌, leb, update, eq-or-lt, Bool-cases, arith,
}
use mathlib.Core.Bool.{false≢true}
use oryx_hurd.Host.{Host, Outcome, ok, fail}
use oryx_hurd.Server.{Server, max_fd}
use oryx_hurd.Fd.{int_of, fork_fd, fd_fork_loop, fd_fork, close_fd, fd_close_loop, fd_closeall}

-- dup(2) and close(2) as POSIX documents them: `is_open` tells the open descriptors of the host.
pub record FdLaws {K : Type 0} (host : Host K) (is_open : K → ℕ → Bool) : Type 0 where
  pub dup_new : (h n : ℕ) (k : K) → (host.dup h k).0 ≡ ok n → is_open k n ≡ false
  pub dup_keeps : (h m : ℕ) (k : K) → is_open k m ≡ true → is_open (host.dup h k).1 m ≡ true
  pub close_only : (h m : ℕ) (k : K) → h ≢ m → is_open (host.close h k).1 m ≡ is_open k m

module _ {K : Type 0} {host : Host K} {is_open : K → ℕ → Bool} (laws : FdLaws host is_open) where
  -- A descriptor above 2 that was not open in `k`.
  abbrev pub IsNew : K → ℤ → Type 0
  IsNew k (negsuc n) = Unit {0}
  IsNew k (pos n) = 2 < n → is_open k n ≡ false

  abbrev pub Keeps : K → K → Type 0
  Keeps k l = (m : ℕ) → is_open k m ≡ true → is_open l m ≡ true

  IsNew-earlier : (k l : K) (v : ℤ) → Keeps k l → IsNew l v → IsNew k v
  IsNew-earlier k l (negsuc n) keeps new = tt
  IsNew-earlier k l (pos n) keeps new = λ h. ground (arith, keeps n, new h)

  int_of-IsNew :
      (k : K) (r : Outcome ℕ) → ((n : ℕ) → r ≡ ok n → is_open k n ≡ false) → IsNew k (int_of r)
  int_of-IsNew k (ok n) new = λ _. new n refl
  int_of-IsNew k (fail e) new = tt

  fork_fd-IsNew :
      (i : ℕ) (v : ℤ) (k : K) → IsNew k (fork_fd host i v k).0 × Keeps k (fork_fd host i v k).1
  unfolding fork_fd
  fork_fd-IsNew i (negsuc n) k = (tt, λ m e. e)
  fork_fd-IsNew i (pos h) k = elim (Bool-cases (leb i 2 && (h == i))) [
    | inl stdio ↦ rw (stdio, fork_fd) ((λ above. absurd (low stdio above)), (λ m e. e))
    | inr other ↦
        rw (other, fork_fd)
          (
            int_of-IsNew k (host.dup h k).0 (λ n e. laws.dup_new h n k e),
            (λ m e. laws.dup_keeps h m k e),
          )
  ]
    where
      low : (leb i 2 && (h == i)) ≡ true → 2 < i → ⊥
      low e above = ground arith

  -- Every entry that the loop of fd_fork fills is new, and nothing that was open is closed.
  fd_fork_loop-IsNew :
      (n i : ℕ) (parent child : ℕ → ℤ) (k : K)
      → let r = fd_fork_loop host n i parent child k in
        ((j : ℕ) → i ≤ j → j < i + n → IsNew k (r.0 j))
        × ((j : ℕ) → j < i → r.0 j ≡ child j)
        × Keeps k r.1
  unfolding fd_fork_loop
  fd_fork_loop-IsNew zero i parent child k =
      ((λ j lo hi. absurd (omega arith)), (λ j lt. refl), (λ m e. e))
  fd_fork_loop-IsNew (suc n) i parent child k =
      let v = fork_fd host i (parent i) k in
      let first = fork_fd-IsNew i (parent i) k in
      let rest = fd_fork_loop-IsNew n (suc i) parent (update child i v.0) v.1 in
      (
        (λ j lo hi. elim (eq-or-lt i j lo) [
          | inl same ↦ rw (← same, rest.1 i (omega arith), self) first.0
          | inr later ↦ IsNew-earlier k v.1 _ first.1 (rest.0 j later (omega arith))
        ]),
        (λ j lt. rest.1 j (omega arith) ∙ ground arith),
        (λ m e. rest.2 m (first.1 m e)),
      )
    where
      self : update child i (fork_fd host i (parent i) k).0 i ≡ (fork_fd host i (parent i) k).0
      self = ground arith

  close_fd-IsNew :
      (base k : K) (v : ℤ) (m : ℕ)
      → IsNew base v
      → is_open base m ≡ true
      → is_open (close_fd host v k).1 m ≡ is_open k m
  unfolding close_fd
  close_fd-IsNew base k (negsuc n) m new o = refl
  close_fd-IsNew base k (pos h) m new o = elim (Bool-cases (ltb 2 h)) [
    | inl above ↦
        rw (above, close_fd)
          (laws.close_only h m k
            (λ e. false≢true (sym (new (ltb→lt 2 h above)) ∙ (ap (is_open base) e ∙ o))))
    | inr low ↦ rw (low, close_fd) refl
  ]

  close_loop-IsNew :
      (base : K) (n i : ℕ) (table : ℕ → ℤ) (k : K) (m : ℕ)
      → ((j : ℕ) → i ≤ j → j < i + n → IsNew base (table j))
      → is_open base m ≡ true
      → is_open (fd_close_loop host n i table k).1 m ≡ is_open k m
  unfolding fd_close_loop
  close_loop-IsNew base zero i table k m new o = refl
  close_loop-IsNew base (suc n) i table k m new o =
      close_loop-IsNew base n (suc i) (update table i (negsuc 0)) (close_fd host (table i) k).1 m
        (λ j lo hi. rw (later j lo) (new j (omega arith) (omega arith))) o
      ∙ close_fd-IsNew base k (table i) m (new i (omega arith) (omega arith)) o
    where
      later : (j : ℕ) → suc i ≤ j → update table i (negsuc 0) j ≡ table j
      later j lo = ground arith

  -- After a fork, a child that closes all it has closes no host descriptor that was open before the
  -- fork: neither the parent's nor any other process's.
  pub fork_isolates :
      (child parent : ℕ) (s : Server K) (m : ℕ)
      → is_open s.kernel m ≡ true
      → let t = (fd_fork host child parent s).1 in
        is_open (fd_closeall host child t).1.kernel m ≡ true
  unfolding fd_fork fd_closeall
  fork_isolates child parent s m o =
      let r = fd_fork_loop host max_fd 0 (s.procs parent).fd (s.procs child).fd s.kernel in
      let forked = fd_fork_loop-IsNew max_fd 0 (s.procs parent).fd (s.procs child).fd s.kernel in
      close_loop-IsNew s.kernel max_fd 0 _ r.1 m (λ j lo hi. rw own (forked.0 j lo hi)) o
      ∙ forked.2 m o
    where
      own :
          ((fd_fork host child parent s).1.procs child).fd
          ≡ (fd_fork_loop host max_fd 0 (s.procs parent).fd (s.procs child).fd s.kernel).0
      own = ground arith
