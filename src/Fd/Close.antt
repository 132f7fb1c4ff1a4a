-- ===== src/Fd/Close.antt =====
-- fd_closeall closes what a process holds, and leaves the emulator's own descriptors 0 to 2.
use oryx_hurd.Base.{
  ℕ, zero, suc, ◌+◌, ◌<◌, ◌≡◌, ◌≢◌, refl, ap, ◌∙◌, List, [], ◌∷◌, ℤ, pos, negsuc, ltb, leb, ◌&&◌,
  if◌then◌else◌, update, arith,
}
use oryx_hurd.Host.{Host}
use oryx_hurd.Server.{Server, max_fd}
use oryx_hurd.Fd.{close_fd, fd_close_loop, fd_closeall}

abbrev pub keep_above_2 : ℤ → List ℕ → List ℕ
keep_above_2 (negsuc n) rest = rest
keep_above_2 (pos h) rest = if ltb 2 h then h ∷ rest else rest

-- The host descriptors above 2 in the entries from `i` on, in order.
unfoldable pub held : (ℕ → ℤ) → (k i : ℕ) → List ℕ
held table zero i = []
held table (suc k) i = keep_above_2 (table i) (held table k (suc i))

module _ {K : Type 0} (host : Host K) where
  unfoldable pub close_each : List ℕ → K → K
  close_each [] k = k
  close_each (h ∷ hs) k = close_each hs (host.close h k).1

  held-update :
      (table : ℕ → ℤ) (v : ℤ) (k i j : ℕ) → j < i → held (update table j v) k i ≡ held table k i
  unfolding held
  held-update table v zero i j lt = refl
  held-update table v (suc k) i j lt =
      rw (held-update table v k (suc i) j (omega arith), entry) refl
    where
      entry : update table j v i ≡ table i
      entry = ground arith

  close_each-close_fd :
      (v : ℤ) (rest : List ℕ) (k : K)
      → close_each rest (close_fd host v k).1 ≡ close_each (keep_above_2 v rest) k
  unfolding close_each close_fd
  close_each-close_fd (negsuc n) rest k = refl
  close_each-close_fd (pos h) rest k = ground arith

  close_loop-held :
      (table : ℕ → ℤ) (n i : ℕ) (k : K)
      → (fd_close_loop host n i table k).1 ≡ close_each (held table n i) k
  unfolding fd_close_loop close_each held
  close_loop-held table zero i k = refl
  close_loop-held table (suc n) i k =
      close_loop-held (update table i (negsuc 0)) n (suc i) (close_fd host (table i) k).1
      ∙ ap (λ hs. close_each hs (close_fd host (table i) k).1)
          (held-update table (negsuc 0) n (suc i) i (omega arith))
      ∙ close_each-close_fd (table i) (held table n (suc i)) k

  close_loop-table :
      (table : ℕ → ℤ) (n i j : ℕ) (k : K)
      → (fd_close_loop host n i table k).0 j
        ≡ (if leb i j && ltb j (i + n) then negsuc 0 else table j)
  unfolding fd_close_loop
  close_loop-table table zero i j k = ground arith
  close_loop-table table (suc n) i j k = ground (
    arith,
    close_loop-table (update table i (negsuc 0)) n (suc i) j (close_fd host (table i) k).1,
  )

  -- fd_closeall closes each host descriptor above 2 that the process holds, once for each entry
  -- that holds it and in their order, closes nothing else, and leaves every entry of the process
  -- closed. The other processes' tables stay as they were.
  pub fd_closeall_lem :
      (p : ℕ) (s : Server K)
      → let t = (fd_closeall host p s).1 in
        (t.kernel ≡ close_each (held (s.procs p).fd max_fd 0) s.kernel)
        × ((j : ℕ) → j < max_fd → (t.procs p).fd j ≡ negsuc 0)
        × ((q : ℕ) → p ≢ q → t.procs q ≡ s.procs q)
  unfolding fd_closeall
  fd_closeall_lem p s = (
    close_loop-held (s.procs p).fd max_fd 0 s.kernel,
    (λ j small. ground (arith, close_loop-table (s.procs p).fd max_fd 0 j s.kernel)),
    (λ q ne. ground arith),
  )
