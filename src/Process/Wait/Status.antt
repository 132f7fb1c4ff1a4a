-- ===== src/Process/Wait/Status.antt =====
-- linux-personality/oryxlinux.c: the status word that wait4 stores, as the guest's macros read it.
use oryx_hurd.Base.{
  ℕ, ◌+◌, ◌*◌, ◌/◌, ◌%◌, ◌^◌, ◌≤◌, ◌<◌, ◌≡◌, ◌≢◌, refl, ◌∙◌, ap, inl, inr, ◌⊎◌, Bool, true, false,
  ℤ, pos, neg, ◌==◌, if◌then◌else◌, arith, get_or, leb, ltb, ◌&&◌,
}
use oryx_hurd.Host.{Host}
use oryx_hurd.Server.{Server, me, max_proc}
use oryx_hurd.Memory.{poke, page_size}
use oryx_hurd.Memory.Peek.{MemLaws}
use oryx_hurd.Memory.Poke.{poke_lem}
use oryx_hurd.Process.{word_bytes, exit_word, linux_efault}
use oryx_hurd.Process.Wait.{
  sys_wait4, wait_scan, wait_found, wait_dead, collect_if, store_status, dead_child,
}

-- The int at an address of a task.
abbrev pub int_at : {K : Type 0} → (K → ℕ → ℕ → ℕ) → K → (task addr : ℕ) → ℕ
int_at byte k t a =
    byte k t a + byte k t (a + 1) * 256 + byte k t (a + 2) * 65536 + byte k t (a + 3) * 16777216

-- WIFEXITED and WEXITSTATUS
abbrev pub Exited : (word status : ℕ) → Type 0
Exited word status = (word % 128 ≡ 0) × (word / 256 % 256 ≡ status % 256)

module _ {K : Type 0} {host : Host K} {byte : K → ℕ → ℕ → ℕ} (laws : MemLaws host byte) where
  -- The four bytes of a stored word.
  stored_byte :
      (t addr w i : ℕ) (k : K)
      → addr + 4 + page_size ≤ 2 ^ 32
      → (poke host t addr (word_bytes w) k).0 ≡ true
      → i < 4
      → byte (poke host t addr (word_bytes w) k).1 t (addr + i) ≡ get_or (word_bytes w) i 0
  stored_byte t addr w i k room ok small =
      poke_lem laws t addr (addr + i) (word_bytes w) k room (omega arith) ok
      ∙ pick _ _ _ inside
      ∙ ap (λ j. get_or (word_bytes w) j 0) (omega arith)
    where
      inside : (leb addr (addr + i) && ltb (addr + i) (addr + 4)) ≡ true
      inside = ground arith

      pick : (b : Bool) (x y : ℕ) → b ≡ true → (if b then x else y) ≡ x
      pick true x y e = refl
      pick false x y e = absurd (ground arith)

  poke-Exited :
      (t addr status : ℕ) (k : K)
      → addr + 4 + page_size ≤ 2 ^ 32
      → (poke host t addr (word_bytes (exit_word status)) k).0 ≡ true
      → Exited (int_at byte (poke host t addr (word_bytes (exit_word status)) k).1 t addr) status
  poke-Exited t addr status k room ok =
      let at = λ (i : ℕ) (small : i < 4). stored_byte t addr (exit_word status) i k room ok small in
      let zero_byte =
        ap (λ a. byte (poke host t addr (word_bytes (exit_word status)) k).1 t a) (add_zero addr) in
      (
        omega (
          arith,
          zero_byte,
          at 0 (omega arith),
          at 1 (omega arith),
          at 2 (omega arith),
          at 3 (omega arith),
        ),
        omega (
          arith,
          zero_byte,
          at 0 (omega arith),
          at 1 (omega arith),
          at 2 (omega arith),
          at 3 (omega arith),
        ),
      )
    where
      add_zero : (a : ℕ) → a + 0 ≡ a
      add_zero a = omega arith

  collected :
      (status_addr d : ℕ) (s : Server K) (o : Bool × K)
      → (o.0 ≡ true → Exited (int_at byte o.1 (me s).task status_addr) (s.procs d).status)
      → let r = collect_if o.0 d (record s { kernel = o.1 }) in
        (r.0 ≡ neg linux_efault)
        ⊎ ((r.0 ≡ pos (s.procs d).pid)
            × Exited (int_at byte r.1.kernel (me s).task status_addr) (s.procs d).status)
  unfolding collect_if
  collected status_addr d s (false, k) told = inl refl
  collected status_addr d s (true, k) told = inr (refl, told refl)

  -- A wait4 that finds a dead child, asked for the status at four bytes below the last page,
  -- fails with EFAULT or returns the child's pid; then WIFEXITED holds of the word at the address and
  -- WEXITSTATUS gives the low byte of the child's status.
  pub sys_wait4-Exited :
      (pid : ℤ) (status_addr options d : ℕ) (s : Server K)
      → status_addr ≢ 0
      → status_addr + 4 + page_size ≤ 2 ^ 32
      → wait_scan s.procs (me s).pid pid max_proc 0 false ≡ dead_child d
      → let r = sys_wait4 host pid status_addr options s in
        (r.0 ≡ neg linux_efault)
        ⊎ ((r.0 ≡ pos (s.procs d).pid)
            × Exited (int_at byte r.1.kernel (me s).task status_addr) (s.procs d).status)
  unfolding sys_wait4 wait_found wait_dead store_status
  sys_wait4-Exited pid status_addr options d s asked room found =
      rw (found, wait_found, not_null)
        (collected status_addr d s
          (poke host (me s).task status_addr (word_bytes (exit_word (s.procs d).status)) s.kernel)
          (poke-Exited (me s).task status_addr (s.procs d).status s.kernel room))
    where
      not_null : (status_addr == 0) ≡ false
      not_null = ground arith
