-- ===== src/Memory/Peek.antt =====
-- peek returns exactly the bytes asked for; poke changes exactly the bytes given.
use oryx_hurd.Base.{
  ℕ, ◌+◌, ◌-◌, ◌^◌, ◌≤◌, ◌<◌, ◌≡◌, refl, ◌∙◌, ◌⊎◌, inl, inr, true, false, ◌&&◌, none, some, List,
  [], ltb, leb, ◌==◌, if◌then◌else◌, length, take, drop, get_or, length-take, length-drop,
  get_or-take, get_or-drop, arith, Bool-cases, Option-cases, lt→ltb, ap,
}
use oryx_hurd.Host.{Host}
use oryx_hurd.Memory.{page_size, page_down, page_span, peek, peek_slice}

-- The kernel's memory calls, as the Mach interface documents them: `byte k t x` is what task `t`
-- has at address `x`.
pub record MemLaws {K : Type 0} (host : Host K) (byte : K → ℕ → ℕ → ℕ) : Type 0 where
  pub read_length : (t a n : ℕ) (k : K) (d : List ℕ) → host.vm_read t a n k ≡ some d → length d ≡ n
  pub read_bytes :
      (t a n : ℕ) (k : K) (d : List ℕ) (i : ℕ)
      → host.vm_read t a n k ≡ some d
      → i < n
      → get_or d i 0 ≡ byte k t (a + i)
  pub malloc_keeps : (n t x : ℕ) (k : K) → byte (host.malloc n k).1 t x ≡ byte k t x
  pub protect_keeps :
      (u a n p t x : ℕ) (k : K) → byte (host.vm_protect u a n p k).1 t x ≡ byte k t x
  pub write_bytes :
      (t a x : ℕ) (d : List ℕ) (k : K)
      → (host.vm_write t a d k).0 ≡ true
      → byte (host.vm_write t a d k).1 t x
        ≡ (if leb a x && ltb x (a + length d) then get_or d (x - a) 0 else byte k t x)

-- The pages that hold a range below the top of the address space cover it.
pub page_span_covers :
    (addr len : ℕ)
    → addr + len + page_size ≤ 2 ^ 32
    → (page_down addr ≤ addr) × (addr + len ≤ page_down addr + page_span addr len)
page_span_covers addr len h = omega arith

module _ {K : Type 0} {host : Host K} {byte : K → ℕ → ℕ → ℕ} (laws : MemLaws host byte) where
  peek_slice-bytes :
      (t addr len : ℕ) (k : K) (got : List ℕ)
      → addr + len + page_size ≤ 2 ^ 32
      → host.vm_read t (page_down addr) (page_span addr len) k ≡ some got
      → (d : List ℕ) × (peek_slice host (addr - page_down addr) len got ≡ some d)
        × (length d ≡ len)
        × ((i : ℕ) → i < len → get_or d i 0 ≡ byte k t (addr + i))
  unfolding peek_slice
  peek_slice-bytes t addr len k got fits e =
      let off = addr - page_down addr in
      let covers = page_span_covers addr len fits in
      let whole = laws.read_length t _ _ k got e in
      (
        take len (drop off got),
        rw (enough whole, peek_slice) refl,
        omega (arith, length-take len (drop off got), length-drop off got),
        (λ i lt.
            get_or-take len (drop off got) i 0
            ∙ rw (lt→ltb i len lt) (get_or-drop off got i 0)
            ∙ laws.read_bytes t _ _ k got (off + i) e (omega arith)
            ∙ ap (byte k t) (omega arith)),
      )
    where
      enough :
          length got ≡ page_span addr len → ltb (length got) (addr - page_down addr + len) ≡ false
      enough whole = ground (arith, page_span_covers addr len fits)

  -- For a range that does not reach the last page of the address space, peek either returns its
  -- bytes, all of them and no others, or fails because the kernel could not read its pages.
  pub peek_lem :
      (t addr len : ℕ) (k : K)
      → addr + len + page_size ≤ 2 ^ 32
      → ((peek host t addr len k ≡ none)
          × (host.vm_read t (page_down addr) (page_span addr len) k ≡ none))
        ⊎ ((d : List ℕ) × (peek host t addr len k ≡ some d)
            × (length d ≡ len)
            × ((i : ℕ) → i < len → get_or d i 0 ≡ byte k t (addr + i)))
  unfolding peek
  peek_lem t addr len k fits = elim (Bool-cases (len == 0)) [
    | inl empty ↦
        inr ([], rw (empty, peek) refl, ground arith, (λ i lt. absurd (zero_len empty i lt)))
    | inr more ↦ elim (Option-cases (host.vm_read t (page_down addr) (page_span addr len) k)) [
      | inl failed ↦ inl (rw (more, peek) (rw (failed, peek) refl), failed)
      | inr (got, e) ↦
          let (d, cut, n, bytes) = peek_slice-bytes t addr len k got fits e in
          inr (d, rw (more, peek) (rw (e, peek) cut), n, bytes)
    ]
  ]
    where
      zero_len : (len == 0) ≡ true → (i : ℕ) → i < len → ⊥
      zero_len e i lt = ground arith
