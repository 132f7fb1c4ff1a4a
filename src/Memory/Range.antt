-- ===== src/Memory/Range.antt =====
-- linux-personality/oryxlinux.c: the bytes of a range of a task after a poke.
use oryx_hurd.Base.{
  ℕ, zero, suc, ◌+◌, ◌-◌, ◌^◌, ◌≤◌, ◌<◌, ◌≡◌, refl, ◌∙◌, ap, true, ◌&&◌, List, [], ◌∷◌, ltb, leb,
  length, get_or, arith,
}
use oryx_hurd.Host.{Host}
use oryx_hurd.Memory.{page_size, poke}
use oryx_hurd.Memory.Peek.{MemLaws}
use oryx_hurd.Memory.Poke.{poke_lem}

-- The `n` bytes from `a` on of an address space.
unfoldable bytes_from : (ℕ → ℕ) → (a n : ℕ) → List ℕ
bytes_from f a zero = []
bytes_from f a (suc n) = f a ∷ bytes_from f (suc a) n

pub bytes_at : {K : Type 0} → (K → ℕ → ℕ → ℕ) → K → (task addr n : ℕ) → List ℕ
unfolding bytes_from
bytes_at byte k t a n = bytes_from (byte k t) a n

bytes_from-list :
    (f : ℕ → ℕ) (xs : List ℕ) (a : ℕ)
    → ((i : ℕ) → i < length xs → f (i + a) ≡ get_or xs i 0)
    → bytes_from f a (length xs) ≡ xs
unfolding bytes_from
bytes_from-list f [] a same = refl
bytes_from-list f (x ∷ xs) a same =
    let first : f a ≡ x = ap f (omega arith) ∙ same 0 (omega arith) in
    let rest : bytes_from f (suc a) (length xs) ≡ xs =
      bytes_from-list f xs (suc a) (λ i h. ap f (omega arith) ∙ same (suc i) (omega arith)) in
    ap (λ y. y ∷ bytes_from f (suc a) (length xs)) first ∙ ap (λ l. x ∷ l) rest

module _ {K : Type 0} {host : Host K} {byte : K → ℕ → ℕ → ℕ} (laws : MemLaws host byte) where
  -- A poke that succeeds leaves its bytes at the address.
  pub poke-bytes_at :
      (t addr : ℕ) (bytes : List ℕ) (k : K)
      → addr + length bytes + page_size ≤ 2 ^ 32
      → 0 < length bytes
      → (poke host t addr bytes k).0 ≡ true
      → bytes_at byte (poke host t addr bytes k).1 t addr (length bytes) ≡ bytes
  unfolding bytes_at
  poke-bytes_at t addr bytes k room some_ ok = bytes_from-list _ bytes addr (λ i small.
      let inside : (leb addr (i + addr) && ltb (i + addr) (addr + length bytes)) ≡ true =
        ground arith in
      poke_lem laws t addr (i + addr) bytes k room some_ ok
      ∙ ground (arith, inside, ap (λ j. get_or bytes j 0) (minus i addr)))
    where
      minus : (i a : ℕ) → i + a - a ≡ i
      minus i a = omega arith
