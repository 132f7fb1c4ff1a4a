-- ===== src/Memory/Str.antt =====
-- linux-personality/oryxlinux.c: what peek_str reads.
use oryx_hurd.Base.{
  ℕ, zero, suc, ◌+◌, ◌-◌, ◌%◌, ◌^◌, ◌≤◌, ◌<◌, ◌≡◌, refl, inl, inr, ◌⊎◌, Bool, true, false, Option,
  none, some, List, [], ◌∷◌, ◌++◌, ltb, if◌then◌else◌, length, take, drop, arith, Bool-cases, subst,
}
use oryx_hurd.Host.{Host}
use oryx_hurd.Memory.{
  splice, has_zero, peek, str_found, str_chunk, chunk_at, peek_str_loop, peek_str,
}

has_zero-append : (xs ys : List ℕ) → has_zero ys ≡ true → has_zero (xs ++ ys) ≡ true
unfolding has_zero
has_zero-append [] ys e = e
has_zero-append (x ∷ xs) ys e = ground (arith, has_zero-append xs ys e)

has_zero-before : (xs ys : List ℕ) → has_zero xs ≡ true → has_zero (xs ++ ys) ≡ true
unfolding has_zero
has_zero-before [] ys e = ground (arith, e)
has_zero-before (x ∷ xs) ys e = ground (arith, has_zero-before xs ys)

has_zero-splice :
    (buf : List ℕ) (at : ℕ) (bytes : List ℕ)
    → has_zero bytes ≡ true
    → has_zero (splice buf at bytes) ≡ true
unfolding splice
has_zero-splice buf at bytes e =
    has_zero-append (take at buf) _ (has_zero-before bytes (drop (at + length bytes) buf) e)

module _ {K : Type 0} (host : Host K) (task addr max : ℕ) (k : K) where
  -- The chunk of the string at offset `got`.
  abbrev pub chunk_of : ℕ → Option (List ℕ)
  chunk_of got = peek host task ((addr + got) % 2 ^ 32) (chunk_at addr max got) k

  -- Every chunk before offset `got` could be read and has no NUL, and the buffer, `start` at first,
  -- is `buf` with these chunks in it.
  pub data Read (start : List ℕ) : ℕ → List ℕ → Type 0 where
    nothing : Read start 0 start
    chunk :
        (got : ℕ) (buf bytes : List ℕ)
        → Read start got buf
        → got < max - 1
        → chunk_of got ≡ some bytes
        → has_zero bytes ≡ false
        → Read start (got + chunk_at addr max got) (splice buf got bytes)

  -- A buffer that is given out holds a NUL, or it holds the chunks up to one that is not the first
  -- and could not be read, and nothing else was written to it.
  abbrev pub Ended : (start out : List ℕ) → Type 0
  Ended start out =
      (has_zero out ≡ true)
      ⊎ ((got : ℕ) × (0 < got) × (got < max - 1) × (chunk_of got ≡ none) × Read start got out)

  abbrev Ends : List ℕ → Option (List ℕ) → Type 0
  Ends start o = (out : List ℕ) → o ≡ some out → Ended start out

  str_found-Ends :
      (start : List ℕ) (rest : ℕ → List ℕ → Option (List ℕ)) (got : ℕ) (buf bytes : List ℕ)
      (b : Bool)
      → has_zero bytes ≡ b
      → Read start got buf
      → got < max - 1
      → chunk_of got ≡ some bytes
      → ((at : ℕ) (next : List ℕ) → Read start at next → Ends start (rest at next))
      → Ends start (str_found rest got (chunk_at addr max got) buf bytes b)
  unfolding str_found
  str_found-Ends start rest got buf bytes true e done small here ih out same =
      inl (ground (arith, has_zero-splice buf got bytes e, same))
  str_found-Ends start rest got buf bytes false e done small here ih out same =
      ih (got + chunk_at addr max got) _ (chunk got buf bytes done small here e) out same

  str_chunk-Ends :
      (start : List ℕ) (rest : ℕ → List ℕ → Option (List ℕ)) (got : ℕ) (buf : List ℕ)
      (o : Option (List ℕ))
      → chunk_of got ≡ o
      → Read start got buf
      → got < max - 1
      → ((at : ℕ) (next : List ℕ) → Read start at next → Ends start (rest at next))
      → Ends start (str_chunk rest got (chunk_at addr max got) buf o)
  unfolding str_chunk
  str_chunk-Ends start rest got buf none e done small ih out same =
      let given : buf ≡ out = ground (arith, same) in
      inr (got, ground (arith, same), small, e, subst (Read start got) given done)
  str_chunk-Ends start rest got buf (some bytes) e done small ih out same =
      str_found-Ends start rest got buf bytes _ refl done small e ih out same

  peek_str_loop-Ends :
      (start : List ℕ) (fuel got : ℕ) (buf : List ℕ)
      → Read start got buf
      → Ends start (peek_str_loop host fuel task addr max got buf k)
  unfolding peek_str_loop has_zero
  peek_str_loop-Ends start zero got buf done out same = ground arith
  peek_str_loop-Ends start (suc fuel) got buf done out same =
      branch (ltb got (max - 1)) refl
        (λ small.
          str_chunk-Ends start (λ at b. peek_str_loop host fuel task addr max at b k) got buf _ refl
            done small (λ at next h. peek_str_loop-Ends start fuel at next h))
        out same
    where
      branch :
          {o : Option (List ℕ)} (b : Bool)
          → ltb got (max - 1) ≡ b
          → (got < max - 1 → Ends start o)
          → Ends start (if b then o else some (splice buf (max - 1) (0 ∷ [])))
      branch true less there out same = there (ground (arith, less)) out same
      branch false less there out same =
          inl (ground (arith, has_zero-splice buf (max - 1) (0 ∷ []) refl, same))

  -- The buffer that peek_str gives out holds a NUL; or a chunk that is not the first could not be
  -- read, every chunk before it could and has no NUL, and the buffer that is given out has these
  -- chunks and is otherwise as it was.
  pub peek_str-Ended :
      (buf out : List ℕ) → peek_str host task addr max buf k ≡ some out → Ended buf out
  unfolding peek_str
  peek_str-Ended buf out same = peek_str_loop-Ends buf max 0 buf nothing out same

  -- Two loops that agree from the next offset on agree here.
  str_chunk-more :
      (rest more : ℕ → List ℕ → Option (List ℕ)) (got : ℕ) (buf : List ℕ) (o : Option (List ℕ))
      → ((next : List ℕ)
          → more (got + chunk_at addr max got) next ≡ rest (got + chunk_at addr max got) next)
      → str_chunk more got (chunk_at addr max got) buf o
        ≡ str_chunk rest got (chunk_at addr max got) buf o
  unfolding str_chunk str_found
  str_chunk-more rest more got buf none ih = refl
  str_chunk-more rest more got buf (some bytes) ih = ground (arith, ih (splice buf got bytes))

  -- As many rounds as bytes are left of the buffer give the result that any larger number gives.
  pub peek_str_loop-enough :
      (fuel got : ℕ) (buf : List ℕ)
      → got < max
      → max ≤ fuel + got
      → peek_str_loop host (suc fuel) task addr max got buf k
        ≡ peek_str_loop host fuel task addr max got buf k
  unfolding peek_str_loop has_zero
  peek_str_loop-enough zero got buf small enough = absurd (omega arith)
  peek_str_loop-enough (suc fuel) got buf small enough = elim (Bool-cases (ltb got (max - 1))) [
    | inl on ↦ rw on (
        str_chunk-more (λ at b. peek_str_loop host fuel task addr max at b k)
          (λ at b. peek_str_loop host (suc fuel) task addr max at b k) got buf _
          (λ next. peek_str_loop-enough fuel _ next (ground arith) (ground arith)))
    | inr off ↦ rw off refl
  ]
