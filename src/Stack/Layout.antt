-- ===== src/Stack/Layout.antt =====
-- Where build_stack puts the vector and the strings of the initial stack.
use oryx_hurd.Base.{
  ℕ, zero, suc, ◌+◌, ◌-◌, ◌*◌, ◌/◌, ◌%◌, ◌^◌, ◌≤◌, ◌<◌, ◌≡◌, refl, ◌∙◌, ap, List, [], ◌∷◌, ◌++◌,
  length, get_or, length-append, arith,
}
use mathlib.Core.List.{append_assoc}
use oryx_hurd.Stack.{
  Loaded, Ids, Image, Block, block_size, guest_addr, write_at, push_bytes, push_strings,
  aux_entries, vector, nwords, vector_offset, words_bytes, stack_image, plat,
}

length-vector :
    (argc : ℕ) (argv envp aux : List ℕ)
    → length (vector argc argv envp aux) ≡ length argv + length envp + length aux + 5
unfolding vector
length-vector argc argv envp aux = omega (
  arith,
  length-append argv (0 ∷ (envp ++ 0 ∷ (aux ++ 0 ∷ 0 ∷ []))),
  length-append envp (0 ∷ (aux ++ 0 ∷ 0 ∷ [])),
  length-append aux (0 ∷ 0 ∷ []),
)

length-aux_entries : (ld : Loaded) (ids : Ids) (r p : ℕ) → length (aux_entries ld ids r p) ≡ 32
unfolding aux_entries
length-aux_entries ld ids r p = refl

length-push_strings : (xs : List (List ℕ)) (b : Block) → length (push_strings xs b).0 ≡ length xs
unfolding push_strings
length-push_strings [] b = refl
length-push_strings (x ∷ xs) b = ap suc (length-push_strings xs b)

length-words_bytes : (ws : List ℕ) → length (words_bytes ws) ≡ 4 * length ws
unfolding words_bytes
length-words_bytes [] = refl
length-words_bytes (w ∷ ws) = omega (arith, length-words_bytes ws)

module _ (argv envp : List (List ℕ)) (ld : Loaded) (ids : Ids) (rnd : List ℕ) where
  abbrev image : Image
  image = stack_image argv envp ld ids rnd

  length-words : length image.words ≡ length argv + length envp + 37
  unfolding stack_image
  length-words =
      let b1 = push_bytes rnd (record { soff = block_size; blk = λ _. 0 }) in
      let b2 = push_bytes plat b1 in
      let a = push_strings argv b2 in
      let e = push_strings envp a.1 in
      let aux = aux_entries ld ids (guest_addr b1.soff) (guest_addr b2.soff) in
      omega (
        arith,
        length-vector (length argv) a.0 e.0 aux,
        length-aux_entries ld ids (guest_addr b1.soff) (guest_addr b2.soff),
        length-push_strings argv b2,
        length-push_strings envp a.1,
      )

  voff_lem : image.voff ≡ vector_offset image.soff (length argv) (length envp)
  unfolding stack_image
  voff_lem = refl

  -- The vector needs six words more than build_stack reserves, so its end lies 9 to 24 bytes above
  -- the lowest string and overwrites the string's first bytes.
  pub vector_overlaps :
      nwords (length argv) (length envp) * 4 ≤ image.soff
      → image.soff ≤ block_size
      → (image.voff % 16 ≡ 0)
        × (image.soff + 9 ≤ image.voff + 4 * length image.words)
        × (image.voff + 4 * length image.words ≤ image.soff + 24)
  vector_overlaps fits small =
      placed image.voff image.soff (length image.words) (length argv + length envp)
        (voff_lem ∙ ap (λ n. (image.soff + 2 ^ 32 - n * 4) % 2 ^ 32 / 16 * 16) (omega arith))
        (length-words ∙ refl) (omega arith) small
    where
      placed :
          (v s l n : ℕ)
          → v ≡ (s + 2 ^ 32 - (n + 31) * 4) % 2 ^ 32 / 16 * 16
          → l ≡ n + 37
          → (n + 31) * 4 ≤ s
          → s ≤ block_size
          → (v % 16 ≡ 0) × (s + 9 ≤ v + 4 * l) × (v + 4 * l ≤ s + 24)
      placed v s l n e f fits small = omega arith

get_or-words_bytes_end :
    (ws : List ℕ) (i : ℕ) → get_or (words_bytes (ws ++ 0 ∷ 0 ∷ [])) (4 * length ws + i) 0 ≡ 0
unfolding words_bytes
get_or-words_bytes_end [] i = below_8 (4 * zero + i)
  where
    below_8 : (n : ℕ) → get_or (words_bytes (0 ∷ 0 ∷ [])) n 0 ≡ 0
    below_8 zero = refl
    below_8 (suc zero) = refl
    below_8 (suc (suc zero)) = refl
    below_8 (suc (suc (suc zero))) = refl
    below_8 (suc (suc (suc (suc zero)))) = refl
    below_8 (suc (suc (suc (suc (suc zero))))) = refl
    below_8 (suc (suc (suc (suc (suc (suc zero)))))) = refl
    below_8 (suc (suc (suc (suc (suc (suc (suc zero))))))) = refl
    below_8 (suc (suc (suc (suc (suc (suc (suc (suc n)))))))) = refl
get_or-words_bytes_end (w ∷ ws) i =
    ap (λ n. get_or (words_bytes (w ∷ (ws ++ 0 ∷ 0 ∷ []))) n 0) shift ∙ get_or-words_bytes_end ws i
  where
    shift : 4 * length (w ∷ ws) + i ≡ suc (suc (suc (suc (4 * length ws + i))))
    shift = omega arith

vector-append :
    (argc : ℕ) (argv envp aux : List ℕ)
    → vector argc argv envp aux ≡ (argc ∷ (argv ++ 0 ∷ (envp ++ 0 ∷ aux))) ++ 0 ∷ 0 ∷ []
unfolding vector
vector-append argc argv envp aux = simp append_assoc

-- The last two words of a vector are zero.
get_or-vector_end :
    (argc : ℕ) (argv envp aux : List ℕ) (i : ℕ)
    → get_or
        (words_bytes (vector argc argv envp aux))
        (4 * length (vector argc argv envp aux) - 8 + i)
        0
      ≡ 0
get_or-vector_end argc argv envp aux i =
    let front = argc ∷ (argv ++ 0 ∷ (envp ++ 0 ∷ aux)) in
    rw (vector-append argc argv envp aux) (
      ap (λ n. get_or (words_bytes (front ++ 0 ∷ 0 ∷ [])) n 0)
        (omega (arith, length-append front (0 ∷ 0 ∷ [])))
      ∙ get_or-words_bytes_end front i)

module _ (e : List ℕ) (argv envp : List (List ℕ)) (ld : Loaded) (ids : Ids) (rnd : List ℕ) where
  abbrev with_env : Image
  with_env = stack_image argv (e ∷ envp) ld ids rnd

  first_env : get_or with_env.envp 0 0 ≡ guest_addr with_env.soff
  unfolding stack_image push_strings
  first_env = refl

  blk_lem :
      (x : ℕ)
      → with_env.voff ≤ x
      → x < with_env.voff + 4 * length with_env.words
      → with_env.blk x ≡ get_or (words_bytes with_env.words) (x - with_env.voff) 0
  unfolding stack_image write_at
  blk_lem x lo hi = ground (arith, length-words_bytes with_env.words)

  words_end :
      (i : ℕ) → get_or (words_bytes with_env.words) (4 * length with_env.words - 8 + i) 0 ≡ 0
  unfolding stack_image
  words_end i = get_or-vector_end _ _ _ _ i

  -- With an environment of at least one string, the guest's envp[0] points at the lowest string, and
  -- a zero word of the vector lies over it: the guest reads at most 16 bytes of that string.
  pub first_env_cut :
      nwords (length argv) (length (e ∷ envp)) * 4 ≤ with_env.soff
      → with_env.soff ≤ block_size
      → (n : ℕ) × (1 ≤ n)
        × (n ≤ 16)
        × (get_or with_env.envp 0 0 ≡ guest_addr with_env.soff)
        × ((j : ℕ) → j < 8 → with_env.blk (with_env.soff + n + j) ≡ 0)
  first_env_cut fits small =
      let over = vector_overlaps argv (e ∷ envp) ld ids rnd fits small in
      let n = with_env.voff + 4 * length with_env.words - 8 - with_env.soff in
      (
        n,
        omega (arith, over),
        omega (arith, over),
        first_env,
        (λ j lt.
            blk_lem (with_env.soff + n + j)
              (omega (arith, over, length-words argv (e ∷ envp) ld ids rnd)) (omega (arith, over))
            ∙ ap (λ x. get_or (words_bytes with_env.words) x 0)
                (omega (arith, over, length-words argv (e ∷ envp) ld ids rnd))
            ∙ words_end j),
      )
