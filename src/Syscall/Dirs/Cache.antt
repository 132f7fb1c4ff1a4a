-- ===== src/Syscall/Dirs/Cache.antt =====
-- linux-personality/oryxlinux.c: dir_for and dir_forget keep a map from descriptors to streams.
use oryx_hurd.Base.{
  ℕ, zero, suc, ◌+◌, ◌<◌, ◌≡◌, ◌≢◌, refl, sym, ◌∙◌, ap, fun_ext, inl, inr, ◌⊎◌, true, false, ◌&&◌,
  Option, none, some, ℤ, pos, negsuc, ◌==◌, ltb, leb, if◌then◌else◌, Bool-cases, update,
  first_index, first_index-holds, first_index-none, arith,
}
use oryx_hurd.Host.{Host, Outcome, ok, fail}
use oryx_hurd.Server.{Server, DirSlot}
use oryx_hurd.Syscall.Files.{forget_loop, dir_forget, max_dircache}
use oryx_hurd.Syscall.Dirs.{caches, vacant, dir_for, dir_open, dir_dupped, dir_opened}

-- The stream of a descriptor, as the cache has it.
abbrev dir_at : (ℕ → DirSlot) → Option ℕ → Option ℕ
dir_at cache none = none
dir_at cache (some i) = (cache i).dir

abbrev pub stream_of : (ℕ → DirSlot) → ℤ → Option ℕ
stream_of cache fd = dir_at cache (first_index (λ i. caches fd (cache i)) max_dircache)

-- The slot has what it had, or neither has nor had a stream of `g`.
abbrev Untouched : ℤ → DirSlot → DirSlot → Type 0
Untouched g old new = (new ≡ old) ⊎ ((caches g new ≡ false) × (caches g old ≡ false))

stream_of-same :
    (g : ℤ) (c d : ℕ → DirSlot)
    → ((j : ℕ) → Untouched g (c j) (d j))
    → stream_of d g ≡ stream_of c g
stream_of-same g c d same =
    ap (λ p. dir_at d (first_index p max_dircache)) (fun_ext (λ j. tests j (same j)))
    ∙ by_index _ refl
  where
    tests : (j : ℕ) → Untouched g (c j) (d j) → caches g (d j) ≡ caches g (c j)
    tests j (inl e) = ap (caches g) e
    tests j (inr (new, old)) = new ∙ sym old

    by_index :
        (o : Option ℕ)
        → first_index (λ i. caches g (c i)) max_dircache ≡ o
        → dir_at d o ≡ dir_at c o
    by_index none e = refl
    by_index (some j) e =
        let holds = (first_index-holds _ max_dircache j e).0 in
        elim (same j) [ inl kept ↦ ap (λ slot. slot.dir) kept | inr (new, old) ↦ absurd (cc) ]

stream_of-none :
    (fd : ℤ) (c : ℕ → DirSlot)
    → ((j : ℕ) → j < max_dircache → caches fd (c j) ≡ false)
    → stream_of c fd ≡ none
stream_of-none fd c gone = by_index _ refl
  where
    by_index :
        (o : Option ℕ) → first_index (λ i. caches fd (c i)) max_dircache ≡ o → dir_at c o ≡ none
    by_index none e = refl
    by_index (some j) e =
        let (holds, small) = first_index-holds _ max_dircache j e in
        let empty = gone j small in absurd (cc)

-- dir_for gives the stream that the cache has, or one that was not there.
abbrev pub Found : {K : Type 0} → (fd g : ℤ) → Server K → Option ℕ × Server K → Type 0
Found fd g s r =
    (((r.0 ≡ stream_of s.dircache fd) × (r.1 ≡ s)) ⊎ (stream_of s.dircache fd ≡ none))
    × (stream_of r.1.dircache fd ≡ r.0)
    × (stream_of r.1.dircache g ≡ stream_of s.dircache g)

module _ {K : Type 0} (host : Host K) where
  -- The slots from `i` on, `k` of them, lose the streams of `fd`; the others stay.
  abbrev Forgets : (k i : ℕ) → ℤ → (ℕ → DirSlot) → (ℕ → DirSlot) → ℕ → Type 0
  Forgets k i fd c d j = d j ≡ (
      if (leb i j && ltb j (i + k)) && caches fd (c j)
      then record { fd = (c j).fd; dir = none }
      else c j)

  forget_step :
      (k i : ℕ) (fd : ℤ) (c : ℕ → DirSlot) (s : K) (j : ℕ) (o : Option ℕ)
      → (c i).dir ≡ o
      → Forgets k (suc i) fd c (forget_loop host k (suc i) fd c s).0 j
      → ((dir : ℕ)
          → let e = update c i (record { fd = (c i).fd; dir = none }) in
            Forgets k (suc i) fd e (forget_loop host k (suc i) fd e (host.closedir dir s).1).0 j)
      → Forgets (suc k) i fd c (forget_loop host (suc k) i fd c s).0 j
  unfolding forget_loop
  forget_step k i fd c s j none e left gone = ground (arith, e, left)
  forget_step k i fd c s j (some dir) e left gone = ground (arith, e, left, gone dir)

  forget_loop-Forgets :
      (k i : ℕ) (fd : ℤ) (c : ℕ → DirSlot) (s : K) (j : ℕ)
      → Forgets k i fd c (forget_loop host k i fd c s).0 j
  unfolding forget_loop
  forget_loop-Forgets zero i fd c s j = ground arith
  forget_loop-Forgets (suc k) i fd c s j =
      forget_step k i fd c s j (c i).dir refl (forget_loop-Forgets k (suc i) fd c s j)
        (λ dir. forget_loop-Forgets k (suc i) fd _ _ j)

  -- The cache after an attempt to open a stream for `fd`, whose result is `r`.
  abbrev Keeps : (fd g : ℤ) → Server K → Option ℕ × Server K → Type 0
  Keeps fd g s r =
      (stream_of r.1.dircache fd ≡ r.0) × (stream_of r.1.dircache g ≡ stream_of s.dircache g)

  stream_of-new :
      (i : ℕ) (fd : ℤ) (dir : ℕ) (c : ℕ → DirSlot)
      → i < max_dircache
      → ((j : ℕ) → j < max_dircache → caches fd (c j) ≡ false)
      → stream_of (update c i (record { fd = fd; dir = some dir })) fd ≡ some dir
  stream_of-new i fd dir c small absent = by_index _ refl
    where
      d : ℕ → DirSlot
      d = update c i (record { fd = fd; dir = some dir })

      by_index :
          (o : Option ℕ)
          → first_index (λ j. caches fd (d j)) max_dircache ≡ o
          → dir_at d o ≡ some dir
      by_index none e = absurd (ground (arith, first_index-none _ max_dircache i e small))
      by_index (some j) e =
          let (holds, inside) = first_index-holds (λ j. caches fd (d j)) max_dircache j e in
          ground (arith, holds, absent j inside)

  module _ (fd g : ℤ) (ne : g ≢ fd) (s : Server K)
      (absent : (j : ℕ) → j < max_dircache → caches fd (s.dircache j) ≡ false) where
    dir_opened-Keeps :
        (i d : ℕ) (o : Outcome ℕ)
        → i < max_dircache
        → vacant (s.dircache i) ≡ true
        → (k : K) → Keeps fd g s (dir_opened host i fd d o (record s { kernel = k }))
    unfolding dir_opened
    dir_opened-Keeps i d (fail e) small free k = (stream_of-none fd s.dircache absent, refl)
    dir_opened-Keeps i d (ok dir) small free k = (
      stream_of-new i fd dir s.dircache small absent,
      stream_of-same g s.dircache _ (λ j. elim (Bool-cases (i == j)) [
        | inl here ↦ inr (ground arith, ground arith)
        | inr other ↦ inl (ground arith)
      ]),
    )

    dir_dupped-Keeps :
        (i : ℕ) (o : Outcome ℕ)
        → i < max_dircache
        → vacant (s.dircache i) ≡ true
        → (k : K) → Keeps fd g s (dir_dupped host i fd o (record s { kernel = k }))
    unfolding dir_dupped
    dir_dupped-Keeps i (fail e) small free k = (stream_of-none fd s.dircache absent, refl)
    dir_dupped-Keeps i (ok d) small free k =
        let r = host.fdopendir d k in dir_opened-Keeps i d r.0 small free r.1

  dir_open-Keeps :
      (fd g : ℤ) (s : Server K) (o : Option ℕ)
      → g ≢ fd
      → ((j : ℕ) → j < max_dircache → caches fd (s.dircache j) ≡ false)
      → first_index (λ i. vacant (s.dircache i)) max_dircache ≡ o
      → Keeps fd g s (dir_open host fd o s)
  unfolding dir_open
  dir_open-Keeps fd g s none ne absent e = (stream_of-none fd s.dircache absent, refl)
  dir_open-Keeps (negsuc n) g s (some i) ne absent e =
      (stream_of-none (negsuc n) s.dircache absent, refl)
  dir_open-Keeps (pos h) g s (some i) ne absent e =
      let (free, small) = first_index-holds _ max_dircache i e in
      let r = host.dup h s.kernel in dir_dupped-Keeps (pos h) g ne s absent i r.0 small free r.1

  dir_for-Found :
      (fd g : ℤ) (s : Server K) (o : Option ℕ)
      → g ≢ fd
      → first_index (λ i. caches fd (s.dircache i)) max_dircache ≡ o
      → Found fd g s (dir_for host fd s)
  unfolding dir_for
  dir_for-Found fd g s none ne e =
      let absent =
        λ (j : ℕ) (small : j < max_dircache). first_index-none _ max_dircache j e small in
      let (now, others) = dir_open-Keeps fd g s _ ne absent refl in
      rw (e, dir_for) (inr refl, now, others)
  dir_for-Found fd g s (some i) ne e =
      rw (e, dir_for) (inl (refl, refl), ap (dir_at s.dircache) e, refl)

  -- The cache of streams is a map from host descriptors to streams. dir_for gives the stream that
  -- the map has for the descriptor and changes nothing, so that a guest goes on where it stopped; or
  -- there was none, and its result, a new stream or none, is what the map has from then on. After
  -- dir_forget the map has none for the descriptor. For any other descriptor neither changes it.
  pub dir_cache_lem :
      (fd g : ℤ) (s : Server K)
      → g ≢ fd
      → let t = (dir_forget host fd s).1 in
        Found fd g s (dir_for host fd s)
        × (stream_of t.dircache fd ≡ none)
        × (stream_of t.dircache g ≡ stream_of s.dircache g)
  unfolding dir_forget
  dir_cache_lem fd g s ne =
      let slots = λ (j : ℕ). forget_loop-Forgets max_dircache 0 fd s.dircache s.kernel j in
      (
        dir_for-Found fd g s _ ne refl,
        stream_of-none fd _ (λ j small. ground (arith, slots j)),
        stream_of-same g s.dircache _ (λ j. elim (Bool-cases (caches fd (s.dircache j))) [
          | inl gone ↦ inr (ground (arith, slots j), ground arith)
          | inr kept ↦ inl (ground (arith, slots j))
        ]),
      )
