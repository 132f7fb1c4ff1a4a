-- ===== src/Loader/Bounds.antt =====
-- linux-personality/oryxlinux.c: what load_one finds out about the segments that it maps.
use oryx_hurd.Base.{
  ℕ, zero, suc, ◌+◌, ◌%◌, ◌^◌, ◌≤◌, ◌<◌, ◌≡◌, refl, ap, sym, Bool, true, false, ◌&&◌, ◌||◌, Option,
  none, some, List, [], ◌==◌, max, St, if◌then◌else◌, arith, eq-or-lt, inl, inr,
}
use oryx_hurd.Host.{Host}
use oryx_hurd.Stack.{Loaded}
use oryx_hurd.Loader.{load_segment, load_after, load_header, load_segments, load_image, loaded_if}
use oryx_hurd.Loader.Elf.{
  ehdr, Segments, phdr_at, pt_load, pt_interp, et_exec, et_dyn, is_i386_elf, segment_end, loaded_of,
  interp_text,
}

module _ {K : Type 0} (host : Host K) (task bias : ℕ) (img : List ℕ) (phoff : ℕ) where
  -- The loop over `n` headers from `i` on has found the end of every PT_LOAD among them.
  abbrev pub Covered : (n i : ℕ) → (segs out : Segments) → Type 0
  Covered n i segs out =
      (segs.highest ≤ out.highest)
      × (segs.mapped ≤ out.mapped)
      × ((j : ℕ)
          → i ≤ j
          → j < i + n
          → (phdr_at img phoff j).p_type ≡ pt_load
          → (segment_end bias (phdr_at img phoff j) ≤ out.highest) × (segs.mapped < out.mapped))

  -- The same for a result that may be a failure.
  abbrev Covers : (n i : ℕ) → Segments → Option Segments → Type 0
  Covers n i segs o = (out : Segments) → o ≡ some out → Covered n i segs out

  load_after-Covers :
      (rest : Segments → St K (Option Segments)) (n i : ℕ) (segs : Segments) (b : Bool) (k : K)
      → ((t : Segments) (k : K) → Covers n (suc i) t (rest t k).0)
      → Covers (suc n) i segs (load_after host rest bias (phdr_at img phoff i) segs b k).0
  unfolding load_after
  load_after-Covers rest n i segs false k ih out e = ground arith
  load_after-Covers rest n i segs true k ih out e =
      let ph = phdr_at img phoff i in
      let next = record segs {
        highest = max segs.highest (segment_end bias ph);
        mapped = suc segs.mapped;
      } in
      let after = ih next k out e in
      (
        omega (arith, after.0),
        omega (arith, after.1),
        (λ j lo hi load. elim (eq-or-lt i j lo) [
          | inl here ↦ (rw (sym here) (omega (arith, after.0)), omega (arith, after.1))
          | inr later ↦
              let there = after.2 j later (omega arith) load in (there.0, omega (arith, there.1))
        ]),
      )

  -- A header that is no PT_LOAD is passed over.
  skip-Covers :
      (n i : ℕ) (segs next : Segments) (o : Option Segments)
      → next.highest ≡ segs.highest
      → next.mapped ≡ segs.mapped
      → ((phdr_at img phoff i).p_type == pt_load) ≡ false
      → Covers n (suc i) next o
      → Covers (suc n) i segs o
  skip-Covers n i segs next o same_top same_count other ih out e =
      let after = ih out e in
      (
        omega (arith, after.0),
        omega (arith, after.1),
        (λ j lo hi load. elim (eq-or-lt i j lo) [
          | inl here ↦
              absurd (ground (arith, other, load, ap (λ k. (phdr_at img phoff k).p_type) here))
          | inr later ↦
              let there = after.2 j later (omega arith) load in (there.0, omega (arith, there.1))
        ]),
      )

  load_header-Covers :
      (rest : Segments → St K (Option Segments)) (n i : ℕ) (segs : Segments)
      (is_interp is_load : Bool) (k : K)
      → ((phdr_at img phoff i).p_type == pt_interp) ≡ is_interp
      → ((phdr_at img phoff i).p_type == pt_load) ≡ is_load
      → ((t : Segments) (k : K) → Covers n (suc i) t (rest t k).0)
      → Covers
          (suc n)
          i
          segs
          (load_header host rest task bias img (phdr_at img phoff i) segs is_interp is_load k).0
  unfolding load_header
  load_header-Covers rest n i segs true is_load k e f ih =
      let next = record segs { interp = interp_text img (phdr_at img phoff i) } in
      skip-Covers n i segs next _ refl refl (ground (arith, e)) (ih next k)
  load_header-Covers rest n i segs false false k e f ih =
      skip-Covers n i segs segs _ refl refl f (ih segs k)
  load_header-Covers rest n i segs false true k e f ih =
      let r = load_segment host task bias img (phdr_at img phoff i) k in
      load_after-Covers rest n i segs r.0 r.1 ih

  load_segments-Covers :
      (n i : ℕ) (segs : Segments) (k : K)
      → Covers n i segs (load_segments host task bias img phoff n i segs k).0
  unfolding load_segments
  load_segments-Covers zero i segs k out e =
      (ground (arith, e), ground (arith, e), (λ j lo hi load. absurd (omega arith)))
  load_segments-Covers (suc n) i segs k out e =
      load_header-Covers (λ t. load_segments host task bias img phoff n (suc i) t) n i segs _ _ k
        refl refl (λ t k. load_segments-Covers n (suc i) t k) out e

-- The bias at which load_one puts the file: an ET_EXEC stays where it says.
abbrev pub bias_of : (bias : ℕ) → List ℕ → ℕ
bias_of bias img = if (ehdr img).e_type == et_exec then 0 else bias

module _ {K : Type 0} (host : Host K) (task bias : ℕ) (img : List ℕ) where
  loaded_if-brk :
      (b : ℕ) (o : Option Segments) (ld : Loaded)
      → loaded_if b img (ehdr img) o ≡ some ld
      → (segs : Segments) × (o ≡ some segs)
        × (ld.brk ≡ segs.highest)
        × (ld.base ≡ b)
        × (ld.entry ≡ (b + (ehdr img).e_entry) % 2 ^ 32)
  unfolding loaded_if loaded_of
  loaded_if-brk b none ld e = ground arith
  loaded_if-brk b (some segs) ld e =
      (segs, refl, ground (arith, e), ground (arith, e), ground (arith, e))

  -- A program that load_one accepts is an i386 ELF file; it is placed at the bias, or where it says
  -- if it is an ET_EXEC; its heap starts at or above the end of every segment of it.
  pub load_image_lem :
      (k : K) (ld : Loaded)
      → (load_image host task bias img k).0 ≡ some ld
      → (is_i386_elf img ≡ true)
        × (ld.base ≡ bias_of bias img)
        × (ld.entry ≡ (bias_of bias img + (ehdr img).e_entry) % 2 ^ 32)
        × ((j : ℕ)
            → j < (ehdr img).e_phnum
            → (phdr_at img (ehdr img).e_phoff j).p_type ≡ pt_load
            → segment_end (bias_of bias img) (phdr_at img (ehdr img).e_phoff j) ≤ ld.brk)
  unfolding load_image
  load_image_lem k ld e =
      let eh = ehdr img in
      let b = bias_of bias img in
      let none_yet : Segments = record { highest = 0; mapped = 0; interp = [] } in
      let r = load_segments host task b img eh.e_phoff eh.e_phnum 0 none_yet k in
      let accepted =
        taken (is_i386_elf img && ((eh.e_type == et_exec) || (eh.e_type == et_dyn)))
          (loaded_if b img eh r.0) r.1 k ld e in
      let parts = loaded_if-brk b r.0 ld accepted.1 in
      let covered =
        load_segments-Covers host task b img eh.e_phoff eh.e_phnum 0 none_yet k parts.0 parts.1 in
      (
        ground (arith, accepted.0),
        parts.3,
        parts.4,
        (λ j small load. omega (arith, parts.2, (covered.2 j (omega arith) (omega arith) load).0)),
      )
    where
      taken :
          (c : Bool) (o : Option Loaded) (k k' : K) (ld : Loaded)
          → (let x : Option Loaded × K = if c then (o, k) else (none, k') in x.0 ≡ some ld)
          → (c ≡ true) × (o ≡ some ld)
      taken true o k k' ld e = (refl, e)
      taken false o k k' ld e = ground arith
