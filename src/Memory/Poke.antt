-- ===== src/Memory/Poke.antt =====
-- poke is a read-modify-write of whole pages that changes exactly the bytes given.
use oryx_hurd.Base.{
  ℕ, zero, ◌+◌, ◌-◌, ◌^◌, min, ◌≤◌, ◌<◌, ◌≡◌, refl, ◌∙◌, Bool, true, false, ◌&&◌, Option, none,
  some, List, ◌++◌, ltb, leb, ◌==◌, if◌then◌else◌, length, take, drop, replicate, get_or,
  length-append, length-take, length-drop, length-replicate, get_or-take, get_or-drop,
  get_or-append, get_or-replicate, arith, lt→ltb,
}
use oryx_hurd.Host.{Host}
use oryx_hurd.Memory.{
  page_size, page_down, page_span, splice, poke, poke_alloc, poke_pages, old_page,
}
use oryx_hurd.Memory.Peek.{MemLaws, page_span_covers}

length-splice :
    (buf bytes : List ℕ) (at : ℕ)
    → at + length bytes ≤ length buf
    → length (splice buf at bytes) ≡ length buf
unfolding splice
length-splice buf bytes at h = omega (
  arith,
  length-append (take at buf) (bytes ++ drop (at + length bytes) buf),
  length-append bytes (drop (at + length bytes) buf),
  length-take at buf,
  length-drop (at + length bytes) buf,
)

get_or-splice :
    (buf bytes : List ℕ) (at i : ℕ)
    → at + length bytes ≤ length buf
    → get_or (splice buf at bytes) i 0
      ≡ (if leb at i && ltb i (at + length bytes) then get_or bytes (i - at) 0 else get_or buf i 0)
unfolding splice
get_or-splice buf bytes at i h =
    let tail = drop (at + length bytes) buf in
    ground (
      arith,
      get_or-append (take at buf) (bytes ++ tail) i 0,
      length-take at buf,
      get_or-take at buf i 0,
      get_or-append bytes tail (i - length (take at buf)) 0,
      get_or-drop (at + length bytes) buf (i - length (take at buf) - length bytes) 0,
    )

module _ {K : Type 0} (host : Host K) where
  length-old_page : (span : ℕ) (old : Option (List ℕ)) → length (old_page host span old) ≡ span
  unfolding old_page
  length-old_page span none = length-replicate span 0
  length-old_page span (some got) = omega (
    arith,
    length-append (take span got) (replicate (span - min (length got) span) zero),
    length-take span got,
    length-replicate (span - min (length got) span) zero,
  )

-- What poke writes back beside its bytes: what was read, or zeros where the pages cannot be read.
abbrev pub kept : Option (List ℕ) → ℕ → ℕ
kept none b = 0
kept (some _) b = b

module _ {K : Type 0} {host : Host K} {byte : K → ℕ → ℕ → ℕ} (laws : MemLaws host byte) where
  old_page-kept :
      (t p0 span i : ℕ) (k : K) (old : Option (List ℕ))
      → host.vm_read t p0 span k ≡ old
      → i < span
      → get_or (old_page host span old) i 0 ≡ kept old (byte k t (p0 + i))
  unfolding old_page
  old_page-kept t p0 span i k none e lt = get_or-replicate span i 0
  old_page-kept t p0 span i k (some got) e lt =
      get_or-append (take span got) _ i 0
      ∙ rw (inside (laws.read_length t p0 span k got e)) (
          get_or-take span got i 0 ∙ rw (lt→ltb i span lt) (laws.read_bytes t p0 span k got i e lt))
    where
      inside : length got ≡ span → ltb i (length (take span got)) ≡ true
      inside n = ground (arith, length-take span got)

  poke_pages-bytes :
      (t p0 span x : ℕ) (page : List ℕ) (k : K)
      → (poke_pages host t p0 span page k).0 ≡ true
      → byte (poke_pages host t p0 span page k).1 t x
        ≡ (if leb p0 x && ltb x (p0 + length page) then get_or page (x - p0) 0 else byte k t x)
  unfolding poke_pages
  poke_pages-bytes t p0 span x page k done =
      laws.write_bytes t p0 x page (host.vm_protect t p0 span 3 k).1 done
      ∙ rw (laws.protect_keeps t p0 span 3 t x k)

  poke_alloc-bytes :
      (t addr x : ℕ) (bytes : List ℕ) (k : K) (b : Bool)
      → addr + length bytes + page_size ≤ 2 ^ 32
      → let span = page_span addr (length bytes) in
        let p0 = page_down addr in
        (poke_alloc host t p0 span (addr - p0) bytes b k).0 ≡ true
        → byte (poke_alloc host t p0 span (addr - p0) bytes b k).1 t x ≡ (
            if leb addr x && ltb x (addr + length bytes)
            then get_or bytes (x - addr) 0
            else if leb p0 x && ltb x (p0 + span)
            then kept (host.vm_read t p0 span k) (byte k t x)
            else byte k t x)
  unfolding poke_alloc
  poke_alloc-bytes t addr x bytes k false fits done = absurd (cc)
  poke_alloc-bytes t addr x bytes k true fits done =
      let span = page_span addr (length bytes) in
      let p0 = page_down addr in
      let old = old_page host span (host.vm_read t p0 span k) in
      ground (
        arith,
        page_span_covers addr (length bytes) fits,
        poke_pages-bytes t p0 span x (splice old (addr - p0) bytes) k done,
        length-old_page host span (host.vm_read t p0 span k),
        length-splice old bytes (addr - p0),
        get_or-splice old bytes (addr - p0) (x - p0),
        old_page-kept t p0 span (x - p0) k _ refl,
      )

  -- A poke that succeeds, of at least one byte and below the last page of the address space, puts
  -- its bytes at `addr` and changes no other byte of the task, except that the rest of the pages
  -- it touches is zeroed if the kernel could not read them.
  pub poke_lem :
      (t addr x : ℕ) (bytes : List ℕ) (k : K)
      → addr + length bytes + page_size ≤ 2 ^ 32
      → 0 < length bytes
      → (poke host t addr bytes k).0 ≡ true
      → let span = page_span addr (length bytes) in
        let p0 = page_down addr in
        let old = host.vm_read t p0 span (host.malloc span k).1 in
        byte (poke host t addr bytes k).1 t x ≡ (
          if leb addr x && ltb x (addr + length bytes)
          then get_or bytes (x - addr) 0
          else if leb p0 x && ltb x (p0 + span)
          then kept old (byte k t x)
          else byte k t x)
  unfolding poke
  poke_lem t addr x bytes k fits some_byte done =
      let span = page_span addr (length bytes) in
      let m = host.malloc span k in
      rw (more, poke)
        (poke_alloc-bytes t addr x bytes m.1 m.0 fits (rw (more, poke) at done)
          ∙ rw (laws.malloc_keeps span t x k) refl)
    where
      more : (length bytes == 0) ≡ false
      more = ground arith
