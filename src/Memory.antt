-- ===== src/Memory.antt =====
-- linux-personality/oryxlinux.c, access to the memory of a guest task: PAGE_DOWN, PAGE_UP, peek,
-- poke and peek_str. Addresses are 32-bit words and the page size of the i386 is 4096.
pub mod Peek
pub mod Poke
pub mod Range
pub mod Str
use oryx_hurd.Base.{
  ℕ, zero, suc, ◌+◌, ◌-◌, ◌*◌, ◌/◌, ◌%◌, ◌^◌, min, Bool, true, false, Option, none, some, List, [],
  ◌∷◌, ◌++◌, St, pure, ◌>>=◌, ◌>>◌, ltb, ◌==◌, if◌then◌else◌, ◌||◌, length, take, drop, replicate,
}
use oryx_hurd.Host.{Host}

abbrev pub page_size : ℕ
page_size = 4096

abbrev pub page_down : ℕ → ℕ
page_down x = x / page_size * page_size

abbrev pub page_up : ℕ → ℕ
page_up x = page_down ((x + (page_size - 1)) % 2 ^ 32)

-- p1 - p0 for the pages that hold `len` bytes at `addr`
abbrev pub page_span : ℕ → ℕ → ℕ
page_span addr len = (page_up ((addr + len) % 2 ^ 32) + 2 ^ 32 - page_down addr) % 2 ^ 32

-- memcpy of `bytes` to the offset `at` of `buf`
unfoldable pub splice : List ℕ → ℕ → List ℕ → List ℕ
splice buf at bytes = take at buf ++ (bytes ++ drop (at + length bytes) buf)

-- memchr(bytes, 0, ...)
unfoldable pub has_zero : List ℕ → Bool
has_zero [] = false
has_zero (b ∷ bytes) = (b == 0) || has_zero bytes

-- One chunk of a string: `rest` is the loop from the new offset on, with the new buffer.
unfoldable pub str_found :
    (ℕ → List ℕ → Option (List ℕ)) → (got chunk : ℕ) → (buf bytes : List ℕ) → Bool → Option (List ℕ)
str_found rest got chunk buf bytes true = some (splice buf got bytes)
str_found rest got chunk buf bytes false = rest (got + chunk) (splice buf got bytes)

-- A chunk that cannot be read is the result -1 only if it is the first.
unfoldable pub str_chunk :
    (ℕ → List ℕ → Option (List ℕ)) → (got chunk : ℕ) → List ℕ → Option (List ℕ) → Option (List ℕ)
str_chunk rest got chunk buf none = if got == 0 then none else some buf
str_chunk rest got chunk buf (some bytes) = str_found rest got chunk buf bytes (has_zero bytes)

-- The bytes up to the end of a page, or up to the last but one of the buffer.
abbrev pub chunk_at : (addr max got : ℕ) → ℕ
chunk_at addr max got = min (page_size - (addr + got) % 2 ^ 32 % page_size) (max - 1 - got)

module _ {K : Type 0} (host : Host K) where
  -- The slice of what vm_read gives; `none` is the result -1.
  unfoldable pub peek_slice : ℕ → ℕ → List ℕ → Option (List ℕ)
  peek_slice off len got =
      if ltb (length got) (off + len) then none else some (take len (drop off got))

  unfoldable pub peek : ℕ → ℕ → ℕ → K → Option (List ℕ)
  peek task addr len k =
      if len == 0
      then some []
      else elim (host.vm_read task (page_down addr) (page_span addr len) k) [
        | none ↦ none
        | some got ↦ peek_slice (addr - page_down addr) len got
      ]

  -- memset to 0, then memcpy of what could be read
  unfoldable pub old_page : ℕ → Option (List ℕ) → List ℕ
  old_page span none = replicate span 0
  old_page span (some got) = take span got ++ replicate (span - min (length got) span) 0

  -- vm_protect may fail; only the result of vm_write counts.
  unfoldable pub poke_pages : ℕ → ℕ → ℕ → List ℕ → St K Bool
  poke_pages task p0 span page = do host.vm_protect task p0 span 3; host.vm_write task p0 page

  -- The test of posix_memalign's result: `bytes` go to the offset `off` of the page `p0`.
  unfoldable pub poke_alloc : (task p0 span off : ℕ) → List ℕ → Bool → St K Bool
  poke_alloc task p0 span off bytes false k = (false, k)
  poke_alloc task p0 span off bytes true k =
      poke_pages task p0 span (splice (old_page span (host.vm_read task p0 span k)) off bytes) k

  -- `true` is the result 0, `false` is -1.
  unfoldable pub poke : ℕ → ℕ → List ℕ → St K Bool
  poke task addr bytes = if length bytes == 0 then pure true else do
    let span = page_span addr (length bytes)
    let p0 = page_down addr
    got_page ← host.malloc span
    poke_alloc task p0 span (addr - p0) bytes got_page

  -- The loop of peek_str. `buf` is the caller's buffer of `max` bytes with what it held before.
  -- Each round reads a byte at least, so `max` rounds are enough.
  unfoldable pub peek_str_loop : ℕ → ℕ → ℕ → ℕ → ℕ → List ℕ → K → Option (List ℕ)
  peek_str_loop zero task addr max got buf k = none
  peek_str_loop (suc fuel) task addr max got buf k =
      let chunk = chunk_at addr max got in
      if ltb got (max - 1)
      then str_chunk (λ at b. peek_str_loop fuel task addr max at b k) got chunk buf
          (peek task ((addr + got) % 2 ^ 32) chunk k)
      else some (splice buf (max - 1) (0 ∷ []))

  -- `none` is the result -1, `some` is the buffer after the result 0.
  unfoldable pub peek_str : ℕ → ℕ → ℕ → List ℕ → K → Option (List ℕ)
  peek_str task addr max buf k = peek_str_loop max task addr max 0 buf k
