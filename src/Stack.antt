-- ===== src/Stack.antt =====
-- linux-personality/oryxlinux.c: struct loaded and build_stack, the initial stack of a guest. The
-- block of 64 KB is a function of the offset; offsets are 32-bit words and wrap as size_t does.
pub mod Layout
use oryx_hurd.Base.{
  ℕ, zero, suc, ◌+◌, ◌-◌, ◌*◌, ◌/◌, ◌%◌, ◌^◌, bit_xor, not, Bool, true, false, ◌&&◌, Option, none,
  some, List, [], ◌∷◌, ◌++◌, St, pure, ◌>>=◌, ◌>>◌, ltb, leb, if◌then◌else◌, length, get_or,
}
use oryx_hurd.Host.{Host, KernReturn, kern_success, kern_no_space, kern_failure}
use oryx_hurd.Memory.{poke}
use oryx_hurd.Process.{word_bytes}

-- struct loaded, what load_one finds out about an ELF object.
pub record Loaded : Type 0 where
  pub entry : ℕ
  pub phdr : ℕ
  pub phentsize : ℕ
  pub phnum : ℕ
  pub brk : ℕ
  pub base : ℕ
  pub interp_base : ℕ
  pub interp : List ℕ

abbrev pub stack_top : ℕ
stack_top = 0xbf000000

abbrev pub stack_size : ℕ
stack_size = 8 * 1024 * 1024

-- size_t bytes = 64 * 1024
abbrev pub block_size : ℕ
block_size = 65536

-- STACK_TOP - (bytes - off)
abbrev pub guest_addr : ℕ → ℕ
guest_addr off = (stack_top + off + 2 ^ 32 - block_size) % 2 ^ 32

-- memcpy(blk + off, bytes, length)
unfoldable pub write_at : (ℕ → ℕ) → ℕ → List ℕ → ℕ → ℕ
write_at blk off bytes x =
    if leb off x && ltb x (off + length bytes) then get_or bytes (x - off) 0 else blk x

-- The block and `soff`, the offset of the lowest string so far.
pub record Block : Type 0 where
  pub soff : ℕ
  pub blk : ℕ → ℕ

-- soff -= n; memcpy(blk + soff, ...)
unfoldable pub push_bytes : List ℕ → Block → Block
push_bytes bytes b =
    let soff = (b.soff + 2 ^ 32 - length bytes) % 2 ^ 32 in
    record { soff = soff; blk = write_at b.blk soff bytes }

-- The loop over argv or envp, from the last string to the first: the guest's addresses in order.
unfoldable pub push_strings : List (List ℕ) → Block → List ℕ × Block
push_strings [] b = ([], b)
push_strings (x ∷ xs) b =
    let r = push_strings xs b in
    let b' = push_bytes (x ++ 0 ∷ []) r.1 in (guest_addr b'.soff ∷ r.0, b')

-- The user and group ids of the emulator.
pub record Ids : Type 0 where
  pub uid : ℕ
  pub euid : ℕ
  pub gid : ℕ
  pub egid : ℕ

-- The AUX lines but the last, AT_NULL.
unfoldable pub aux_entries : Loaded → Ids → (at_random at_platform : ℕ) → List ℕ
aux_entries ld ids at_random at_platform =
    3 ∷ ld.phdr ∷ 4 ∷ ld.phentsize ∷ 5 ∷ ld.phnum ∷ 6 ∷ 4096 ∷ 7 ∷ ld.interp_base ∷ 8 ∷ 0 ∷ 9
    ∷ ld.entry ∷ 11 ∷ ids.uid ∷ 12 ∷ ids.euid ∷ 13 ∷ ids.gid ∷ 14 ∷ ids.egid ∷ 23 ∷ 0 ∷ 25
    ∷ at_random ∷ 15 ∷ at_platform ∷ 17 ∷ 100 ∷ 16 ∷ 0 ∷ []

-- The vector: argc, argv, NULL, envp, NULL, auxv, AT_NULL.
unfoldable pub vector : (argc : ℕ) → (argv envp aux : List ℕ) → List ℕ
vector argc argv envp aux = argc ∷ (argv ++ 0 ∷ (envp ++ 0 ∷ (aux ++ 0 ∷ 0 ∷ [])))

-- 1 + (argc + 1) + (envc + 1) + (14 * 2)
abbrev pub nwords : (argc envc : ℕ) → ℕ
nwords argc envc = 1 + (argc + 1) + (envc + 1) + 14 * 2

-- (soff - nwords * 4) & ~15u
abbrev pub vector_offset : (soff argc envc : ℕ) → ℕ
vector_offset soff argc envc = (soff + 2 ^ 32 - nwords argc envc * 4) % 2 ^ 32 / 16 * 16

unfoldable pub words_bytes : List ℕ → List ℕ
words_bytes [] = []
words_bytes (w ∷ ws) = word_bytes w ++ words_bytes ws

-- The block once everything is written, and where the vector starts.
pub record Image : Type 0 where
  pub soff : ℕ
  pub voff : ℕ
  pub words : List ℕ
  pub argv : List ℕ
  pub envp : List ℕ
  pub blk : ℕ → ℕ

-- static const char plat[] = "i686", with its NUL
abbrev pub plat : List ℕ
plat = 0x69 ∷ 0x36 ∷ 0x38 ∷ 0x36 ∷ 0 ∷ []

unfoldable pub stack_image :
    (argv envp : List (List ℕ)) (ld : Loaded) (ids : Ids) (rnd : List ℕ) → Image
stack_image argv envp ld ids rnd =
    let b0 : Block = record { soff = block_size; blk = λ _. 0 } in
    let b1 = push_bytes rnd b0 in
    let b2 = push_bytes plat b1 in
    let a = push_strings argv b2 in
    let e = push_strings envp a.1 in
    let words =
      vector (length argv) a.0 e.0 (aux_entries ld ids (guest_addr b1.soff) (guest_addr b2.soff)) in
    let voff = vector_offset e.1.soff (length argv) (length envp) in
    record {
      soff = e.1.soff;
      voff = voff;
      words = words;
      argv = a.0;
      envp = e.0;
      blk = write_at e.1.blk voff (words_bytes words);
    }

-- The `n` bytes of the block from `off` on.
unfoldable pub block_bytes : (ℕ → ℕ) → (off n : ℕ) → List ℕ
block_bytes blk off zero = []
block_bytes blk off (suc n) = blk off ∷ block_bytes blk (suc off) n

module _ {K : Type 0} (host : Host K) where
  -- rnd[i] = rand() ^ (i * 37), cut to a byte, for the `n` entries from `i` on
  unfoldable pub random_bytes : (n i : ℕ) → St K (List ℕ)
  random_bytes zero i = pure []
  random_bytes (suc n) i = do
    r ← host.rand
    rest ← random_bytes n (suc i)
    pure (bit_xor (r % 256) (i * 37 % 256) ∷ rest)

  abbrev pub ids_of_host : Ids
  ids_of_host = record {
    uid = host.getuid;
    euid = host.geteuid;
    gid = host.getgid;
    egid = host.getegid;
  }

  -- poke(esp, blk + voff, bytes - voff); the result is esp.
  unfoldable pub write_image : (task : ℕ) → Image → St K (Option ℕ)
  write_image task image = do
    let esp = guest_addr image.voff
    written ← poke host task esp (block_bytes image.blk image.voff (block_size - image.voff))
    pure (if written then some esp else none)

  -- From vm_protect on.
  unfoldable pub fill_stack :
      (argv envp : List (List ℕ)) (ld : Loaded) (task base : ℕ) → St K (Option ℕ)
  fill_stack argv envp ld task base = do
    host.vm_protect task base stack_size 3
    got_block ← host.malloc block_size
    if got_block && not (ltb 120 (length argv + length envp))
        then (do
          rnd ← random_bytes 16 0
          write_image task (stack_image argv envp ld ids_of_host rnd))
        else pure none

  -- `none` is the result -1, `some esp` is 0.
  unfoldable pub build_stack :
      (argv envp : List (List ℕ)) (ld : Loaded) (task : ℕ) → St K (Option ℕ)
  build_stack argv envp ld task k =
      let r = host.vm_allocate task (stack_top - stack_size) stack_size false k in
      elim r.0.0 [
        | kern_success ↦ fill_stack argv envp ld task r.0.1 r.1
        | kern_no_space ↦ (none, r.1)
        | kern_failure ↦ (none, r.1)
      ]
