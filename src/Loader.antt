-- ===== src/Loader.antt =====
-- linux-personality/oryxlinux.c: load_one and load_program. The bytes of the file are read by Elf.
pub mod Bounds
pub mod Elf
use oryx_hurd.Base.{
  ℕ, zero, suc, ◌+◌, ◌-◌, ◌*◌, ◌%◌, ◌^◌, Bool, true, false, ◌&&◌, ◌||◌, Option, none, some, List,
  [], ◌∷◌, pos, bit, max, min, St, pure, ◌>>=◌, ◌>>◌, ltb, leb, ◌==◌, if◌then◌else◌, length, get_or,
  first_index,
}
use oryx_hurd.Host.{Host, Outcome, ok, fail, KernReturn, kern_success, kern_no_space, kern_failure}
use oryx_hurd.Server.{Server, Proc, me, lift, set_proc}
use oryx_hurd.Memory.{page_down, page_up, poke}
use oryx_hurd.Syscall.Io.{word_at}
use oryx_hurd.Syscall.Files.{OpenFlags, c_string, resolve}
use oryx_hurd.Stack.{Loaded, build_stack}
use oryx_hurd.Loader.Elf.{
  half_at, ehdr, is_i386_elf, pt_load, pt_interp, et_exec, et_dyn, phdr_at, file_bytes,
  segment_prot, segment_addr, segment_end, segment_span, usable, interp_text, covers, phdr_addr,
  loaded_of, Ehdr, Phdr, Segments,
}

abbrev pub pie_base : ℕ
pie_base = 0x56555000

abbrev pub interp_base : ℕ
interp_base = 0x40000000

abbrev pub set_break : ℕ → Proc → Proc
set_break at p = record p { brk_lo = at; brk_hi = at }

-- Without a PT_LOAD the file is refused.
unfoldable pub loaded_if : (bias : ℕ) → List ℕ → Ehdr → Option Segments → Option Loaded
loaded_if bias img eh none = none
loaded_if bias img eh (some segs) =
    if segs.mapped == 0 then none else some (loaded_of bias img eh segs)

module _ {K : Type 0} (host : Host K) where
  -- One PT_LOAD; `false` is a failure.
  unfoldable pub load_segment : (task bias : ℕ) → List ℕ → Phdr → St K Bool
  load_segment task bias img ph k =
      let vaddr = segment_addr bias ph in
      let vstart = page_down vaddr in
      let r = host.vm_allocate task vstart (segment_span bias ph) false k in
      if usable r.0.0
      then (do
        written ←
            if ph.p_filesz == 0
            then pure true
            else poke host task vaddr (file_bytes img ph.p_offset ph.p_filesz)
        if written
            then (host.vm_protect task vstart (segment_span bias ph) (segment_prot ph.p_flags)
                >> pure true)
            else pure false)
          r.1
      else (false, r.1)

  -- What the loop does after a PT_LOAD; `rest` is the loop over the later headers.
  unfoldable pub load_after :
      (Segments → St K (Option Segments))
      → (bias : ℕ) → Phdr
      → Segments
      → Bool
      → St K (Option Segments)
  load_after rest bias ph segs false k = (none, k)
  load_after rest bias ph segs true k =
      rest
        (record segs { highest = max segs.highest (segment_end bias ph); mapped = suc segs.mapped })
        k

  -- One header: a PT_INTERP, a PT_LOAD or another, which is passed over.
  unfoldable pub load_header :
      (Segments → St K (Option Segments))
      → (task bias : ℕ) → List ℕ
      → Phdr
      → Segments
      → (is_interp is_load : Bool) → St K (Option Segments)
  load_header rest task bias img ph segs true is_load k =
      rest (record segs { interp = interp_text img ph }) k
  load_header rest task bias img ph segs false false k = rest segs k
  load_header rest task bias img ph segs false true k =
      let r = load_segment task bias img ph k in load_after rest bias ph segs r.0 r.1

  -- The loop over the program headers from `i` on.
  unfoldable pub load_segments :
      (task bias : ℕ) → List ℕ → (phoff n i : ℕ) → Segments → St K (Option Segments)
  load_segments task bias img phoff zero i segs k = (some segs, k)
  load_segments task bias img phoff (suc n) i segs k =
      let ph = phdr_at img phoff i in
      load_header (λ t. load_segments task bias img phoff n (suc i) t) task bias img ph segs
        (ph.p_type == pt_interp) (ph.p_type == pt_load) k

  -- From the bytes of the file on.
  unfoldable pub load_image : (task bias : ℕ) → List ℕ → St K (Option Loaded)
  load_image task bias0 img k =
      let eh = ehdr img in
      let bias = if eh.e_type == et_exec then 0 else bias0 in
      if is_i386_elf img && ((eh.e_type == et_exec) || (eh.e_type == et_dyn))
      then (let r =
            load_segments task bias img eh.e_phoff eh.e_phnum 0
              (record { highest = 0; mapped = 0; interp = [] }) k in
          (loaded_if bias img eh r.0, r.1))
      else (none, k)

  -- The whole file, if its size is what fstat says.
  unfoldable pub read_whole : (fd size : ℕ) → St K (Option (List ℕ))
  read_whole fd size = do
    got_img ← host.malloc size
    r ← if got_img then host.read (pos fd) size else pure (fail 0)
    host.close fd
    pure (elim r [ fail e ↦ none | ok bytes ↦ if length bytes == size then some bytes else none ])

  unfoldable pub read_file : Outcome ℕ → St K (Option (List ℕ))
  read_file (fail e) k = (none, k)
  read_file (ok fd) k = elim (host.fstat (pos fd) k) [
    | fail e ↦ (none, (host.close fd k).1)
    | ok st ↦ read_whole fd st.st_size k
  ]

  unfoldable pub load_one : OpenFlags → (task : ℕ) → List ℕ → (bias : ℕ) → St K (Option Loaded)
  load_one o task path bias = do
    fd ← host.open_file path o.o_rdonly 0
    img ← read_file fd
    elim img [ none ↦ pure none | some bytes ↦ load_image task bias bytes ]

  -- The stack, and the address to start at.
  unfoldable pub start_program :
      (argv envp : List (List ℕ)) → Loaded → (start : ℕ) → St (Server K) (Option (ℕ × ℕ))
  start_program argv envp ld start s =
      (do
        esp ← lift (build_stack host argv envp ld (me s).task)
        pure (elim esp [ none ↦ none | some e ↦ some (start, e) ]))
        s

  -- With the interpreter loaded: it runs first, and the heap starts above both.
  unfoldable pub with_interp :
      (argv envp : List (List ℕ)) → Loaded → Option Loaded → St (Server K) (Option (ℕ × ℕ))
  with_interp argv envp ld none s = (none, s)
  with_interp argv envp ld (some interp) s =
      (do
        set_proc s.cur (λ p. if ltb p.brk_hi interp.brk then set_break interp.brk p else p)
        start_program argv envp (record ld { interp_base = interp.base }) interp.entry)
        s

  -- The test of ld.interp[0]: a program without an interpreter starts at its own entry.
  unfoldable pub load_interp :
      OpenFlags → (argv envp : List (List ℕ)) → Loaded → List ℕ → St (Server K) (Option (ℕ × ℕ))
  load_interp o argv envp ld [] s = start_program argv envp ld ld.entry s
  load_interp o argv envp ld (c ∷ rest) s =
      (do
        interp ←
            lift (λ k. load_one o (me s).task (resolve host s.sysroot (c ∷ rest) k) interp_base k)
        with_interp argv envp ld interp)
        s

  -- With the program loaded.
  unfoldable pub with_program :
      OpenFlags → (argv envp : List (List ℕ)) → Option Loaded → St (Server K) (Option (ℕ × ℕ))
  with_program o argv envp none s = (none, s)
  with_program o argv envp (some ld) s =
      (do set_proc s.cur (set_break ld.brk); load_interp o argv envp ld ld.interp) s

  -- The result is the entry and the stack pointer.
  unfoldable pub load_program :
      OpenFlags → List ℕ → (argv envp : List (List ℕ)) → St (Server K) (Option (ℕ × ℕ))
  load_program o path argv envp s =
      (do ld ← lift (load_one o (me s).task path pie_base); with_program o argv envp ld) s
