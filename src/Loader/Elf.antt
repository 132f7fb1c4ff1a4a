-- ===== src/Loader/Elf.antt =====
-- linux-personality/oryxlinux.c, load_one: the headers of an ELF file, a list of bytes, and what
-- load_one works out from them. A read beyond the end of the file, which the source does not rule
-- out, gives 0 here.
use oryx_hurd.Base.{
  ℕ, zero, suc, ◌+◌, ◌-◌, ◌*◌, ◌%◌, ◌^◌, Bool, true, false, ◌&&◌, none, some, List, [], ◌∷◌, bit,
  min, ltb, leb, ◌==◌, if◌then◌else◌, get_or, first_index,
}
use oryx_hurd.Host.{KernReturn, kern_success, kern_no_space, kern_failure}
use oryx_hurd.Memory.{page_down, page_up}
use oryx_hurd.Syscall.Io.{word_at}
use oryx_hurd.Syscall.Files.{c_string}
use oryx_hurd.Stack.{Loaded}

abbrev pub half_at : List ℕ → ℕ → ℕ
half_at b i = get_or b i 0 + get_or b (i + 1) 0 * 256

-- The fields of Elf32_Ehdr that load_one reads.
pub record Ehdr : Type 0 where
  pub e_type : ℕ
  pub e_entry : ℕ
  pub e_phoff : ℕ
  pub e_phentsize : ℕ
  pub e_phnum : ℕ

abbrev pub ehdr : List ℕ → Ehdr
ehdr img = record {
  e_type = half_at img 16;
  e_entry = word_at img 24;
  e_phoff = word_at img 28;
  e_phentsize = half_at img 42;
  e_phnum = half_at img 44;
}

-- ELFMAG, ELFCLASS32, ELFDATA2LSB, EM_386
unfoldable pub is_i386_elf : List ℕ → Bool
is_i386_elf img =
    (get_or img 0 0 == 0x7f)
    && (get_or img 1 0 == 0x45)
    && (get_or img 2 0 == 0x4c)
    && (get_or img 3 0 == 0x46)
    && (get_or img 4 0 == 1)
    && (get_or img 5 0 == 1)
    && (half_at img 18 == 3)

-- Elf32_Phdr
pub record Phdr : Type 0 where
  pub p_type : ℕ
  pub p_offset : ℕ
  pub p_vaddr : ℕ
  pub p_filesz : ℕ
  pub p_memsz : ℕ
  pub p_flags : ℕ

abbrev pub pt_load : ℕ
pt_load = 1

abbrev pub pt_interp : ℕ
pt_interp = 3

abbrev pub et_exec : ℕ
et_exec = 2

abbrev pub et_dyn : ℕ
et_dyn = 3

-- ph[i]; the size of an entry is the structure's, whatever e_phentsize says.
abbrev pub phdr_at : List ℕ → (phoff i : ℕ) → Phdr
phdr_at img phoff i =
    let at = phoff + i * 32 in
    record {
      p_type = word_at img at;
      p_offset = word_at img (at + 4);
      p_vaddr = word_at img (at + 8);
      p_filesz = word_at img (at + 16);
      p_memsz = word_at img (at + 20);
      p_flags = word_at img (at + 24);
    }

-- The `n` bytes of the file from `off` on.
unfoldable pub file_bytes : List ℕ → (off n : ℕ) → List ℕ
file_bytes img off zero = []
file_bytes img off (suc n) = get_or img off 0 ∷ file_bytes img (suc off) n

-- PF_R, PF_W and PF_X as VM_PROT_READ, VM_PROT_WRITE and VM_PROT_EXECUTE
abbrev pub segment_prot : ℕ → ℕ
segment_prot f =
    (if bit f 2 then 1 else 0) + (if bit f 1 then 2 else 0) + (if bit f 0 then 4 else 0)

abbrev pub segment_addr : (bias : ℕ) → Phdr → ℕ
segment_addr bias ph = (bias + ph.p_vaddr) % 2 ^ 32

abbrev pub segment_end : (bias : ℕ) → Phdr → ℕ
segment_end bias ph = page_up ((segment_addr bias ph + ph.p_memsz) % 2 ^ 32)

abbrev pub segment_span : (bias : ℕ) → Phdr → ℕ
segment_span bias ph = (segment_end bias ph + 2 ^ 32 - page_down (segment_addr bias ph)) % 2 ^ 32

-- KERN_NO_SPACE is no failure: the pages are mapped already.
abbrev pub usable : KernReturn → Bool
usable kern_success = true
usable kern_no_space = true
usable kern_failure = false

-- The variables of the loop over the program headers.
pub record Segments : Type 0 where
  pub highest : ℕ
  pub mapped : ℕ
  pub interp : List ℕ

-- The text of a PT_INTERP, cut to 255 bytes.
unfoldable pub interp_text : List ℕ → Phdr → List ℕ
interp_text img ph = c_string (file_bytes img ph.p_offset (min ph.p_filesz 255))

-- The header that holds the program headers themselves.
abbrev pub covers : (phoff : ℕ) → Phdr → Bool
covers phoff ph =
    (ph.p_type == pt_load)
    && leb ph.p_offset phoff
    && ltb phoff ((ph.p_offset + ph.p_filesz) % 2 ^ 32)

unfoldable pub phdr_addr : (bias : ℕ) → List ℕ → Ehdr → ℕ
phdr_addr bias img eh =
    elim (first_index (λ i. covers eh.e_phoff (phdr_at img eh.e_phoff i)) eh.e_phnum) [
      | none ↦ 0
      | some i ↦
          let ph = phdr_at img eh.e_phoff i in
          (bias + ph.p_vaddr + (eh.e_phoff - ph.p_offset)) % 2 ^ 32
    ]

-- What load_one fills in at its end.
unfoldable pub loaded_of : (bias : ℕ) → List ℕ → Ehdr → Segments → Loaded
loaded_of bias img eh segs = record {
  entry = (bias + eh.e_entry) % 2 ^ 32;
  phdr = phdr_addr bias img eh;
  phentsize = eh.e_phentsize;
  phnum = eh.e_phnum;
  brk = segs.highest;
  base = bias;
  interp_base = 0;
  interp = segs.interp;
}
