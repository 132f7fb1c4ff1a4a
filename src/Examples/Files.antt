-- ===== src/Examples/Files.antt =====
-- A directory of two entries, and an ELF file with one segment.
use oryx_hurd.Base.{
  ℕ, ◌≤◌, ◌≡◌, refl, some, none, pos, ◌==◌, if◌then◌else◌, List, [], ◌∷◌, ◌++◌, replicate, arith,
  first_index, first_from,
}
use oryx_hurd.Host.{Host, Dirent, ok}
use oryx_hurd.Server.{Server}
use oryx_hurd.Stack.{Loaded}
use oryx_hurd.Syscall.Files.{dir_forget}
use oryx_hurd.Syscall.Dirs.{dirent_bytes, getdents_loop, dir_for}
use oryx_hurd.Syscall.Dirs.Cache.{Found, stream_of, dir_cache_lem}
use oryx_hurd.Syscall.Dirs.Records.{Written, getdents_loop_lem}
use oryx_hurd.Syscall.Dirs.Parse.{Fits, read_record, read_record-dirent_bytes}
use oryx_hurd.Memory.{has_zero}
use oryx_hurd.Loader.{load_image, load_segments, load_segment, load_header, load_after, loaded_if}
use oryx_hurd.Loader.Elf.{loaded_of, is_i386_elf, phdr_at, segment_end, phdr_addr}
use oryx_hurd.Loader.Bounds.{load_image_lem}
use oryx_hurd.Examples.Toy.{Toy, toy}
use oryx_hurd.Examples.Processes.{machine}

abbrev entry : Dirent
entry = record { d_ino = 20; d_type = 8; d_name = 97 ∷ 98 ∷ [] }

entry-Fits : Fits entry 7
unfolding has_zero
entry-Fits = record {
  ino_small = omega arith;
  off_small = omega arith;
  length_small = omega arith;
  text = refl;
}

read_record-dirent_bytes_example :
    let r = read_record (dirent_bytes entry 7 ++ (1 ∷ 2 ∷ [])) in
    (r.ino ≡ 20) × (r.off ≡ 7) × (r.kind ≡ 8) × (r.name ≡ 97 ∷ 98 ∷ []) × (r.next ≡ 1 ∷ 2 ∷ [])
read_record-dirent_bytes_example = read_record-dirent_bytes entry 7 (1 ∷ 2 ∷ []) entry-Fits

getdents_loop_lem_example :
    Written toy 5 100 0
      (getdents_loop toy 101 5 100 0 machine.kernel)
      (getdents_loop toy 102 5 100 0 machine.kernel)
getdents_loop_lem_example =
    getdents_loop_lem toy 5 100 101 0 machine.kernel (omega arith) (omega arith)

-- An ET_EXEC whose only segment is a page at 0x8049000.
abbrev pub elf_file : List ℕ
elf_file =
    (0x7f ∷ 0x45 ∷ 0x4c ∷ 0x46 ∷ 1 ∷ 1 ∷ replicate 10 0)
    ++ ((2 ∷ 0 ∷ 3 ∷ 0 ∷ 1 ∷ 0 ∷ 0 ∷ 0 ∷ 0 ∷ 0x90 ∷ 4 ∷ 8 ∷ 52 ∷ replicate 11 0)
        ++ ((52 ∷ 0 ∷ 32 ∷ 0 ∷ 1 ∷ replicate 7 0)
            ++ ((1 ∷ replicate 7 0)
                ++ ((0 ∷ 0x90 ∷ 4 ∷ 8 ∷ replicate 8 0) ++ (0 ∷ 0x10 ∷ 0 ∷ 0 ∷ 5 ∷ replicate 7 0)))))

abbrev program : Loaded
program = record {
  entry = 0x8049000;
  phdr = 0;
  phentsize = 32;
  phnum = 1;
  brk = 0x804a000;
  base = 0;
  interp_base = 0;
  interp = [];
}

loads : (load_image toy 9 0x56555000 elf_file machine.kernel).0 ≡ some program
unfolding load_image load_segments load_segment load_header load_after loaded_if loaded_of
    is_i386_elf phdr_addr first_index first_from
loads = refl

load_image_lem_example : segment_end 0 (phdr_at elf_file 52 0) ≤ 0x804a000
load_image_lem_example =
    (load_image_lem toy 9 0x56555000 elf_file machine.kernel program loads).3 0 (omega arith) refl

-- Descriptor 5 has a stream, and 6 gets one.
abbrev streaming : Host Toy
streaming = record toy { fdopendir = λ h k. (ok 900, k) }

abbrev listing : Server Toy
listing = record machine {
  dircache = λ i.
      if i == 0 then record { fd = pos 5; dir = some 800 } else record { fd = pos 0; dir = none };
}

dir_cache_lem_example :
    let t = (dir_forget streaming (pos 6) listing).1 in
    Found (pos 6) (pos 5) listing (dir_for streaming (pos 6) listing)
    × (stream_of t.dircache (pos 6) ≡ none)
    × (stream_of t.dircache (pos 5) ≡ stream_of listing.dircache (pos 5))
dir_cache_lem_example = dir_cache_lem streaming (pos 6) (pos 5) listing (ground arith)
