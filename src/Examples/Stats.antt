-- ===== src/Examples/Stats.antt =====
-- What the stat calls leave in a guest, for a file of 84 bytes.
use oryx_hurd.Base.{◌≡◌, refl, some, [], ◌∷◌, ◌==◌, if◌then◌else◌, arith}
use oryx_hurd.Host.{Host, HostStat, ok}
use oryx_hurd.Server.{Server, me}
use oryx_hurd.Memory.{
  peek, peek_slice, peek_str, peek_str_loop, str_chunk, str_found, has_zero, splice,
}
use oryx_hurd.Memory.Peek.{MemLaws}
use oryx_hurd.Syscall.Files.{path_arg, c_string}
use oryx_hurd.Syscall.Stat.{sys_stat64, sys_fstat64, sys_fstatat64, sys_statx, at_fdcwd}
use oryx_hurd.Syscall.Stat.Layout.{ReadsStat64, ReadsStatx}
use oryx_hurd.Syscall.Stat.Filled.{Filled, stat_calls_lem}
use oryx_hurd.Examples.Toy.{Toy, toy, byte, toy-MemLaws}
use oryx_hurd.Examples.Errnos.{names}
use oryx_hurd.Examples.Processes.{machine}

abbrev file_stat : HostStat
file_stat = record {
  st_dev = 0x12345;
  st_ino = 0x1_0000_0007;
  st_mode = 0o100755;
  st_nlink = 1;
  st_uid = 1000;
  st_gid = 1000;
  st_rdev = 0;
  st_size = 84;
  st_blksize = 4096;
  st_blocks = 8;
  st_atime = 1700000000;
  st_mtime = 1700000001;
  st_ctime = 1700000002;
}

abbrev disk : Host Toy
disk = record toy {
  stat = λ p k. ok file_stat;
  lstat = λ p k. ok file_stat;
  fstat = λ fd k. ok file_stat;
}

disk-MemLaws : MemLaws disk byte
disk-MemLaws = record {
  read_length = toy-MemLaws.read_length;
  read_bytes = toy-MemLaws.read_bytes;
  malloc_keeps = toy-MemLaws.malloc_keeps;
  protect_keeps = toy-MemLaws.protect_keeps;
  write_bytes = toy-MemLaws.write_bytes;
}

-- The path "a" stands at 4096.
abbrev naming : Server Toy
naming = record machine {
  kernel = record machine.kernel { mem = λ t x. if x == 4096 then 97 else 0 };
}

named : path_arg disk (me naming).task 4096 naming.kernel ≡ some (97 ∷ [])
unfolding path_arg peek_str peek_str_loop str_chunk peek peek_slice str_found has_zero c_string
    splice
named = refl

stat_calls_lem_example :
    Filled byte names ReadsStat64 96 8192
      (ok file_stat)
      naming
      (sys_stat64 disk names 195 4096 8192 naming)
    × Filled byte names ReadsStat64 96 8192
        (ok file_stat)
        naming
        (sys_fstat64 disk names 3 8192 naming)
    × Filled byte names ReadsStat64 96 8192
        (ok file_stat)
        naming
        (sys_fstatat64 disk names at_fdcwd 4096 8192 0 naming)
    × Filled byte names ReadsStatx 256 8192
        (ok file_stat)
        naming
        (sys_statx disk names at_fdcwd 4096 0 8192 naming)
stat_calls_lem_example =
    stat_calls_lem disk-MemLaws names 195 3 4096 8192 0 (97 ∷ []) naming (omega arith) named
