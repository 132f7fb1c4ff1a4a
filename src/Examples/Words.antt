-- ===== src/Examples/Words.antt =====
-- The words that the emulator writes for its guests: exit statuses and segment descriptors.
use oryx_hurd.Base.{
  ℕ, ◌-◌, List, [], ◌∷◌, some, get_or, ◌%◌, ◌/◌, ◌^◌, ◌≡◌, ◌⊎◌, refl, false, pos, neg, arith,
}
use oryx_hurd.Process.{linux_efault}
use oryx_hurd.Process.Wait.{sys_wait4, wait_scan, is_child, is_zombie}
use oryx_hurd.Process.Wait.Status.{Exited, int_at, sys_wait4-Exited}
use oryx_hurd.Host.{Host}
use oryx_hurd.Server.{Server, me}
use oryx_hurd.Memory.{peek, peek_slice}
use oryx_hurd.Memory.Peek.{MemLaws}
use oryx_hurd.Syscall.Tls.{UserDesc, descriptor_of, sys_set_thread_area}
use oryx_hurd.Syscall.Tls.Layout.{base_of, limit_of, access_of, IsAccess, descriptor_of_lem}
use oryx_hurd.Syscall.Tls.Entry.{IsWords, GivenBack, entry_round_trip}
use oryx_hurd.Examples.Toy.{Toy, toy, byte, toy-MemLaws}
use oryx_hurd.Examples.Processes.{machine, after_exit}

sys_wait4-Exited_example :
    let r = sys_wait4 toy (pos 101) 4096 0 after_exit in
    (r.0 ≡ neg linux_efault) ⊎ ((r.0 ≡ pos 101) × Exited (int_at byte r.1.kernel 7 4096) 3)
unfolding wait_scan is_child is_zombie
sys_wait4-Exited_example =
    sys_wait4-Exited toy-MemLaws (pos 101) 4096 0 1 after_exit (omega arith) (omega arith) refl

-- glibc's request: any entry, 32 bits, a limit of all pages.
abbrev request : UserDesc
request = record {
  entry_number = 0xffff_ffff;
  base_addr = 0xf7d8_6540;
  limit = 0xf_ffff;
  flags = 0x51;
}

descriptor_of_lem_example :
    let d = descriptor_of request in
    (base_of d ≡ 0xf7d8_6540)
    × (limit_of d ≡ 0xf_ffff)
    × IsAccess false (access_of d)
    × (d.high_word / 2 ^ 20 % 2 ≡ 1)
    × (d.high_word / 2 ^ 22 % 2 ≡ 1)
    × (d.high_word / 2 ^ 23 % 2 ≡ 1)
descriptor_of_lem_example = descriptor_of_lem request (omega arith)

request-IsWords : IsWords request
request-IsWords = record {
  entry_small = omega arith;
  base_small = omega arith;
  limit_small = omega arith;
  flags_small = omega arith;
}

-- A kernel that gives slot 9 of its table, and a guest that has the request at 8192.
abbrev granting : Host Toy
granting = record toy { i386_set_gdt = λ t sel d k. (some (pos 75), k) }

granting-MemLaws : MemLaws granting byte
granting-MemLaws = record {
  read_length = toy-MemLaws.read_length;
  read_bytes = toy-MemLaws.read_bytes;
  malloc_keeps = toy-MemLaws.malloc_keeps;
  protect_keeps = toy-MemLaws.protect_keeps;
  write_bytes = toy-MemLaws.write_bytes;
}

abbrev request_bytes : List ℕ
request_bytes =
    255 ∷ 255 ∷ 255 ∷ 255 ∷ 0x40 ∷ 0x65 ∷ 0xd8 ∷ 0xf7 ∷ 255 ∷ 255 ∷ 15 ∷ 0 ∷ 0x51 ∷ 0 ∷ 0 ∷ 0 ∷ []

abbrev asking : Server Toy
asking = record machine {
  kernel = record machine.kernel { mem = λ t x. get_or request_bytes (x - 8192) 0 };
}

readable : peek granting (me asking).task 8192 16 asking.kernel ≡ some request_bytes
unfolding peek peek_slice
readable = refl

entry_round_trip_example :
    GivenBack byte 8192 request (pos 75) (neg 1) asking (sys_set_thread_area granting 8192 asking)
entry_round_trip_example =
    entry_round_trip granting-MemLaws 8192 9 request_bytes (neg 1) asking (omega arith) readable
      request-IsWords (omega arith) refl
