-- ===== src/Examples/Toy.antt =====
-- A small host: memory that can always be read and written, descriptors that are handed out in
-- order, and ports that count up.
use oryx_hurd.Base.{
  ℕ, zero, suc, ◌+◌, ◌-◌, ◌<◌, ◌≡◌, refl, ◌∙◌, Bool, true, false, ◌&&◌, none, some, List, [], ◌∷◌,
  St, ltb, leb, ◌==◌, if◌then◌else◌, length, get_or, update, arith, ap,
}
use oryx_hurd.Host.{Host, Regs, Outcome, ok, fail, kern_success}
use oryx_hurd.Memory.Peek.{MemLaws}
use oryx_hurd.Fd.Isolation.{FdLaws}
use oryx_hurd.Syscall.Files.{OpenFlags}

pub record Toy : Type 0 where
  pub mem : ℕ → ℕ → ℕ
  pub regs : ℕ → Regs
  pub opened : ℕ → Bool
  pub next : ℕ
  pub replies : List ℕ

abbrev pub zero_regs : Regs
zero_regs = record {
  eax = 0;
  ebx = 0;
  ecx = 0;
  edx = 0;
  esi = 0;
  edi = 0;
  ebp = 0;
  eip = 0;
  uesp = 0;
  other = 0;
}

-- The `n` bytes of a memory from `a` on.
abbrev pub bytes_from : (ℕ → ℕ) → (a n : ℕ) → List ℕ
bytes_from m a zero = []
bytes_from m a (suc n) = m a ∷ bytes_from m (suc a) n

length-bytes_from : (m : ℕ → ℕ) (a n : ℕ) → length (bytes_from m a n) ≡ n
length-bytes_from m a zero = refl
length-bytes_from m a (suc n) = ap suc (length-bytes_from m (suc a) n)

get_or-bytes_from : (m : ℕ → ℕ) (a n i : ℕ) → i < n → get_or (bytes_from m a n) i 0 ≡ m (a + i)
get_or-bytes_from m a zero i h = absurd (omega arith)
get_or-bytes_from m a (suc n) zero h = ap m (omega arith)
get_or-bytes_from m a (suc n) (suc i) h =
    get_or-bytes_from m (suc a) n i (omega arith) ∙ ap m (omega arith)

abbrev pub toy_dup : ℕ → St Toy (Outcome ℕ)
toy_dup h k =
    if k.opened k.next
    then (fail 24, k)
    else (ok k.next, record k { opened = update k.opened k.next true; next = k.next + 1 })

abbrev pub toy : Host Toy
toy = record {
  vm_read = λ t a n k. some (bytes_from (k.mem t) a n);
  vm_write = λ t a d k. (
    true,
    record k {
      mem = λ u x.
          if u == t && (leb a x && ltb x (a + length d)) then get_or d (x - a) 0 else k.mem u x;
    },
  );
  vm_protect = λ t a n p k. (true, k);
  vm_allocate = λ t a n any k. ((kern_success, a), k);
  vm_region = λ t a k. none;
  vm_deallocate = λ t a n k. (true, k);
  task_create = λ t i k. (some k.next, record k { next = k.next + 1 });
  task_set_exception_port = λ t k. (true, k);
  task_terminate = λ t k. (tt, k);
  thread_create = λ t k. (some k.next, record k { next = k.next + 1 });
  thread_terminate = λ t k. (tt, k);
  thread_resume = λ t k. (true, k);
  thread_get_state = λ t k. some (k.regs t);
  thread_set_state = λ t r k. (true, record k { regs = update k.regs t r });
  i386_get_gdt = λ t sel k. none;
  i386_set_gdt = λ t sel d k. (some sel, k);
  mach_task_self = 1;
  mach_port_allocate = λ k. (true, k);
  mach_port_insert_right = λ k. (true, k);
  mach_port_deallocate = λ p k. (tt, k);
  send_reply = λ p k. (tt, record k { replies = p ∷ k.replies });
  malloc = λ n k. (true, k);
  close = λ h k. (ok tt, record k { opened = update k.opened h false });
  dup = toy_dup;
  pipe = λ k. (fail 24, k);
  write = λ fd b k. (ok (length b), k);
  read = λ fd n k. (ok [], k);
  pread = λ fd n off k. (ok [], k);
  lseek = λ fd off w k. (ok 0, k);
  set_cloexec = λ h k. (tt, k);
  fcntl = λ fd c a k. (ok 0, k);
  nanosleep = λ a b k. (ok tt, k);
  uninit = λ n k. [];
  open_file = λ p f m. toy_dup 0;
  access = λ p m k. ok tt;
  stat = λ p k. fail 2;
  lstat = λ p k. fail 2;
  fstat = λ fd k. fail 9;
  unlink = λ p k. (ok tt, k);
  mkdir = λ p m k. (ok tt, k);
  rmdir = λ p k. (ok tt, k);
  rename = λ p q k. (ok tt, k);
  chmod = λ p m k. (ok tt, k);
  chdir = λ p k. (ok tt, k);
  readlink = λ p n k. fail 22;
  getcwd = λ n k. fail 34;
  getuid = 0;
  geteuid = 0;
  getgid = 0;
  getegid = 0;
  getenv = λ name. none;
  time = λ k. 0;
  gettimeofday = λ k. (0, 0);
  rand = λ k. (4, k);
  isatty = λ fd k. false;
  window_size = λ fd k. fail 25;
  fdopendir = λ h k. (fail 20, k);
  closedir = λ d k. (tt, k);
  telldir = λ d k. 0;
  seekdir = λ d at k. (tt, k);
  readdir = λ d k.
      if ltb k.next 22
      then (
        some (record { d_ino = k.next; d_type = 8; d_name = 97 ∷ [] }),
        record k { next = k.next + 1 },
      )
      else (none, k);
}

abbrev pub byte : Toy → ℕ → ℕ → ℕ
byte k t x = k.mem t x

pub toy-MemLaws : MemLaws toy byte
toy-MemLaws = record {
  read_length = λ t a n k d e. ground (arith, length-bytes_from (k.mem t) a n);
  read_bytes = λ t a n k d i e h. ground (arith, get_or-bytes_from (k.mem t) a n i h);
  malloc_keeps = λ n t x k. refl;
  protect_keeps = λ u a n p t x k. refl;
  write_bytes = λ t a x d k e. ground arith;
}

pub toy-FdLaws : FdLaws toy (λ k. k.opened)
toy-FdLaws = record {
  dup_new = λ h n k e. ground arith;
  dup_keeps = λ h m k e. ground arith;
  close_only = λ h m k ne. ground arith;
}

-- The host's values of the O_ flags, those of the GNU C library on the Hurd.
abbrev pub toy_flags : OpenFlags
toy_flags = record {
  o_rdonly = 1;
  o_wronly = 2;
  o_rdwr = 3;
  o_creat = 0x10;
  o_excl = 0x20;
  o_trunc = 0x10000;
  o_append = 0x100;
  o_nonblock = 8;
  o_directory = 0x200000;
}
