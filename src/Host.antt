-- ===== src/Host.antt =====
-- What linux-personality/oryxlinux.c calls and does not implement: GNU Mach and the host's system
-- calls. Each call is a parameter over an abstract kernel state `K`.
use oryx_hurd.Base.{ℕ, Bool, Option, List, ℤ, St}

-- struct i386_thread_state. `other` stands for the selectors and flags, which are only copied.
pub record Regs : Type 0 where
  pub eax : ℕ
  pub ebx : ℕ
  pub ecx : ℕ
  pub edx : ℕ
  pub esi : ℕ
  pub edi : ℕ
  pub ebp : ℕ
  pub eip : ℕ
  pub uesp : ℕ
  pub other : ℕ

-- struct descriptor of Mach's i386_set_gdt
pub record Descriptor : Type 0 where
  pub low_word : ℕ
  pub high_word : ℕ

-- A host call returns a value, or -1 with `errno` set to the number given here.
pub data Outcome (A : Type 0) : Type 0 where
  ok : A → Outcome A
  fail : ℕ → Outcome A

-- The fields of the host's struct stat that the source reads; times are in seconds.
pub record HostStat : Type 0 where
  pub st_dev : ℕ
  pub st_ino : ℕ
  pub st_mode : ℕ
  pub st_nlink : ℕ
  pub st_uid : ℕ
  pub st_gid : ℕ
  pub st_rdev : ℕ
  pub st_size : ℕ
  pub st_blksize : ℕ
  pub st_blocks : ℕ
  pub st_atime : ℕ
  pub st_mtime : ℕ
  pub st_ctime : ℕ

-- The fields of the host's struct dirent that the source reads. The name has no NUL.
pub record Dirent : Type 0 where
  pub d_ino : ℕ
  pub d_type : ℕ
  pub d_name : List ℕ

-- vm_allocate and the like: kern_return_t, of which the source tells two values apart.
pub data KernReturn : Type 0 where
  kern_success kern_no_space kern_failure : KernReturn

pub record Host (K : Type 0) : Type 0 where
  -- memory of a task: task, address, size
  pub vm_read : ℕ → ℕ → ℕ → K → Option (List ℕ)
  pub vm_write : ℕ → ℕ → List ℕ → St K Bool
  pub vm_protect : ℕ → ℕ → ℕ → ℕ → St K Bool
  pub vm_allocate : ℕ → ℕ → ℕ → Bool → St K (KernReturn × ℕ)
  -- address, size and the name of the object, 0 for none
  pub vm_region : ℕ → ℕ → K → Option (ℕ × ℕ × ℕ)
  pub vm_deallocate : ℕ → ℕ → ℕ → St K Bool
  -- tasks and threads
  pub task_create : ℕ → Bool → St K (Option ℕ)
  pub task_set_exception_port : ℕ → St K Bool
  pub task_terminate : ℕ → St K (Unit {0})
  pub thread_create : ℕ → St K (Option ℕ)
  pub thread_terminate : ℕ → St K (Unit {0})
  pub thread_resume : ℕ → St K Bool
  pub thread_get_state : ℕ → K → Option Regs
  pub thread_set_state : ℕ → Regs → St K Bool
  pub i386_get_gdt : ℕ → ℤ → K → Option Descriptor
  pub i386_set_gdt : ℕ → ℤ → Descriptor → St K (Option ℤ)
  -- the emulator's own task, and the exception port that it receives from
  pub mach_task_self : ℕ
  pub mach_port_allocate : St K Bool
  pub mach_port_insert_right : St K Bool
  pub mach_port_deallocate : ℕ → St K (Unit {0})
  -- mach_msg with MACH_SEND_MSG to a reply port
  pub send_reply : ℕ → St K (Unit {0})
  -- the C library's allocator, and descriptors of the host
  pub malloc : ℕ → St K Bool
  pub close : ℕ → St K (Outcome (Unit {0}))
  pub dup : ℕ → St K (Outcome ℕ)
  pub pipe : St K (Outcome (ℕ × ℕ))
  pub write : ℤ → List ℕ → St K (Outcome ℕ)
  pub read : ℤ → ℕ → St K (Outcome (List ℕ))
  pub pread : ℤ → ℕ → ℕ → St K (Outcome (List ℕ))
  pub lseek : ℤ → ℤ → ℕ → St K (Outcome ℕ)
  pub set_cloexec : ℕ → St K (Unit {0})
  pub fcntl : ℤ → ℕ → ℕ → St K (Outcome ℕ)
  pub nanosleep : ℕ → ℕ → St K (Outcome (Unit {0}))
  -- what an array of the emulator's stack holds before it is written
  pub uninit : ℕ → K → List ℕ
  -- paths
  pub open_file : List ℕ → ℕ → ℕ → St K (Outcome ℕ)
  pub access : List ℕ → ℕ → K → Outcome (Unit {0})
  pub stat : List ℕ → K → Outcome HostStat
  pub lstat : List ℕ → K → Outcome HostStat
  pub fstat : ℤ → K → Outcome HostStat
  pub unlink : List ℕ → St K (Outcome (Unit {0}))
  pub mkdir : List ℕ → ℕ → St K (Outcome (Unit {0}))
  pub rmdir : List ℕ → St K (Outcome (Unit {0}))
  pub rename : List ℕ → List ℕ → St K (Outcome (Unit {0}))
  pub chmod : List ℕ → ℕ → St K (Outcome (Unit {0}))
  pub chdir : List ℕ → St K (Outcome (Unit {0}))
  pub readlink : List ℕ → ℕ → K → Outcome (List ℕ)
  pub getcwd : ℕ → K → Outcome (List ℕ)
  -- identity, environment, time and chance
  pub getuid : ℕ
  pub geteuid : ℕ
  pub getgid : ℕ
  pub getegid : ℕ
  pub getenv : List ℕ → Option (List ℕ)
  pub time : K → ℕ
  pub gettimeofday : K → ℕ × ℕ
  pub rand : St K ℕ
  pub isatty : ℤ → K → Bool
  pub window_size : ℤ → K → Outcome (ℕ × ℕ × ℕ × ℕ)
  -- directory streams
  pub fdopendir : ℕ → St K (Outcome ℕ)
  pub closedir : ℕ → St K (Unit {0})
  pub telldir : ℕ → K → ℕ
  pub seekdir : ℕ → ℕ → St K (Unit {0})
  pub readdir : ℕ → St K (Option Dirent)
