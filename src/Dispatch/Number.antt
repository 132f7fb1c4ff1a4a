-- ===== src/Dispatch/Number.antt =====
-- linux-personality/oryxlinux.c: the case labels of dispatch, as the call that each number names.
use oryx_hurd.Base.{ℕ, List, [], ◌∷◌, ◌==◌, if◌then◌else◌}

pub data Call : Type 0 where
  exit fork clone execve waitpid : Call
  read write writev readv open_path openat close getdents64 : Call
  statx clock_gettime64 fstatat64 readlinkat faccessat : Call
  unlink mkdir rmdir rename chmod chdir dup dup2 pipe : Call
  nanosleep access readlink getcwd stat64 fstat64 lseek llseek : Call
  brk old_mmap mmap2 unmap protect : Call
  uname getpid getppid getuid getgid geteuid getegid : Call
  time gettimeofday clock_gettime getrandom ioctl fcntl64 ugetrlimit : Call
  ignored set_thread_area unimplemented : Call

abbrev pub labels : List (ℕ × Call)
labels =
    (1, exit)
    ∷ (252, exit)
    ∷ (2, fork)
    ∷ (190, fork)
    ∷ (120, clone)
    ∷ (11, execve)
    ∷ (7, waitpid)
    ∷ (114, waitpid)
    ∷ (3, read)
    ∷ (4, write)
    ∷ (146, writev)
    ∷ (145, readv)
    ∷ (5, open_path)
    ∷ (295, openat)
    ∷ (6, close)
    ∷ (220, getdents64)
    ∷ (383, statx)
    ∷ (403, clock_gettime64)
    ∷ (300, fstatat64)
    ∷ (305, readlinkat)
    ∷ (307, faccessat)
    ∷ (10, unlink)
    ∷ (39, mkdir)
    ∷ (40, rmdir)
    ∷ (38, rename)
    ∷ (15, chmod)
    ∷ (12, chdir)
    ∷ (41, dup)
    ∷ (63, dup2)
    ∷ (330, dup2)
    ∷ (42, pipe)
    ∷ (331, pipe)
    ∷ (162, nanosleep)
    ∷ (33, access)
    ∷ (85, readlink)
    ∷ (183, getcwd)
    ∷ (195, stat64)
    ∷ (196, stat64)
    ∷ (197, fstat64)
    ∷ (19, lseek)
    ∷ (140, llseek)
    ∷ (45, brk)
    ∷ (90, old_mmap)
    ∷ (192, mmap2)
    ∷ (91, unmap)
    ∷ (125, protect)
    ∷ (122, uname)
    ∷ (20, getpid)
    ∷ (224, getpid)
    ∷ (64, getppid)
    ∷ (199, getuid)
    ∷ (24, getuid)
    ∷ (200, getgid)
    ∷ (47, getgid)
    ∷ (201, geteuid)
    ∷ (49, geteuid)
    ∷ (202, getegid)
    ∷ (50, getegid)
    ∷ (13, time)
    ∷ (78, gettimeofday)
    ∷ (265, clock_gettime)
    ∷ (355, getrandom)
    ∷ (54, ioctl)
    ∷ (221, fcntl64)
    ∷ (191, ugetrlimit)
    ∷ (174, ignored)
    ∷ (175, ignored)
    ∷ (258, ignored)
    ∷ (311, ignored)
    ∷ (172, ignored)
    ∷ (243, set_thread_area)
    ∷ []

unfoldable pub find_call : List (ℕ × Call) → ℕ → Call
find_call [] nr = unimplemented
find_call ((n, c) ∷ rest) nr = if n == nr then c else find_call rest nr

unfoldable pub call_of : ℕ → Call
call_of nr = find_call labels nr
