-- ===== src/Examples/Errnos.antt =====
-- Error numbers of the Hurd: a name's number with a subsystem in the high bits.
use oryx_hurd.Base.{ℕ, ◌+◌, ◌≡◌, arith}
use oryx_hurd.Errno.{HostErrno, errno_to_linux}
use oryx_hurd.Errno.Names.{Distinct, Misses, LinuxNumbers, host_values, errno_to_linux_lem}

abbrev hurd : ℕ → ℕ
hurd n = 0x4000_0000 + n

abbrev pub names : HostErrno
names = record {
  eperm = hurd 1;
  enoent = hurd 2;
  esrch = hurd 3;
  eintr = hurd 4;
  eio = hurd 5;
  enxio = hurd 6;
  e2big = hurd 7;
  enoexec = hurd 8;
  ebadf = hurd 9;
  echild = hurd 10;
  eagain = hurd 35;
  enomem = hurd 12;
  eacces = hurd 13;
  efault = hurd 14;
  ebusy = hurd 16;
  eexist = hurd 17;
  exdev = hurd 18;
  enodev = hurd 19;
  enotdir = hurd 20;
  eisdir = hurd 21;
  einval = hurd 22;
  enfile = hurd 23;
  emfile = hurd 24;
  enotty = hurd 25;
  efbig = hurd 27;
  enospc = hurd 28;
  espipe = hurd 29;
  erofs = hurd 30;
  emlink = hurd 31;
  epipe = hurd 32;
  erange = hurd 34;
  enametoolong = hurd 63;
  enotempty = hurd 66;
  eloop = hurd 62;
}

names-Distinct : Distinct (host_values names)
names-Distinct = omega arith

errno_to_linux_lem_example :
    LinuxNumbers names × ((e : ℕ) → Misses e (host_values names) → errno_to_linux names e ≡ 22)
errno_to_linux_lem_example = errno_to_linux_lem names names-Distinct
