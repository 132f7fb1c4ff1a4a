-- ===== src/Syscall/Calm/Stat.antt =====
-- The calls that fill a stat structure or read a directory, linux-personality/oryxlinux.c, leave
-- the life of every process as it was.
use oryx_hurd.Base.{
  ℕ, refl, ◌∙◌, not, ◌&&◌, Option, none, some, List, ℤ, pos, negsuc, ◌==◌, first_index, arith,
}
use oryx_hurd.Host.{Host, HostStat, Outcome, ok, fail}
use oryx_hurd.Server.{Server, lift}
use oryx_hurd.Errno.{HostErrno}
use oryx_hurd.Process.Quiet.{Quiet, pick-Quiet, option-Quiet}
use oryx_hurd.Syscall.Files.{starts_with_slash, max_dircache}
use oryx_hurd.Syscall.Calm.{with_path-Quiet}
use oryx_hurd.Syscall.Stat.{
  stat_done, sys_stat64, sys_fstat64, sys_fstatat64, sys_statx, at_fdcwd, is_empty,
}
use oryx_hurd.Syscall.Dirs.{
  dir_opened, dir_dupped, dir_open, dir_for, read_dir, sys_getdents64, caches,
}

module _ {K : Type 0} (host : Host K) where
  module _ (names : HostErrno) where
    stat_done-Quiet :
        (encode : HostStat → List ℕ) (buf : ℕ) (r : Outcome HostStat) (s : Server K)
        → Quiet s (stat_done host names encode buf r s).1
    unfolding stat_done
    stat_done-Quiet encode buf (fail e) s j = refl
    stat_done-Quiet encode buf (ok st) s j = refl

    pub sys_stat64-Quiet :
        (nr addr buf : ℕ) (s : Server K) → Quiet s (sys_stat64 host names nr addr buf s).1
    unfolding sys_stat64
    sys_stat64-Quiet nr addr buf s =
        with_path-Quiet host addr _ s (λ path. stat_done-Quiet _ buf _ s)

    pub sys_fstat64-Quiet :
        (gfd buf : ℕ) (s : Server K) → Quiet s (sys_fstat64 host names gfd buf s).1
    unfolding sys_fstat64
    sys_fstat64-Quiet gfd buf s = stat_done-Quiet _ buf _ s

    pub sys_fstatat64-Quiet :
        (dirfd addr buf flags : ℕ) (s : Server K)
        → Quiet s (sys_fstatat64 host names dirfd addr buf flags s).1
    unfolding sys_fstatat64
    sys_fstatat64-Quiet dirfd addr buf flags s = with_path-Quiet host addr _ s (λ path.
        pick-Quiet s (not (dirfd == at_fdcwd) && not (starts_with_slash path)) _ _ (λ j. refl)
          (stat_done-Quiet _ buf _ s))

    pub sys_statx-Quiet :
        (dirfd addr flags buf : ℕ) (s : Server K)
        → Quiet s (sys_statx host names dirfd addr flags buf s).1
    unfolding sys_statx
    sys_statx-Quiet dirfd addr flags buf s = with_path-Quiet host addr _ s (λ path.
        pick-Quiet s (is_empty path) _ _ (stat_done-Quiet _ buf _ s) (
          pick-Quiet s (not (dirfd == at_fdcwd) && not (starts_with_slash path)) _ _ (λ j. refl)
            (stat_done-Quiet _ buf _ s)))

  dir_opened-Quiet :
      (i : ℕ) (fd : ℤ) (d : ℕ) (r : Outcome ℕ) (s : Server K)
      → Quiet s (dir_opened host i fd d r s).1
  unfolding dir_opened
  dir_opened-Quiet i fd d (fail e) s j = refl
  dir_opened-Quiet i fd d (ok dir) s j = refl

  dir_dupped-Quiet :
      (i : ℕ) (fd : ℤ) (r : Outcome ℕ) (s : Server K) → Quiet s (dir_dupped host i fd r s).1
  unfolding dir_dupped
  dir_dupped-Quiet i fd (fail e) s = λ j. refl
  dir_dupped-Quiet i fd (ok d) s =
      let r = lift (host.fdopendir d) s in dir_opened-Quiet i fd d r.0 r.1

  dir_open-Quiet : (fd : ℤ) (o : Option ℕ) (s : Server K) → Quiet s (dir_open host fd o s).1
  unfolding dir_open
  dir_open-Quiet fd none s = λ j. refl
  dir_open-Quiet (pos h) (some i) s =
      let r = lift (host.dup h) s in dir_dupped-Quiet i (pos h) r.0 r.1
  dir_open-Quiet (negsuc n) (some i) s = λ j. refl

  dir_for-Quiet : (fd : ℤ) (s : Server K) → Quiet s (dir_for host fd s).1
  unfolding dir_for
  dir_for-Quiet fd s =
      option-Quiet s (first_index (λ i. caches fd (s.dircache i)) max_dircache) _
        (λ i. ((s.dircache i).dir, s)) (dir_open-Quiet fd _ s) (λ i j. refl)

  read_dir-Quiet :
      (buf bufsz : ℕ) (o : Option ℕ) (s : Server K) → Quiet s (read_dir host buf bufsz o s).1
  unfolding read_dir
  read_dir-Quiet buf bufsz none s j = refl
  read_dir-Quiet buf bufsz (some dir) s j = ground arith

  pub sys_getdents64-Quiet :
      (fd : ℤ) (buf bufsz : ℕ) (s : Server K) → Quiet s (sys_getdents64 host fd buf bufsz s).1
  unfolding sys_getdents64
  sys_getdents64-Quiet fd buf bufsz s =
      let r = dir_for host fd s in λ j. read_dir-Quiet buf bufsz r.0 r.1 j ∙ dir_for-Quiet fd s j
