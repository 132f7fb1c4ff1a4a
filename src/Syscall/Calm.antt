-- ===== src/Syscall/Calm.antt =====
-- The calls on descriptors, paths and directories, linux-personality/oryxlinux.c, leave the life of
-- every process as it was.
pub mod Memory
pub mod Stat
use oryx_hurd.Base.{
  ℕ, zero, suc, ◌≡◌, refl, ◌∙◌, Bool, true, false, not, ◌&&◌, Option, none, some, List, [], ◌∷◌, ℤ,
  pos, negsuc, St, pure, ◌==◌, if◌then◌else◌, ltb, leb, arith, first_index, is_neg, bit, length,
  take, ◌>>◌, ◌+◌,
}
use oryx_hurd.Host.{Host, HostStat, Outcome, ok, fail}
use oryx_hurd.Server.{Server, max_fd, me, lift}
use oryx_hurd.Errno.{HostErrno}
use oryx_hurd.Memory.{poke}
use oryx_hurd.Fd.{gfd_alloc, gfd_place, close_fd, int_of}
use oryx_hurd.Process.Quiet.{Quiet, pick-Quiet, option-Quiet}
use oryx_hurd.Syscall.Files.{
  OpenFlags, with_path, path_arg, dir_forget, sys_close, sys_dup, sys_dup2, dup2_onto, dup2_done,
  sys_pipe, pipe_made, pipe_done, sys_lseek, sys_llseek, offset64, llseek_done, sys_fcntl, resolve,
  open_flags_from_linux,
}
use oryx_hurd.Syscall.Paths.{
  sys_open, open_done, path_call, sys_rename, sys_access, sys_readlink, sys_readlinkat,
  readlink_done, sys_getcwd, getcwd_done,
}

module _ {K : Type 0} (host : Host K) where
  gfd_place-Quiet : (h : ℕ) (o : Option ℕ) (s : Server K) → Quiet s (gfd_place host h o s).1
  unfolding gfd_place
  gfd_place-Quiet h none s j = refl
  gfd_place-Quiet h (some i) s j = ground arith

  pub gfd_alloc-Quiet : (h : ℤ) (s : Server K) → Quiet s (gfd_alloc host h s).1
  unfolding gfd_alloc
  gfd_alloc-Quiet (negsuc n) s j = refl
  gfd_alloc-Quiet (pos h) s j = gfd_place-Quiet h _ s j

  pub with_path-Quiet :
      (addr : ℕ) (call : List ℕ → St (Server K) ℤ) (s : Server K)
      → ((path : List ℕ) → Quiet s (call path s).1)
      → Quiet s (with_path host addr call s).1
  unfolding with_path
  with_path-Quiet addr call s quiet =
      option-Quiet s (path_arg host (me s).task addr s.kernel) _ (λ path. call path s) (λ j. refl)
        quiet

  module _ (names : HostErrno) where
    pub sys_close-Quiet :
        (gfd : ℕ) (fd : ℤ) (s : Server K) → Quiet s (sys_close host names gfd fd s).1
    unfolding sys_close dir_forget
    sys_close-Quiet gfd (negsuc n) s j = refl
    sys_close-Quiet gfd (pos h) s j = ground arith

    pub sys_dup-Quiet : (fd : ℤ) (s : Server K) → Quiet s (sys_dup host names fd s).1
    unfolding sys_dup
    sys_dup-Quiet (negsuc n) s j = refl
    sys_dup-Quiet (pos h) s j = let r = lift (host.dup h) s in gfd_alloc-Quiet (int_of r.0) r.1 j

    dup2_done-Quiet :
        (nr a2 a3 : ℕ) (r : Outcome ℕ) (s : Server K)
        → Quiet s (dup2_done host names nr a2 a3 r s).1
    unfolding dup2_done
    dup2_done-Quiet nr a2 a3 (fail e) s j = refl
    dup2_done-Quiet nr a2 a3 (ok n) s j = ground arith

    dup2_onto-Quiet :
        (nr a1 a2 a3 h : ℕ) (s : Server K) → Quiet s (dup2_onto host names nr a1 a2 a3 h s).1
    unfolding dup2_onto
    dup2_onto-Quiet nr a1 a2 a3 h s =
        pick-Quiet s (a1 == a2) _ _ (λ j. refl)
          (let r = lift (host.dup h) (lift (close_fd host ((me s).fd a2)) s).1 in
            dup2_done-Quiet nr a2 a3 r.0 r.1)

    pub sys_dup2-Quiet :
        (nr a1 a2 a3 : ℕ) (fd : ℤ) (s : Server K) → Quiet s (sys_dup2 host names nr a1 a2 a3 fd s).1
    unfolding sys_dup2
    sys_dup2-Quiet nr a1 a2 a3 (negsuc n) s = λ j. refl
    sys_dup2-Quiet nr a1 a2 a3 (pos h) s =
        pick-Quiet s (leb max_fd a2) _ _ (λ j. refl) (dup2_onto-Quiet nr a1 a2 a3 h s)

    pipe_done-Quiet :
        (addr : ℕ) (g0 g1 : ℤ) (s : Server K) → Quiet s (pipe_done host names addr g0 g1 s).1
    unfolding pipe_done
    pipe_done-Quiet addr (negsuc a) g1 s j = refl
    pipe_done-Quiet addr (pos a) (negsuc b) s j = refl
    pipe_done-Quiet addr (pos a) (pos b) s j = refl

    pipe_made-Quiet :
        (nr addr flags : ℕ) (r : Outcome (ℕ × ℕ)) (s : Server K)
        → Quiet s (pipe_made host names nr addr flags r s).1
    unfolding pipe_made
    pipe_made-Quiet nr addr flags (fail e) s = λ j. refl
    pipe_made-Quiet nr addr flags (ok (r, w)) s =
        let t =
          (lift
            (if (nr == 331) && bit flags 19
              then (host.set_cloexec r >> host.set_cloexec w)
              else pure tt)
            s).1 in
        let g0 = gfd_alloc host (pos r) t in
        let g1 = gfd_alloc host (pos w) g0.1 in
        λ j.
          pipe_done-Quiet addr g0.0 g1.0 g1.1 j
          ∙ (gfd_alloc-Quiet (pos w) g0.1 j ∙ gfd_alloc-Quiet (pos r) t j)

    pub sys_pipe-Quiet :
        (nr addr flags : ℕ) (s : Server K) → Quiet s (sys_pipe host names nr addr flags s).1
    unfolding sys_pipe
    sys_pipe-Quiet nr addr flags s =
        let r = lift host.pipe s in pipe_made-Quiet nr addr flags r.0 r.1

    llseek_done-Quiet :
        (addr : ℕ) (r : Outcome ℕ) (s : Server K) → Quiet s (llseek_done host names addr r s).1
    unfolding llseek_done
    llseek_done-Quiet addr (fail e) s j = refl
    llseek_done-Quiet addr (ok v) s j = refl

    open_done-Quiet : (r : Outcome ℕ) (s : Server K) → Quiet s (open_done host names r s).1
    unfolding open_done
    open_done-Quiet (fail e) s j = refl
    open_done-Quiet (ok fd) s j = gfd_alloc-Quiet (pos fd) s j

    pub sys_llseek-Quiet :
        (fd : ℤ) (hi lo addr whence : ℕ) (s : Server K)
        → Quiet s (sys_llseek host names fd hi lo addr whence s).1
    unfolding sys_llseek
    sys_llseek-Quiet fd hi lo addr whence s =
        let r = lift (host.lseek fd (offset64 host names hi lo) whence) s in
        llseek_done-Quiet addr r.0 r.1

    pub sys_fcntl-Quiet :
        (fd : ℤ) (cmd arg : ℕ) (s : Server K) → Quiet s (sys_fcntl host names fd cmd arg s).1
    unfolding sys_fcntl
    sys_fcntl-Quiet (negsuc n) cmd arg s = λ j. refl
    sys_fcntl-Quiet (pos h) cmd arg s =
        pick-Quiet s (cmd == 0) _ _ (sys_dup-Quiet (pos h) s) (λ j. refl)

    pub sys_open-Quiet :
        (o : OpenFlags) (addr flags mode : ℕ) (s : Server K)
        → Quiet s (sys_open host names o addr flags mode s).1
    unfolding sys_open
    sys_open-Quiet o addr flags mode s = with_path-Quiet addr _ s (λ path.
        let r =
          lift
            (host.open_file (resolve host s.sysroot path s.kernel) (open_flags_from_linux o flags)
              mode)
            s in
        open_done-Quiet r.0 r.1)

    pub path_call-Quiet :
        (addr : ℕ) (call : List ℕ → St K (Outcome (Unit {0}))) (s : Server K)
        → Quiet s (path_call host names addr call s).1
    unfolding path_call
    path_call-Quiet addr call s = with_path-Quiet addr _ s (λ path j. refl)

    pub sys_rename-Quiet : (a1 a2 : ℕ) (s : Server K) → Quiet s (sys_rename host names a1 a2 s).1
    unfolding sys_rename
    sys_rename-Quiet a1 a2 s =
        with_path-Quiet a1 _ s (λ from. with_path-Quiet a2 _ s (λ to j. refl))

    pub sys_access-Quiet :
        (addr mode : ℕ) (s : Server K) → Quiet s (sys_access host names addr mode s).1
    unfolding sys_access
    sys_access-Quiet addr mode s = with_path-Quiet addr _ s (λ path j. refl)

    readlink_done-Quiet :
        (buf size : ℕ) (r : Outcome (List ℕ)) (s : Server K)
        → Quiet s (readlink_done host names buf size r s).1
    unfolding readlink_done
    readlink_done-Quiet buf size (fail e) s j = refl
    readlink_done-Quiet buf size (ok text) s j = refl

    pub sys_readlink-Quiet :
        (addr buf size : ℕ) (s : Server K) → Quiet s (sys_readlink host names addr buf size s).1
    unfolding sys_readlink
    sys_readlink-Quiet addr buf size s =
        with_path-Quiet addr _ s (λ path. readlink_done-Quiet buf size _ s)

    pub sys_readlinkat-Quiet :
        (addr buf size : ℕ) (s : Server K) → Quiet s (sys_readlinkat host names addr buf size s).1
    unfolding sys_readlinkat
    sys_readlinkat-Quiet addr buf size s =
        with_path-Quiet addr _ s (λ path. readlink_done-Quiet buf size _ s)

    getcwd_done-Quiet :
        (buf size : ℕ) (r : Outcome (List ℕ)) (s : Server K)
        → Quiet s (getcwd_done host names buf size r s).1
    unfolding getcwd_done
    getcwd_done-Quiet buf size (fail e) s = λ j. refl
    getcwd_done-Quiet buf size (ok path) s =
        pick-Quiet s (ltb size (length path + 1)) _ _ (λ j. refl) (λ j. refl)

    pub sys_getcwd-Quiet :
        (buf size : ℕ) (s : Server K) → Quiet s (sys_getcwd host names buf size s).1
    unfolding sys_getcwd
    sys_getcwd-Quiet buf size s = getcwd_done-Quiet buf size _ s
