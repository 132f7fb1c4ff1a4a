-- ===== src/Syscall/Paths.antt =====
-- linux-personality/oryxlinux.c: the cases of dispatch that take or give back a path.
use oryx_hurd.Base.{
  ℕ, ◌+◌, List, [], ◌∷◌, ◌++◌, ℤ, pos, neg, St, pure, ◌>>=◌, ltb, if◌then◌else◌, length, take,
}
use oryx_hurd.Host.{Host, Outcome, ok, fail}
use oryx_hurd.Server.{Server, me, lift}
use oryx_hurd.Memory.{poke}
use oryx_hurd.Fd.{gfd_alloc}
use oryx_hurd.Process.{linux_efault}
use oryx_hurd.Errno.{HostErrno, ret_err}
use oryx_hurd.Syscall.{result_zero}
use oryx_hurd.Syscall.Files.{OpenFlags, with_path, resolve, open_flags_from_linux}

abbrev pub linux_erange : ℕ
linux_erange = 34

module _ {K : Type 0} (host : Host K) (names : HostErrno) where
  -- Cases 5 and 295: the host's descriptor goes to the lowest free entry.
  unfoldable pub open_done : Outcome ℕ → St (Server K) ℤ
  open_done (fail e) s = (ret_err names e, s)
  open_done (ok fd) s = gfd_alloc host (pos fd) s

  unfoldable pub sys_open : OpenFlags → (addr flags mode : ℕ) → St (Server K) ℤ
  sys_open o addr flags mode = with_path host addr (λ path s.
      (do
        r ← lift (
            host.open_file (resolve host s.sysroot path s.kernel) (open_flags_from_linux o flags)
              mode)
        open_done r)
        s)

  -- Cases 10, 39, 40, 15 and 12 give the path of the guest to the host as it is.
  unfoldable pub path_call : ℕ → (List ℕ → St K (Outcome (Unit {0}))) → St (Server K) ℤ
  path_call addr call =
      with_path host addr (λ path. lift (call path) >>= λ r. pure (result_zero names r))

  unfoldable pub sys_rename : (a1 a2 : ℕ) → St (Server K) ℤ
  sys_rename a1 a2 = with_path host a1 (λ from.
      with_path host a2 (λ to. lift (host.rename from to) >>= λ r. pure (result_zero names r)))

  -- Cases 33 and 307.
  unfoldable pub sys_access : (addr mode : ℕ) → St (Server K) ℤ
  sys_access addr mode = with_path host addr (λ path s.
      (result_zero names (host.access (resolve host s.sysroot path s.kernel) mode s.kernel), s))

  -- Cases 85 and 305: the link's text, cut to the guest's buffer; no NUL is added.
  unfoldable pub readlink_done : (buf size : ℕ) → Outcome (List ℕ) → St (Server K) ℤ
  readlink_done buf size (fail e) s = (ret_err names e, s)
  readlink_done buf size (ok text) s =
      (do
        written ← lift (poke host (me s).task buf (take size text))
        pure (if written then pos (length (take size text)) else neg linux_efault))
        s

  unfoldable pub sys_readlink : (addr buf size : ℕ) → St (Server K) ℤ
  sys_readlink addr buf size =
      with_path host addr (λ path s. readlink_done buf size (host.readlink path 1024 s.kernel) s)

  unfoldable pub sys_readlinkat : (addr buf size : ℕ) → St (Server K) ℤ
  sys_readlinkat addr buf size = with_path host addr (λ path s.
      readlink_done buf size (host.readlink (resolve host s.sysroot path s.kernel) 1024 s.kernel) s)

  -- Case 183.
  unfoldable pub getcwd_done : (buf size : ℕ) → Outcome (List ℕ) → St (Server K) ℤ
  getcwd_done buf size (fail e) s = (ret_err names e, s)
  getcwd_done buf size (ok path) s =
      if ltb size (length path + 1)
      then (neg linux_erange, s)
      else (do
        written ← lift (poke host (me s).task buf (path ++ 0 ∷ []))
        pure (if written then pos (length path + 1) else neg linux_efault))
          s

  unfoldable pub sys_getcwd : (buf size : ℕ) → St (Server K) ℤ
  sys_getcwd buf size s = getcwd_done buf size (host.getcwd 1024 s.kernel) s
