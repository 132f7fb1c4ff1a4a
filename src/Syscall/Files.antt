-- ===== src/Syscall/Files.antt =====
-- linux-personality/oryxlinux.c: resolve, open_flags_from_linux, the directory cache, and the
-- cases of dispatch that close, copy and move descriptors.
pub mod Dup
pub mod Pipe
use oryx_hurd.Base.{
  ℕ, zero, suc, ◌+◌, ◌-◌, ◌*◌, ◌/◌, ◌%◌, ◌^◌, Bool, true, false, not, ◌&&◌, Option, none, some,
  List, [], ◌∷◌, ◌++◌, ℤ, pos, negsuc, neg, to_int32, ◌==ℤ◌, bit, bit_or, St, pure, ◌>>=◌, ◌>>◌,
  ltb, leb, ◌==◌, if◌then◌else◌, length, take, update,
}
use oryx_hurd.Host.{Host, Outcome, ok, fail}
use oryx_hurd.Server.{Server, DirSlot, max_fd, me, lift, set_proc}
use oryx_hurd.Memory.{peek_str, poke}
use oryx_hurd.Fd.{gfd_alloc, int_of, set_fd, close_fd}
use oryx_hurd.Process.{word_bytes, linux_efault}
use oryx_hurd.Errno.{HostErrno, ret_err, linux_einval}
use oryx_hurd.Syscall.{result, result_zero}
use oryx_hurd.Syscall.Io.{linux_ebadf}

abbrev pub linux_emfile : ℕ
linux_emfile = 24

abbrev pub max_dircache : ℕ
max_dircache = 32

-- The bytes of a buffer before its first NUL.
unfoldable pub c_string : List ℕ → List ℕ
c_string [] = []
c_string (b ∷ rest) = if b == 0 then [] else b ∷ c_string rest

-- The host's values of the O_ flags that the source names.
pub record OpenFlags : Type 0 where
  pub o_rdonly : ℕ
  pub o_wronly : ℕ
  pub o_rdwr : ℕ
  pub o_creat : ℕ
  pub o_excl : ℕ
  pub o_trunc : ℕ
  pub o_append : ℕ
  pub o_nonblock : ℕ
  pub o_directory : ℕ

-- `if (lf & (1 << k)) f |= flag;`
abbrev pub add_flag : (lf k flag f : ℕ) → ℕ
add_flag lf k flag f = if bit lf k then bit_or f flag else f

unfoldable pub open_flags_from_linux : OpenFlags → ℕ → ℕ
open_flags_from_linux o lf = add_flag lf 16 o.o_directory (
    add_flag lf 11 o.o_nonblock (
      add_flag lf 10 o.o_append (
        add_flag lf 9 o.o_trunc (
          add_flag lf 7 o.o_excl (
            add_flag lf 6 o.o_creat (
              if lf % 4 == 0 then o.o_rdonly else if lf % 4 == 1 then o.o_wronly else o.o_rdwr))))))

abbrev pub starts_with_slash : List ℕ → Bool
starts_with_slash [] = false
starts_with_slash (c ∷ rest) = c == b'/'

abbrev pub is_ok : {A : Type 0} → Outcome A → Bool
is_ok (ok _) = true
is_ok (fail e) = false

module _ {K : Type 0} (host : Host K) where
  -- The buffer of `rbuf` has 1200 bytes, the last of them for the NUL.
  unfoldable pub resolve : Option (List ℕ) → List ℕ → K → List ℕ
  resolve none guest k = guest
  resolve (some root) guest k =
      let there = take 1199 (root ++ guest) in
      if not (starts_with_slash guest)
      then guest
      else if is_ok (host.access there 0 k)
      then there
      else guest

  -- The path at `addr` of the guest, read into an array of 1024 bytes; `none` is -1.
  unfoldable pub path_arg : (task addr : ℕ) → K → Option (List ℕ)
  path_arg task addr k = elim (peek_str host task addr 1024 (host.uninit 1024 k) k) [
    | none ↦ none
    | some buf ↦ some (c_string buf)
  ]

  unfoldable pub with_path : ℕ → (List ℕ → St (Server K) ℤ) → St (Server K) ℤ
  with_path addr use_path s = elim (path_arg (me s).task addr s.kernel) [
    | none ↦ (neg linux_efault, s)
    | some path ↦ use_path path s
  ]

  -- dir_forget: every cached stream of the host descriptor is closed.
  unfoldable pub forget_loop : (k i : ℕ) → ℤ → (ℕ → DirSlot) → St K (ℕ → DirSlot)
  forget_loop zero i fd cache = pure cache
  forget_loop (suc k) i fd cache = elim (cache i).dir [
    | none ↦ forget_loop k (suc i) fd cache
    | some dir ↦ elim ((cache i).fd ==ℤ fd) [
      | false ↦ forget_loop k (suc i) fd cache
      | true ↦
          (host.closedir dir
            >> forget_loop k (suc i) fd (update cache i (record { fd = (cache i).fd; dir = none })))
    ]
  ]

  unfoldable pub dir_forget : ℤ → St (Server K) (Unit {0})
  dir_forget fd s =
      let r = forget_loop max_dircache 0 fd s.dircache s.kernel in
      (tt, record s { dircache = r.0; kernel = r.1 })

  -- Cases 6, 41, 63/330, 42/331, 19, 140 and 221 of dispatch.
  module _ (names : HostErrno) where
    unfoldable pub sys_close : (gfd : ℕ) → ℤ → St (Server K) ℤ
    sys_close gfd (negsuc n) s = (neg linux_ebadf, s)
    sys_close gfd (pos h) s =
        (do
          dir_forget (pos h)
          set_proc s.cur (set_fd gfd (negsuc 0))
          if ltb 2 h
              then (lift (host.close h) >>= λ r. pure (result_zero names r))
              else pure (pos 0))
          s

    unfoldable pub sys_dup : ℤ → St (Server K) ℤ
    sys_dup (negsuc n) s = (neg linux_ebadf, s)
    sys_dup (pos h) s = (do r ← lift (host.dup h); gfd_alloc host (int_of r)) s

    -- The copy of dup2 goes to entry `a2`; `nr` is 63 for dup2 and 330 for dup3.
    unfoldable pub dup2_done : (nr a2 a3 : ℕ) → Outcome ℕ → St (Server K) ℤ
    dup2_done nr a2 a3 (fail e) s = (ret_err names e, s)
    dup2_done nr a2 a3 (ok n) s =
        (do
          lift (if (nr == 330) && bit a3 19 then host.set_cloexec n else pure tt)
          set_proc s.cur (set_fd a2 (pos n))
          pure (to_int32 a2))
          s

    unfoldable pub dup2_onto : (nr a1 a2 a3 h : ℕ) → St (Server K) ℤ
    dup2_onto nr a1 a2 a3 h s =
        if a1 == a2
        then (if nr == 330 then neg linux_einval else to_int32 a2, s)
        else (do lift (close_fd host ((me s).fd a2)); r ← lift (host.dup h); dup2_done nr a2 a3 r) s

    unfoldable pub sys_dup2 : (nr a1 a2 a3 : ℕ) → ℤ → St (Server K) ℤ
    sys_dup2 nr a1 a2 a3 (negsuc n) s = (neg linux_ebadf, s)
    sys_dup2 nr a1 a2 a3 (pos h) s =
        if leb max_fd a2 then (neg linux_ebadf, s) else dup2_onto nr a1 a2 a3 h s

    unfoldable pub pipe_done : (addr : ℕ) → (g0 g1 : ℤ) → St (Server K) ℤ
    pipe_done addr (negsuc a) g1 s = (neg linux_emfile, s)
    pipe_done addr (pos a) (negsuc b) s = (neg linux_emfile, s)
    pipe_done addr (pos a) (pos b) s =
        (do
          written ← lift (poke host (me s).task addr (word_bytes a ++ word_bytes b))
          pure (if written then pos 0 else neg linux_efault))
          s

    unfoldable pub pipe_made : (nr addr flags : ℕ) → Outcome (ℕ × ℕ) → St (Server K) ℤ
    pipe_made nr addr flags (fail e) s = (ret_err names e, s)
    pipe_made nr addr flags (ok (r, w)) s =
        (do
          lift (
              if (nr == 331) && bit flags 19
              then (host.set_cloexec r >> host.set_cloexec w)
              else pure tt)
          g0 ← gfd_alloc host (pos r)
          g1 ← gfd_alloc host (pos w)
          pipe_done addr g0 g1)
          s

    unfoldable pub sys_pipe : (nr addr flags : ℕ) → St (Server K) ℤ
    sys_pipe nr addr flags = do r ← lift host.pipe; pipe_made nr addr flags r

    unfoldable pub sys_lseek : ℤ → (off whence : ℕ) → St (Server K) ℤ
    sys_lseek fd off whence = do
      r ← lift (host.lseek fd (to_int32 off) whence)
      pure (result_zero names r)

    unfoldable pub llseek_done : (addr : ℕ) → Outcome ℕ → St (Server K) ℤ
    llseek_done addr (fail e) s = (ret_err names e, s)
    llseek_done addr (ok v) s =
        (do
          written ← lift (poke host (me s).task addr (word_bytes v ++ word_bytes (v / 2 ^ 32)))
          pure (if written then pos 0 else neg linux_efault))
          s

    -- ((off_t) hi << 32) | lo, a signed 64-bit number
    abbrev pub offset64 : (hi lo : ℕ) → ℤ
    offset64 hi lo =
        if ltb hi (2 ^ 31) then pos (hi * 2 ^ 32 + lo) else negsuc (2 ^ 64 - (hi * 2 ^ 32 + lo) - 1)

    unfoldable pub sys_llseek : ℤ → (hi lo addr whence : ℕ) → St (Server K) ℤ
    sys_llseek fd hi lo addr whence = do
      r ← lift (host.lseek fd (offset64 hi lo) whence)
      llseek_done addr r

    unfoldable pub sys_fcntl : ℤ → (cmd arg : ℕ) → St (Server K) ℤ
    sys_fcntl (negsuc n) cmd arg s = (neg linux_ebadf, s)
    sys_fcntl (pos h) cmd arg s =
        if cmd == 0
        then sys_dup (pos h) s
        else (lift (host.fcntl (pos h) cmd arg) >>= λ r. pure (result names r)) s
