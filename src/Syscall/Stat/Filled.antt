-- ===== src/Syscall/Stat/Filled.antt =====
-- linux-personality/oryxlinux.c: what stat64, fstat64, fstatat64 and statx leave in the guest.
use oryx_hurd.Base.{
  ℕ, ◌+◌, ◌^◌, ◌≤◌, ◌<◌, ◌≡◌, refl, sym, ap, ◌∙◌, subst, inl, inr, ◌⊎◌, Bool, true, false, some,
  List, ℤ, pos, neg, ◌==◌, if◌then◌else◌, length, arith,
}
use oryx_hurd.Host.{Host, HostStat, Outcome, ok, fail}
use oryx_hurd.Server.{Server, me}
use oryx_hurd.Memory.{page_size, poke}
use oryx_hurd.Memory.Peek.{MemLaws}
use oryx_hurd.Memory.Range.{bytes_at, poke-bytes_at}
use oryx_hurd.Fd.{hfd}
use oryx_hurd.Process.{linux_efault}
use oryx_hurd.Errno.{HostErrno, ret_err}
use oryx_hurd.Syscall.Files.{with_path, path_arg, resolve}
use oryx_hurd.Syscall.Stat.{
  fill_stat64, fill_statx, stat_done, sys_stat64, sys_fstat64, sys_fstatat64, sys_statx, stat_path,
  at_fdcwd, is_empty,
}
use oryx_hurd.Syscall.Stat.Layout.{ReadsStat64, ReadsStatx, fill_stat64-Reads, fill_statx-Reads}

module _ {K : Type 0} (byte : K → ℕ → ℕ → ℕ) (names : HostErrno) where
  -- The host's outcome `o` as the guest sees it in the result and in the `size` bytes at `buf`.
  abbrev pub Filled :
      (HostStat → List ℕ → Type 0)
      → (size buf : ℕ) → Outcome HostStat
      → Server K
      → ℤ × Server K
      → Type 0
  Filled Reads size buf o s r =
      ((e : ℕ) × (o ≡ fail e) × (r.0 ≡ ret_err names e) × (r.1 ≡ s))
      ⊎ ((st : HostStat) × (o ≡ ok st)
          × ((r.0 ≡ neg linux_efault)
              ⊎ ((r.0 ≡ pos 0) × Reads st (bytes_at byte r.1.kernel (me s).task buf size))))

module _ {K : Type 0} {host : Host K} {byte : K → ℕ → ℕ → ℕ} (laws : MemLaws host byte)
    (names : HostErrno) where
  module _ (Reads : HostStat → List ℕ → Type 0) (encode : HostStat → List ℕ) (size : ℕ)
      (whole : (st : HostStat) → length (encode st) ≡ size)
      (reads : (st : HostStat) → Reads st (encode st)) (some_ : 0 < size) where
    stat_done-Filled :
        (buf : ℕ) (o : Outcome HostStat) (s : Server K)
        → buf + size + page_size ≤ 2 ^ 32
        → Filled byte names Reads size buf o s (stat_done host names encode buf o s)
    unfolding stat_done
    stat_done-Filled buf (fail e) s room = inl (e, refl, refl, refl)
    stat_done-Filled buf (ok st) s room =
        inr (st, refl, by_written (poke host (me s).task buf (encode st) s.kernel) refl)
      where
        by_written :
            (w : Bool × K)
            → poke host (me s).task buf (encode st) s.kernel ≡ w
            → ((if w.0 then pos 0 else neg linux_efault) ≡ neg linux_efault)
              ⊎ (((if w.0 then pos 0 else neg linux_efault) ≡ pos 0)
                  × Reads st (bytes_at byte w.1 (me s).task buf size))
        by_written (false, k) e = inl refl
        by_written (true, k) e =
            let stored =
              poke-bytes_at laws (me s).task buf (encode st) s.kernel (ground (arith, whole st))
                (ground (arith, whole st)) (ap (λ w. w.0) e) in
            let here : bytes_at byte k (me s).task buf size ≡ encode st =
              ap (λ w. bytes_at byte w.1 (me s).task buf size) (sym e)
              ∙ (ap
                    (λ n.
                      bytes_at byte (poke host (me s).task buf (encode st) s.kernel).1 (me s).task
                        buf n)
                    (sym (whole st))
                  ∙ stored) in
            inr (refl, subst (Reads st) (sym here) (reads st))

  filled64 :
      (buf : ℕ) (o : Outcome HostStat) (s : Server K)
      → buf + 256 + page_size ≤ 2 ^ 32
      → Filled byte names ReadsStat64 96 buf o s (stat_done host names fill_stat64 buf o s)
  filled64 buf o s room =
      stat_done-Filled ReadsStat64 fill_stat64 96 (λ st. (fill_stat64-Reads st).0) fill_stat64-Reads
        (omega arith) buf o s (omega arith)

  filledx :
      (buf : ℕ) (o : Outcome HostStat) (s : Server K)
      → buf + 256 + page_size ≤ 2 ^ 32
      → Filled byte names ReadsStatx 256 buf o s (stat_done host names fill_statx buf o s)
  filledx buf o s room =
      stat_done-Filled ReadsStatx fill_statx 256 (λ st. (fill_statx-Reads st).0) fill_statx-Reads
        (omega arith) buf o s room

  -- statx has two sources of its structure.
  filledx-if :
      (b : Bool) (buf : ℕ) (o p : Outcome HostStat) (s : Server K)
      → buf + 256 + page_size ≤ 2 ^ 32
      → Filled byte names ReadsStatx 256 buf (if b then o else p) s (
          if b
          then stat_done host names fill_statx buf o s
          else stat_done host names fill_statx buf p s)
  filledx-if true buf o p s room = filledx buf o s room
  filledx-if false buf o p s room = filledx buf p s room

  module _ (addr buf : ℕ) (path : List ℕ) (s : Server K)
      (named : path_arg host (me s).task addr s.kernel ≡ some path) where
    stat64_named :
        (nr : ℕ)
        → sys_stat64 host names nr addr buf s
          ≡ stat_done host names fill_stat64 buf
              (if nr == 195
                then host.stat (resolve host s.sysroot path s.kernel) s.kernel
                else host.lstat (resolve host s.sysroot path s.kernel) s.kernel)
              s
    unfolding sys_stat64 with_path
    stat64_named nr = rw (named, sys_stat64, with_path) refl

    fstatat64_named :
        (flags : ℕ)
        → sys_fstatat64 host names at_fdcwd addr buf flags s
          ≡ stat_done host names fill_stat64 buf (stat_path host names flags path s) s
    unfolding sys_fstatat64 with_path
    fstatat64_named flags = rw (named, sys_fstatat64, with_path) refl

    statx_named :
        (flags : ℕ)
        → sys_statx host names at_fdcwd addr flags buf s ≡ (
            if is_empty path
            then stat_done host names fill_statx buf (host.fstat (hfd (me s) at_fdcwd) s.kernel) s
            else stat_done host names fill_statx buf (stat_path host names flags path s) s)
    unfolding sys_statx with_path
    statx_named flags = rw (named, sys_statx, with_path) refl

  -- A stat64 or lstat64 of a path that can be read, an fstat64, and an fstatat64 and a statx of such
  -- a path at AT_FDCWD, with a buffer below the last page, give the host's error and change nothing,
  -- or fail with EFAULT, or return 0; then the buffer, read at the offsets of the i386's interface,
  -- has the numbers of the host's structure, each cut to the width of its field; in statx the device
  -- numbers are split as the source splits them.
  pub stat_calls_lem :
      (nr gfd addr buf flags : ℕ) (path : List ℕ) (s : Server K)
      → buf + 256 + page_size ≤ 2 ^ 32
      → path_arg host (me s).task addr s.kernel ≡ some path
      → let rp = resolve host s.sysroot path s.kernel in
        Filled byte names ReadsStat64 96 buf
          (if nr == 195 then host.stat rp s.kernel else host.lstat rp s.kernel)
          s
          (sys_stat64 host names nr addr buf s)
        × Filled byte names ReadsStat64 96 buf
            (host.fstat (hfd (me s) gfd) s.kernel)
            s
            (sys_fstat64 host names gfd buf s)
        × Filled byte names ReadsStat64 96 buf
            (stat_path host names flags path s)
            s
            (sys_fstatat64 host names at_fdcwd addr buf flags s)
        × Filled byte names ReadsStatx 256 buf
            (if is_empty path
              then host.fstat (hfd (me s) at_fdcwd) s.kernel
              else stat_path host names flags path s)
            s
            (sys_statx host names at_fdcwd addr flags buf s)
  unfolding sys_fstat64
  stat_calls_lem nr gfd addr buf flags path s room named = (
    subst (Filled byte names ReadsStat64 96 buf _ s) (sym (stat64_named addr buf path s named nr))
        (filled64 buf _ s room),
    filled64 buf _ s room,
    subst (Filled byte names ReadsStat64 96 buf _ s)
        (sym (fstatat64_named addr buf path s named flags)) (filled64 buf _ s room),
    subst (Filled byte names ReadsStatx 256 buf _ s) (sym (statx_named addr buf path s named flags))
        (filledx-if (is_empty path) buf _ _ s room),
  )
