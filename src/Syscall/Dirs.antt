-- ===== src/Syscall/Dirs.antt =====
-- linux-personality/oryxlinux.c: dir_for and sys_getdents64.
pub mod Records
pub mod Parse
pub mod Cache
use oryx_hurd.Base.{
  ℕ, zero, suc, ◌+◌, ◌*◌, ◌/◌, Bool, true, false, Option, none, some, List, [], ◌∷◌, ◌++◌, ℤ, pos,
  negsuc, neg, ◌==ℤ◌, St, pure, ◌>>=◌, ltb, ◌==◌, if◌then◌else◌, length, update, first_index, ◌-◌,
  replicate,
}
use oryx_hurd.Host.{Host, Outcome, ok, fail, Dirent}
use oryx_hurd.Server.{Server, DirSlot, me, lift}
use oryx_hurd.Memory.{poke}
use oryx_hurd.Process.{linux_efault}
use oryx_hurd.Syscall.Io.{linux_enomem}
use oryx_hurd.Syscall.Files.{max_dircache}
use oryx_hurd.Syscall.Stat.{le_bytes}

abbrev pub linux_enotdir : ℕ
linux_enotdir = 20

-- dircache[i].dir && dircache[i].fd == fd
abbrev pub caches : ℤ → DirSlot → Bool
caches fd slot = elim slot.dir [ none ↦ false | some dir ↦ slot.fd ==ℤ fd ]

abbrev pub vacant : DirSlot → Bool
vacant slot = elim slot.dir [ none ↦ true | some dir ↦ false ]

-- sizeof(struct linux_dirent64) + nlen + 1, up to a multiple of 8
abbrev pub record_length : Dirent → ℕ
record_length de = (19 + length de.d_name + 1 + 7) / 8 * 8

-- One entry of the guest's buffer, with the zero bytes that calloc left behind the name.
unfoldable pub dirent_bytes : Dirent → (off : ℕ) → List ℕ
dirent_bytes de off =
    le_bytes 8 de.d_ino
    ++ (le_bytes 8 off
        ++ (le_bytes 2 (record_length de)
            ++ (de.d_type
                ∷ (de.d_name ++ replicate (record_length de - (19 + length de.d_name)) 0))))

module _ {K : Type 0} (host : Host K) where
  -- A new stream goes to slot `i`.
  unfoldable pub dir_opened : (i : ℕ) → ℤ → (d : ℕ) → Outcome ℕ → St (Server K) (Option ℕ)
  dir_opened i fd d (fail e) s = (none, (lift (host.close d) s).1)
  dir_opened i fd d (ok dir) s =
      (some dir, record s { dircache = update s.dircache i (record { fd = fd; dir = some dir }) })

  unfoldable pub dir_dupped : (i : ℕ) → ℤ → Outcome ℕ → St (Server K) (Option ℕ)
  dir_dupped i fd (fail e) s = (none, s)
  dir_dupped i fd (ok d) s = (do dir ← lift (host.fdopendir d); dir_opened i fd d dir) s

  -- What dir_for does with the first free slot; dup of a negative number fails.
  unfoldable pub dir_open : ℤ → Option ℕ → St (Server K) (Option ℕ)
  dir_open fd none s = (none, s)
  dir_open (pos h) (some i) s = (do d ← lift (host.dup h); dir_dupped i (pos h) d) s
  dir_open (negsuc n) (some i) s = (none, s)

  unfoldable pub dir_for : ℤ → St (Server K) (Option ℕ)
  dir_for fd s = elim (first_index (λ i. caches fd (s.dircache i)) max_dircache) [
    | some i ↦ ((s.dircache i).dir, s)
    | none ↦ dir_open fd (first_index (λ i. vacant (s.dircache i)) max_dircache) s
  ]

  -- One entry: `rest` is the loop from the new end on. An entry that does not fit is put back.
  unfoldable pub getdents_fit :
      (ℕ → St K (List ℕ)) → (dir used save : ℕ) → Dirent → Bool → St K (List ℕ)
  getdents_fit rest dir used save de true k = ([], (host.seekdir dir save k).1)
  getdents_fit rest dir used save de false k =
      let r = rest (used + record_length de) k in (dirent_bytes de (host.telldir dir k) ++ r.0, r.1)

  unfoldable pub getdents_entry :
      (ℕ → St K (List ℕ)) → (dir bufsz used save : ℕ) → Option Dirent → St K (List ℕ)
  getdents_entry rest dir bufsz used save none k = ([], k)
  getdents_entry rest dir bufsz used save (some de) k =
      getdents_fit rest dir used save de (ltb bufsz (used + record_length de)) k

  -- The loop of getdents64: the bytes of the entries that fit. An entry takes 24 bytes or more, so
  -- one round for each byte of the buffer is enough.
  unfoldable pub getdents_loop : (fuel dir bufsz used : ℕ) → St K (List ℕ)
  getdents_loop zero dir bufsz used k = ([], k)
  getdents_loop (suc fuel) dir bufsz used k =
      let r = host.readdir dir k in
      getdents_entry (λ at. getdents_loop fuel dir bufsz at) dir bufsz used (host.telldir dir k) r.0
        r.1

  -- From the stream on.
  unfoldable pub read_dir : (buf bufsz : ℕ) → Option ℕ → St (Server K) ℤ
  read_dir buf bufsz none s = (neg linux_enotdir, s)
  read_dir buf bufsz (some dir) s =
      (do
        got_out ← lift (host.malloc bufsz)
        if got_out
            then (do
              out ← lift (getdents_loop (suc bufsz) dir bufsz 0)
              written ← lift (if length out == 0 then pure true else poke host (me s).task buf out)
              pure (if written then pos (length out) else neg linux_efault))
            else pure (neg linux_enomem))
        s

  unfoldable pub sys_getdents64 : ℤ → (buf bufsz : ℕ) → St (Server K) ℤ
  sys_getdents64 fd buf bufsz = do dir ← dir_for fd; read_dir buf bufsz dir
