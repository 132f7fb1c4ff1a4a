-- ===== src/Syscall/Dirs/Records.antt =====
-- linux-personality/oryxlinux.c: the records that getdents64 writes.
use oryx_hurd.Base.{
  ℕ, zero, suc, ◌+◌, ◌-◌, ◌/◌, ◌%◌, ◌≤◌, ◌<◌, ◌≡◌, refl, ap, Bool, true, false, Option, none, some,
  List, ◌∷◌, ◌++◌, ltb, length, length-append, length-replicate, replicate, arith, St,
}
use oryx_hurd.Host.{Host, Dirent}
use oryx_hurd.Syscall.Stat.{le_bytes}
use oryx_hurd.Syscall.Dirs.{
  record_length, dirent_bytes, getdents_fit, getdents_entry, getdents_loop,
}

length-le_bytes : (n v : ℕ) → length (le_bytes n v) ≡ n
unfolding le_bytes
length-le_bytes zero v = refl
length-le_bytes (suc n) v = ap suc (length-le_bytes n (v / 256))

-- A record has the length that its d_reclen says, a multiple of 8.
pub length-dirent_bytes :
    (de : Dirent) (off : ℕ)
    → (length (dirent_bytes de off) ≡ record_length de) × (record_length de % 8 ≡ 0)
unfolding dirent_bytes
length-dirent_bytes de off =
    let pad : List ℕ = replicate (record_length de - (19 + length de.d_name)) 0 in
    let tail : List ℕ = de.d_type ∷ (de.d_name ++ pad) in
    let reclen = le_bytes 2 (record_length de) in
    (
      omega (
        arith,
        length-append (le_bytes 8 de.d_ino) (le_bytes 8 off ++ (reclen ++ tail)),
        length-append (le_bytes 8 off) (reclen ++ tail),
        length-append reclen tail,
        length-append de.d_name pad,
        length-replicate {A = ℕ} (record_length de - (19 + length de.d_name)) 0,
        length-le_bytes 8 de.d_ino,
        length-le_bytes 8 off,
        length-le_bytes 2 (record_length de),
      ),
      omega arith,
    )

module _ {K : Type 0} (host : Host K) (dir bufsz : ℕ) where
  -- What is written fits the guest's buffer and is whole records; another round changes nothing.
  abbrev pub Written : (used : ℕ) → (r more : List ℕ × K) → Type 0
  Written used r more = (used + length r.0 ≤ bufsz) × (length r.0 % 8 ≡ 0) × (more ≡ r)

  getdents_fit-Written :
      (rest more : ℕ → St K (List ℕ)) (used save : ℕ) (de : Dirent) (b : Bool) (k : K)
      → ltb bufsz (used + record_length de) ≡ b
      → used ≤ bufsz
      → ((at : ℕ) (k : K) → used < at → at ≤ bufsz → Written at (rest at k) (more at k))
      → Written used
          (getdents_fit host rest dir used save de b k)
          (getdents_fit host more dir used save de b k)
  unfolding getdents_fit
  getdents_fit-Written rest more used save de true k e small ih = (omega arith, refl, refl)
  getdents_fit-Written rest more used save de false k e small ih =
      let at = used + record_length de in
      let bytes = dirent_bytes de (host.telldir dir k) in
      let after = ih at k (omega arith) (ground arith) in
      let size = length-dirent_bytes de (host.telldir dir k) in
      (
        omega (arith, after, size, length-append bytes (rest at k).0),
        omega (arith, after, size, length-append bytes (rest at k).0),
        ap (λ r. (bytes ++ r.0, r.1)) after.2,
      )

  getdents_entry-Written :
      (rest more : ℕ → St K (List ℕ)) (used save : ℕ) (o : Option Dirent) (k : K)
      → used ≤ bufsz
      → ((at : ℕ) (k : K) → used < at → at ≤ bufsz → Written at (rest at k) (more at k))
      → Written used
          (getdents_entry host rest dir bufsz used save o k)
          (getdents_entry host more dir bufsz used save o k)
  unfolding getdents_entry
  getdents_entry-Written rest more used save none k small ih = (omega arith, refl, refl)
  getdents_entry-Written rest more used save (some de) k small ih =
      getdents_fit-Written rest more used save de _ k refl small ih

  -- With one round for each byte that is left of the buffer, and one more, what getdents64 collects
  -- fits the buffer, consists of whole 8-byte units, and is what every larger number of rounds
  -- collects.
  pub getdents_loop_lem :
      (fuel used : ℕ) (k : K)
      → used ≤ bufsz
      → bufsz < fuel + used
      → Written used
          (getdents_loop host fuel dir bufsz used k)
          (getdents_loop host (suc fuel) dir bufsz used k)
  unfolding getdents_loop
  getdents_loop_lem zero used k small enough = absurd (omega arith)
  getdents_loop_lem (suc fuel) used k small enough =
      getdents_entry-Written (λ at. getdents_loop host fuel dir bufsz at)
        (λ at. getdents_loop host (suc fuel) dir bufsz at) used (host.telldir dir k) _ _ small
        (λ at k' lt le. getdents_loop_lem fuel at k' le (omega arith))
