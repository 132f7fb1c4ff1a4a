-- ===== src/Syscall/Dirs/Parse.antt =====
-- linux-personality/oryxlinux.c: a record of getdents64, as a guest reads it.
use oryx_hurd.Base.{
  ℕ, zero, suc, ◌+◌, ◌-◌, ◌*◌, ◌/◌, ◌<◌, ◌≡◌, ◌∙◌, refl, sym, ap, false, List, [], ◌∷◌, ◌++◌,
  length, drop, replicate, get_or, arith, ◌==◌,
}
use oryx_hurd.Host.{Dirent}
use oryx_hurd.Memory.{has_zero}
use oryx_hurd.Syscall.Files.{c_string}
use oryx_hurd.Syscall.Stat.{le_bytes}
use oryx_hurd.Syscall.Dirs.{record_length, dirent_bytes}
use oryx_hurd.Syscall.Dirs.Records.{length-dirent_bytes}

-- The number in the first `n` bytes, lowest first, and the first number that does not fit them.
unfoldable pub le_value : ℕ → List ℕ → ℕ
le_value zero bytes = 0
le_value (suc n) [] = 0
le_value (suc n) (b ∷ rest) = b + le_value n rest * 256

abbrev pub capacity : ℕ → ℕ
capacity zero = 1
capacity (suc n) = capacity n * 256

-- What a guest reads of the first record of a buffer, and where it finds the next one.
pub record Record : Type 0 where
  pub ino : ℕ
  pub off : ℕ
  pub kind : ℕ
  pub name : List ℕ
  pub next : List ℕ

unfoldable pub read_record : List ℕ → Record
read_record b = record {
  ino = le_value 8 b;
  off = le_value 8 (drop 8 b);
  kind = get_or b 18 0;
  name = c_string (drop 19 b);
  next = drop (le_value 2 (drop 16 b)) b;
}

le_value-le_bytes :
    (n v : ℕ) (rest : List ℕ) → v < capacity n → le_value n (le_bytes n v ++ rest) ≡ v
unfolding le_value le_bytes
le_value-le_bytes zero v rest small = omega arith
le_value-le_bytes (suc n) v rest small =
    omega (arith, le_value-le_bytes n (v / 256) rest (omega arith))

c_string-name :
    (name rest : List ℕ) (m : ℕ)
    → has_zero name ≡ false
    → c_string ((name ++ replicate (suc m) 0) ++ rest) ≡ name
unfolding c_string has_zero
c_string-name [] rest m none_zero = refl
c_string-name (b ∷ name) rest m none_zero =
    let here : (b == 0) ≡ false = ground arith in
    rw (here) (ap (λ l. b ∷ l) (c_string-name name rest m (ground arith)))

drop-length : (xs rest : List ℕ) → drop (length xs) (xs ++ rest) ≡ rest
drop-length [] rest = refl
drop-length (x ∷ xs) rest = drop-length xs rest

-- The fields of a directory entry fit those of a record.
pub record Fits (de : Dirent) (off : ℕ) : Type 0 where
  pub ino_small : de.d_ino < capacity 8
  pub off_small : off < capacity 8
  pub length_small : record_length de < capacity 2
  pub text : has_zero de.d_name ≡ false

-- A record that getdents64 writes for an entry that fits, whatever follows it, is read back as the
-- entry's number, offset, type and name, and the next record starts right behind it.
pub read_record-dirent_bytes :
    (de : Dirent) (off : ℕ) (rest : List ℕ)
    → Fits de off
    → let r = read_record (dirent_bytes de off ++ rest) in
      (r.ino ≡ de.d_ino)
      × (r.off ≡ off)
      × (r.kind ≡ de.d_type)
      × (r.name ≡ de.d_name)
      × (r.next ≡ rest)
unfolding read_record dirent_bytes le_bytes
read_record-dirent_bytes de off rest fits = (
  le_value-le_bytes 8 de.d_ino _ fits.ino_small,
  le_value-le_bytes 8 off _ fits.off_small,
  refl,
  ap (λ n. c_string ((de.d_name ++ replicate n 0) ++ rest)) padded
      ∙ c_string-name de.d_name rest (record_length de - (20 + length de.d_name)) fits.text,
  ap (λ n. drop n (dirent_bytes de off ++ rest))
        (le_value-le_bytes 2 (record_length de) _ fits.length_small
          ∙ sym (length-dirent_bytes de off).0)
      ∙ drop-length (dirent_bytes de off) rest,
)
  where
    padded :
        record_length de - (19 + length de.d_name)
        ≡ suc (record_length de - (20 + length de.d_name))
    padded = omega arith
