-- ===== src/Syscall/Tls/Layout.antt =====
-- linux-personality/oryxlinux.c: the segment descriptor of set_thread_area, read back by the layout
-- of the i386.
use oryx_hurd.Base.{
  ℕ, zero, suc, ◌+◌, ◌*◌, ◌/◌, ◌%◌, ◌^◌, ◌<◌, ◌≡◌, refl, Bool, true, false, not, bit, bit_or, leb,
  if◌then◌else◌, arith,
}
use oryx_hurd.Base.Bits.{bit_or-field}
use oryx_hurd.Host.{Descriptor}
use oryx_hurd.Syscall.Tls.{
  UserDesc, descriptor_of, access_byte, segment_type, ud_contents, flag_word,
}

-- The fields of a descriptor, from its two words.
abbrev pub base_of : Descriptor → ℕ
base_of d =
    d.low_word / 2 ^ 16 % 2 ^ 16 + d.high_word % 256 * 2 ^ 16 + d.high_word / 2 ^ 24 % 256 * 2 ^ 24

abbrev pub limit_of : Descriptor → ℕ
limit_of d = d.low_word % 2 ^ 16 + d.high_word / 2 ^ 16 % 16 * 2 ^ 16

abbrev pub access_of : Descriptor → ℕ
access_of d = d.high_word / 2 ^ 8 % 256

abbrev pub bit_value : Bool → ℕ
bit_value b = flag_word b 1

-- The high word as a sum of its fields.
abbrev high_sum : (low8 access lim4 avl big gran high8 : ℕ) → ℕ
high_sum low8 access lim4 avl big gran high8 =
    low8
    + access * 256
    + lim4 * 2 ^ 16
    + avl * 2 ^ 20
    + big * 2 ^ 22
    + gran * 2 ^ 23
    + high8 * 2 ^ 24

join_high :
    (a b c u s g d : ℕ)
    → a < 256
    → b < 256
    → c < 16
    → u < 2
    → s < 2
    → g < 2
    → bit_or
        (bit_or
          (bit_or (bit_or (bit_or (bit_or a (b * 256)) (c * 2 ^ 16)) (u * 2 ^ 20)) (s * 2 ^ 22))
          (g * 2 ^ 23))
        (d * 2 ^ 24)
      ≡ high_sum a b c u s g d
join_high a b c u s g d ha hb hc hu hs hg =
    rw
      (
        bit_or-field 8 a b (b * 256) (omega arith) (omega arith),
        bit_or-field 16 (a + b * 256) c (c * 2 ^ 16) (omega arith) (omega arith),
        bit_or-field 20 (a + b * 256 + c * 2 ^ 16) u (u * 2 ^ 20) (omega arith) (omega arith),
        bit_or-field 22 (a + b * 256 + c * 2 ^ 16 + u * 2 ^ 20) s (s * 2 ^ 22) (omega arith)
            (omega arith),
        bit_or-field 23 (a + b * 256 + c * 2 ^ 16 + u * 2 ^ 20 + s * 2 ^ 22) g (g * 2 ^ 23)
            (omega arith) (omega arith),
        bit_or-field 24 (a + b * 256 + c * 2 ^ 16 + u * 2 ^ 20 + s * 2 ^ 22 + g * 2 ^ 23) d
            (d * 2 ^ 24) (omega arith) (omega arith),
      )
      refl

-- The access byte, from the two flags and the contents that it depends on.
abbrev access_from : (read_only absent : Bool) (contents : ℕ) → ℕ
access_from read_only absent contents =
    bit_or (bit_or (bit_or (flag_word (not absent) 0x80) 0x60) 0x10) (
      let writable = flag_word (not read_only) 2 in
      if leb 2 contents
      then bit_or (bit_or 8 writable) 1
      else bit_or (bit_or (contents % 2 * 4) writable) 1)

-- 8 bits: present, privilege level 3, a segment of code or data.
abbrev pub IsAccess : (absent : Bool) → ℕ → Type 0
IsAccess absent a =
    (a < 256) × (a / 2 ^ 7 ≡ bit_value (not absent)) × (a / 2 ^ 5 % 4 ≡ 3) × (a / 2 ^ 4 % 2 ≡ 1)

access_from-IsAccess :
    (read_only absent : Bool) (contents : ℕ)
    → contents < 4
    → IsAccess absent (access_from read_only absent contents)
access_from-IsAccess true true zero h = (omega arith, refl, refl, refl)
access_from-IsAccess true true (suc zero) h = (omega arith, refl, refl, refl)
access_from-IsAccess true true (suc (suc zero)) h = (omega arith, refl, refl, refl)
access_from-IsAccess true true (suc (suc (suc zero))) h = (omega arith, refl, refl, refl)
access_from-IsAccess true false zero h = (omega arith, refl, refl, refl)
access_from-IsAccess true false (suc zero) h = (omega arith, refl, refl, refl)
access_from-IsAccess true false (suc (suc zero)) h = (omega arith, refl, refl, refl)
access_from-IsAccess true false (suc (suc (suc zero))) h = (omega arith, refl, refl, refl)
access_from-IsAccess false true zero h = (omega arith, refl, refl, refl)
access_from-IsAccess false true (suc zero) h = (omega arith, refl, refl, refl)
access_from-IsAccess false true (suc (suc zero)) h = (omega arith, refl, refl, refl)
access_from-IsAccess false true (suc (suc (suc zero))) h = (omega arith, refl, refl, refl)
access_from-IsAccess false false zero h = (omega arith, refl, refl, refl)
access_from-IsAccess false false (suc zero) h = (omega arith, refl, refl, refl)
access_from-IsAccess false false (suc (suc zero)) h = (omega arith, refl, refl, refl)
access_from-IsAccess false false (suc (suc (suc zero))) h = (omega arith, refl, refl, refl)
access_from-IsAccess r a (suc (suc (suc (suc n)))) h = absurd (omega arith)

access_byte-IsAccess : (f : ℕ) → IsAccess (bit f 5) (access_byte f)
unfolding access_byte segment_type
access_byte-IsAccess f = access_from-IsAccess (bit f 3) (bit f 5) (ud_contents f) (omega arith)

join_low : (a b : ℕ) → a < 2 ^ 16 → bit_or a (b * 2 ^ 16) ≡ a + b * 2 ^ 16
join_low a b h = bit_or-field 16 a b (b * 2 ^ 16) (omega arith) (omega arith)

flag_word-shift : (b : Bool) (w : ℕ) → flag_word b w ≡ bit_value b * w
flag_word-shift true w = omega arith
flag_word-shift false w = omega arith

bit_value-small : (b : Bool) → bit_value b < 2
bit_value-small true = omega arith
bit_value-small false = omega arith

descriptor_of-sums :
    (ud : UserDesc)
    → let d = descriptor_of ud in
      (d.low_word ≡ ud.limit % 65536 + ud.base_addr % 65536 * 2 ^ 16)
      × (d.high_word
          ≡ high_sum
              (ud.base_addr / 65536 % 256)
              (access_byte ud.flags)
              (ud.limit / 65536 % 16)
              (bit_value (bit ud.flags 6))
              (bit_value (bit ud.flags 0))
              (bit_value (bit ud.flags 4))
              (ud.base_addr / 2 ^ 24 % 256))
unfolding descriptor_of
descriptor_of-sums ud = (
  join_low (ud.limit % 65536) (ud.base_addr % 65536) (omega arith),
  rw
      (
        flag_word-shift (bit ud.flags 6) (2 ^ 20),
        flag_word-shift (bit ud.flags 0) (2 ^ 22),
        flag_word-shift (bit ud.flags 4) (2 ^ 23),
      )
      (join_high _ _ _ _ _ _ _ (omega arith) (access_byte-IsAccess ud.flags).0 (omega arith)
        (bit_value-small (bit ud.flags 6)) (bit_value-small (bit ud.flags 0))
        (bit_value-small (bit ud.flags 4))),
)

high_fields :
    (a b c u s g d : ℕ)
    → a < 256
    → b < 256
    → c < 16
    → u < 2
    → s < 2
    → g < 2
    → d < 256
    → let h = high_sum a b c u s g d in
      (h % 256 ≡ a)
      × (h / 2 ^ 8 % 256 ≡ b)
      × (h / 2 ^ 16 % 16 ≡ c)
      × (h / 2 ^ 20 % 2 ≡ u)
      × (h / 2 ^ 22 % 2 ≡ s)
      × (h / 2 ^ 23 % 2 ≡ g)
      × (h / 2 ^ 24 % 256 ≡ d)
high_fields a b c u s g d ha hb hc hu hs hg hd =
    (omega arith, omega arith, omega arith, omega arith, omega arith, omega arith, omega arith)

-- The descriptor that set_thread_area makes says what the guest asked for: its base, the low 20 bits
-- of its limit, whether it is present, at privilege level 3, and the flags of a 32-bit segment, of a
-- limit in pages and for the system's use.
pub descriptor_of_lem :
    (ud : UserDesc)
    → ud.base_addr < 2 ^ 32
    → let d = descriptor_of ud in
      (base_of d ≡ ud.base_addr)
      × (limit_of d ≡ ud.limit % 2 ^ 20)
      × IsAccess (bit ud.flags 5) (access_of d)
      × (d.high_word / 2 ^ 20 % 2 ≡ bit_value (bit ud.flags 6))
      × (d.high_word / 2 ^ 22 % 2 ≡ bit_value (bit ud.flags 0))
      × (d.high_word / 2 ^ 23 % 2 ≡ bit_value (bit ud.flags 4))
descriptor_of_lem ud small =
    let sums = descriptor_of-sums ud in
    let access = access_byte-IsAccess ud.flags in
    let fields =
      high_fields (ud.base_addr / 65536 % 256) (access_byte ud.flags) (ud.limit / 65536 % 16)
        (bit_value (bit ud.flags 6)) (bit_value (bit ud.flags 0)) (bit_value (bit ud.flags 4))
        (ud.base_addr / 2 ^ 24 % 256) (omega arith) access.0 (omega arith)
        (bit_value-small (bit ud.flags 6)) (bit_value-small (bit ud.flags 0))
        (bit_value-small (bit ud.flags 4)) (omega arith) in
    (
      rw (sums.0, sums.1, fields.0, fields.6) (omega arith),
      rw (sums.0, sums.1, fields.2) (omega arith),
      rw (sums.1, fields.1) access,
      rw (sums.1) fields.3,
      rw (sums.1) fields.4,
      rw (sums.1) fields.5,
    )
