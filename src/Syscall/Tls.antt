-- ===== src/Syscall/Tls.antt =====
-- linux-personality/oryxlinux.c: sys_set_thread_area. Words have 32 bits.
pub mod Layout
pub mod Entry
use oryx_hurd.Base.{
  ℕ, ◌+◌, ◌-◌, ◌*◌, ◌/◌, ◌%◌, ◌^◌, Bool, true, false, Option, none, some, List, ◌++◌, ℤ, pos,
  negsuc, neg, ◌>>◌, is_neg, to_int32, to_word, bit, bit_or, St, pure, ◌>>=◌, ◌==◌, leb, not,
  if◌then◌else◌,
}
use oryx_hurd.Host.{Host, Descriptor}
use oryx_hurd.Server.{Server, Proc, me, lift, set_proc}
use oryx_hurd.Memory.{peek, poke}
use oryx_hurd.Process.{word_bytes, linux_efault}
use oryx_hurd.Syscall.Io.{word_at}
use oryx_hurd.Syscall.Stat.{linux_enosys}

-- struct linux_user_desc
pub record UserDesc : Type 0 where
  pub entry_number : ℕ
  pub base_addr : ℕ
  pub limit : ℕ
  pub flags : ℕ

abbrev pub user_desc : List ℕ → UserDesc
user_desc b = record {
  entry_number = word_at b 0;
  base_addr = word_at b 4;
  limit = word_at b 8;
  flags = word_at b 12;
}

unfoldable pub user_desc_bytes : UserDesc → List ℕ
user_desc_bytes ud =
    word_bytes ud.entry_number
    ++ (word_bytes ud.base_addr ++ (word_bytes ud.limit ++ word_bytes ud.flags))

-- UD_CONTENTS, the other UD_ macros are single bits
abbrev pub ud_contents : ℕ → ℕ
ud_contents f = f / 2 % 4

abbrev pub flag_word : Bool → ℕ → ℕ
flag_word true w = w
flag_word false w = 0

-- The segment type of the access byte.
unfoldable pub segment_type : ℕ → ℕ
segment_type f =
    let writable = flag_word (not (bit f 3)) 2 in
    if leb 2 (ud_contents f)
    then bit_or (bit_or 8 writable) 1
    else bit_or (bit_or (ud_contents f % 2 * 4) writable) 1

unfoldable pub access_byte : ℕ → ℕ
access_byte f = bit_or (bit_or (bit_or (flag_word (not (bit f 5)) 0x80) 0x60) 0x10) (segment_type f)

-- The fields of both words lie apart, but the source joins them with |.
unfoldable pub descriptor_of : UserDesc → Descriptor
descriptor_of ud =
    let f = ud.flags in
    record {
      low_word = bit_or (ud.limit % 65536) (ud.base_addr % 65536 * 2 ^ 16);
      high_word =
          bit_or
            (bit_or
              (bit_or
                (bit_or
                  (bit_or (bit_or (ud.base_addr / 65536 % 256) (access_byte f * 256))
                    (ud.limit / 65536 % 16 * 2 ^ 16))
                  (flag_word (bit f 6) (2 ^ 20)))
                (flag_word (bit f 0) (2 ^ 22)))
              (flag_word (bit f 4) (2 ^ 23)))
            (ud.base_addr / 2 ^ 24 % 256 * 2 ^ 24);
    }

-- The selector that the kernel is asked for: the caller's, ours, or -1 for a new slot.
unfoldable pub selector_for : (entry_number : ℕ) → (tls_sel : ℤ) → ℤ
selector_for entry_number tls_sel =
    if not (entry_number == 2 ^ 32 - 1)
    then to_int32 (entry_number * 8 % 2 ^ 32 + 3)
    else if is_neg tls_sel
    then negsuc 0
    else tls_sel

abbrev pub set_tls : ℤ → Proc → Proc
set_tls sel p = record p { tls_sel = sel }

module _ {K : Type 0} (host : Host K) where
  -- From the result of i386_set_gdt on: the entry number goes back to the guest.
  unfoldable pub tls_set : (uaddr : ℕ) → UserDesc → Option ℤ → St (Server K) ℤ
  tls_set uaddr ud none s = (neg linux_enosys, s)
  tls_set uaddr ud (some sel) s =
      (do
        set_proc s.cur (set_tls sel)
        written ← lift (
            poke host (me s).task uaddr
              (user_desc_bytes (record ud { entry_number = to_word sel / 8 })))
        pure (if written then pos 0 else neg linux_efault))
        s

  unfoldable pub sys_set_thread_area : ℕ → St (Server K) ℤ
  sys_set_thread_area uaddr s = elim (peek host (me s).task uaddr 16 s.kernel) [
    | none ↦ (neg linux_efault, s)
    | some bytes ↦
        let ud = user_desc bytes in
        (do
          r ← lift (
              host.i386_set_gdt (me s).thread (selector_for ud.entry_number (me s).tls_sel)
                (descriptor_of ud))
          tls_set uaddr ud r)
          s
  ]
