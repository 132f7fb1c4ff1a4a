-- ===== src/Syscall/Tls/Entry.antt =====
-- linux-personality/oryxlinux.c: what set_thread_area gives back to the guest asks for the same
-- segment again.
use oryx_hurd.Base.{
  ℕ, ◌+◌, ◌*◌, ◌/◌, ◌%◌, ◌^◌, ◌≤◌, ◌<◌, ◌≡◌, refl, sym, ◌∙◌, ap, inl, inr, ◌⊎◌, Bool, true, false,
  some, List, ℤ, pos, neg, to_word, arith, if◌then◌else◌,
}
use oryx_hurd.Host.{Host}
use oryx_hurd.Server.{Server, me}
use oryx_hurd.Memory.{peek, poke, page_size}
use oryx_hurd.Memory.Peek.{MemLaws}
use oryx_hurd.Memory.Range.{bytes_at, poke-bytes_at}
use oryx_hurd.Process.{linux_efault}
use oryx_hurd.Syscall.Tls.{
  UserDesc, user_desc, user_desc_bytes, selector_for, descriptor_of, tls_set, sys_set_thread_area,
}

-- Every field is a 32-bit word.
pub record IsWords (ud : UserDesc) : Type 0 where
  pub entry_small : ud.entry_number < 2 ^ 32
  pub base_small : ud.base_addr < 2 ^ 32
  pub limit_small : ud.limit < 2 ^ 32
  pub flags_small : ud.flags < 2 ^ 32

join_bytes :
    (w : ℕ)
    → w < 2 ^ 32
    → w % 256 + w / 256 % 256 * 256 + w / 65536 % 256 * 65536 + w / 16777216 % 256 * 16777216 ≡ w
join_bytes w small = omega arith

-- The bytes of a structure, given to the call, ask for the selector `sel` and the descriptor of `ud`.
abbrev pub AsksAgain : UserDesc → ℤ → (tls_sel : ℤ) → List ℕ → Type 0
AsksAgain ud sel tls_sel b =
    let back = user_desc b in
    (selector_for back.entry_number tls_sel ≡ sel) × (descriptor_of back ≡ descriptor_of ud)

user_desc-user_desc_bytes : (ud : UserDesc) → IsWords ud → user_desc (user_desc_bytes ud) ≡ ud
unfolding user_desc_bytes
user_desc-user_desc_bytes ud words =
    rw
      (
        join_bytes ud.entry_number words.entry_small,
        join_bytes ud.base_addr words.base_small,
        join_bytes ud.limit words.limit_small,
        join_bytes ud.flags words.flags_small,
      )
      refl

selector_for-entry : (n : ℕ) (tls_sel : ℤ) → n < 2 ^ 28 → selector_for n tls_sel ≡ pos (n * 8 + 3)
unfolding selector_for
selector_for-entry n tls_sel small = ground arith

-- The structure with the entry of the selector `n * 8 + 3` in it asks for that selector and for the
-- same descriptor.
given_back :
    (ud : UserDesc) (n : ℕ) (tls_sel : ℤ) (b : List ℕ)
    → IsWords ud
    → n < 2 ^ 28
    → b ≡ user_desc_bytes (record ud { entry_number = to_word (pos (n * 8 + 3)) / 8 })
    → AsksAgain ud (pos (n * 8 + 3)) tls_sel b
unfolding descriptor_of
given_back ud n tls_sel b words small e =
    let given = record ud { entry_number = to_word (pos (n * 8 + 3)) / 8 } in
    let read_back : user_desc b ≡ given =
      ap user_desc e
      ∙ user_desc-user_desc_bytes given (record {
        entry_small = omega arith;
        base_small = words.base_small;
        limit_small = words.limit_small;
        flags_small = words.flags_small;
      }) in
    let entry : given.entry_number ≡ n = omega arith in
    (
      ap (λ u. selector_for u.entry_number tls_sel) read_back
          ∙ ap (λ m. selector_for m tls_sel) entry
          ∙ selector_for-entry n tls_sel small,
      ap descriptor_of read_back ∙ same,
    )
  where
    same :
        descriptor_of (record ud { entry_number = to_word (pos (n * 8 + 3)) / 8 })
        ≡ descriptor_of ud
    same = refl

-- The call has failed with EFAULT, or the process holds the selector and the bytes at `uaddr`
-- ask for it again, whatever the process that asks holds.
abbrev pub GivenBack :
    {K : Type 0}
    → (K → ℕ → ℕ → ℕ)
    → (uaddr : ℕ) → UserDesc
    → (sel tls_sel : ℤ) → Server K
    → ℤ × Server K
    → Type 0
GivenBack byte uaddr ud sel tls_sel s r =
    ((me r.1).tls_sel ≡ sel)
    × ((r.0 ≡ neg linux_efault)
        ⊎ ((r.0 ≡ pos 0)
            × AsksAgain ud sel tls_sel (bytes_at byte r.1.kernel (me s).task uaddr 16)))

module _ {K : Type 0} {host : Host K} {byte : K → ℕ → ℕ → ℕ} (laws : MemLaws host byte) where
  tls_set-GivenBack :
      (uaddr n : ℕ) (ud : UserDesc) (tls_sel : ℤ) (s : Server K)
      → uaddr + 16 + page_size ≤ 2 ^ 32
      → IsWords ud
      → n < 2 ^ 28
      → GivenBack byte uaddr ud
          (pos (n * 8 + 3))
          tls_sel
          s
          (tls_set host uaddr ud (some (pos (n * 8 + 3))) s)
  unfolding tls_set user_desc_bytes
  tls_set-GivenBack uaddr n ud tls_sel s room words small = (ground arith, by_written written refl)
    where
      bytes : List ℕ
      bytes = user_desc_bytes (record ud { entry_number = to_word (pos (n * 8 + 3)) / 8 })

      written : Bool × K
      written = poke host (me s).task uaddr bytes s.kernel

      by_written :
          (w : Bool × K)
          → written ≡ w
          → ((if w.0 then pos 0 else neg linux_efault) ≡ neg linux_efault)
            ⊎ (((if w.0 then pos 0 else neg linux_efault) ≡ pos 0)
                × AsksAgain ud (pos (n * 8 + 3)) tls_sel (bytes_at byte w.1 (me s).task uaddr 16))
      by_written (false, k) e = inl refl
      by_written (true, k) e =
          let stored =
            poke-bytes_at laws (me s).task uaddr bytes s.kernel room (omega arith)
              (ap (λ w. w.0) e) in
          inr (
            refl,
            given_back ud n tls_sel _ words small
                (ap (λ w. bytes_at byte w.1 (me s).task uaddr 16) (sym e) ∙ stored),
          )

  -- A set_thread_area whose structure can be read, below the last page, and for which the kernel
  -- gives the selector `n * 8 + 3`, leaves the process with that selector; it fails with EFAULT, or
  -- returns 0, and then the structure in the guest's memory, given to the call again by a process
  -- that holds any selector, asks for that selector and for the same descriptor.
  pub entry_round_trip :
      (uaddr n : ℕ) (bytes : List ℕ) (tls_sel : ℤ) (s : Server K)
      → uaddr + 16 + page_size ≤ 2 ^ 32
      → peek host (me s).task uaddr 16 s.kernel ≡ some bytes
      → IsWords (user_desc bytes)
      → n < 2 ^ 28
      → (host.i386_set_gdt
          (me s).thread
          (selector_for (user_desc bytes).entry_number (me s).tls_sel)
          (descriptor_of (user_desc bytes))
          s.kernel).0
        ≡ some (pos (n * 8 + 3))
      → GivenBack byte uaddr
          (user_desc bytes)
          (pos (n * 8 + 3))
          tls_sel
          s
          (sys_set_thread_area host uaddr s)
  unfolding sys_set_thread_area peek selector_for descriptor_of
  entry_round_trip uaddr n bytes tls_sel s room readable words small gave =
      let k =
        (host.i386_set_gdt (me s).thread
          (selector_for (user_desc bytes).entry_number (me s).tls_sel)
          (descriptor_of (user_desc bytes)) s.kernel).1 in
      rw (readable, gave)
        (tls_set-GivenBack uaddr n (user_desc bytes) tls_sel (record s { kernel = k }) room words
          small)
