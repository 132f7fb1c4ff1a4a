-- ===== src/Syscall/Mem.antt =====
-- linux-personality/oryxlinux.c: sys_brk, do_mmap, munmap and mprotect.
pub mod Results
use oryx_hurd.Base.{
  ℕ, ◌+◌, ◌-◌, Bool, true, false, not, ◌&&◌, ◌||◌, Option, none, some, List, [], ◌∷◌, ℤ, pos, neg,
  is_neg, to_int32, bit, St, pure, ◌>>=◌, ◌>>◌, ltb, ◌==◌, if◌then◌else◌,
}
use oryx_hurd.Host.{Host, Outcome, ok, fail, KernReturn, kern_success, kern_no_space, kern_failure}
use oryx_hurd.Server.{Server, Proc, me, lift, set_proc}
use oryx_hurd.Memory.{page_down, page_up, poke}
use oryx_hurd.Process.{linux_efault}
use oryx_hurd.Errno.{linux_einval}
use oryx_hurd.Syscall.Io.{linux_enomem}

abbrev pub set_brk : ℕ → Proc → Proc
set_brk want p = record p { brk_hi = want }

abbrev pub granted : KernReturn → Bool
granted kern_success = true
granted kern_no_space = false
granted kern_failure = false

-- VM_PROT_READ, VM_PROT_WRITE and VM_PROT_EXECUTE for the bits 0 to 2.
abbrev pub vm_prot : ℕ → ℕ
vm_prot prot =
    (if bit prot 0 then 1 else 0) + (if bit prot 1 then 2 else 0) + (if bit prot 2 then 4 else 0)

module _ {K : Type 0} (host : Host K) where
  -- Map the pages from `old` to `new` for the heap; the result says whether the kernel did.
  unfoldable pub grow_heap : (task old new : ℕ) → St K Bool
  grow_heap task old new = do
    r ← host.vm_allocate task old (new - old) false
    if granted r.0 then (host.vm_protect task old (new - old) 3 >> pure true) else pure false

  -- The pages between the old and the new break; `false` is a refusal by the kernel.
  unfoldable pub move_heap : (task old new : ℕ) → St K Bool
  move_heap task old new =
      if ltb old new
      then grow_heap task old new
      else if ltb new old
      then (host.vm_deallocate task new (old - new) >> pure true)
      else pure true

  unfoldable pub sys_brk : ℕ → St (Server K) ℤ
  sys_brk want s =
      if (want == 0) || ltb want (me s).brk_lo
      then (to_int32 (me s).brk_hi, s)
      else (let r = lift (move_heap (me s).task (page_up (me s).brk_hi) (page_up want)) s in
          if r.0
          then (to_int32 want, (set_proc s.cur (set_brk want) r.1).1)
          else (to_int32 (me s).brk_hi, r.1))

  -- The address that do_mmap takes, `none` if the kernel gives it none.
  unfoldable pub take_fixed : (task addr span : ℕ) → St K (Option ℕ)
  take_fixed task addr span = do
    let a = page_down addr
    host.vm_deallocate task a span
    r ← host.vm_allocate task a span false
    pure (if granted r.0 && (r.1 == a) then some a else none)

  unfoldable pub take_anywhere : (task span : ℕ) → St K (Option ℕ)
  take_anywhere task span = do
    r ← host.vm_allocate task 0 span true
    pure (if granted r.0 then some r.1 else none)

  unfoldable pub take_hint : (task addr span : ℕ) → St K (Option ℕ)
  take_hint task addr span = if page_down addr == 0 then take_anywhere task span else (do
    r ← host.vm_allocate task (page_down addr) span false
    if granted r.0 && not (r.1 == 0) then pure (some r.1) else take_anywhere task span)

  -- The file's bytes, as far as the host reads any.
  unfoldable pub fill : (task a : ℕ) → Outcome (List ℕ) → St K Bool
  fill task a (fail e) = pure true
  fill task a (ok []) = pure true
  fill task a (ok (b ∷ bytes)) = poke host task a (b ∷ bytes)

  -- From the mapped address on: contents and protection.
  unfoldable pub map_contents : (task a len prot flags : ℕ) → ℤ → (off : ℕ) → St K ℤ
  map_contents task a len prot flags fd off =
      let span = page_up len in
      let protect =
        (host.vm_protect task a span (if vm_prot prot == 0 then 1 else vm_prot prot) >>= λ _.
        pure (to_int32 a)) in
      if bit flags 5 || is_neg fd then protect else do
        got_tmp ← host.malloc span
        if got_tmp
            then (do
              bytes ← host.pread fd len off
              written ← fill task a bytes
              if written then protect else pure (neg linux_efault))
            else pure (neg linux_enomem)

  unfoldable pub map_at : (task len prot flags : ℕ) → ℤ → (off : ℕ) → Option ℕ → St K ℤ
  map_at task len prot flags fd off none = pure (neg linux_enomem)
  map_at task len prot flags fd off (some a) = map_contents task a len prot flags fd off

  unfoldable pub do_mmap : (addr len prot flags : ℕ) → ℤ → (off : ℕ) → St (Server K) ℤ
  do_mmap addr len prot flags fd off s =
      let task = (me s).task in
      if len == 0
      then (neg linux_einval, s)
      else (do
        a ← lift (
            if bit flags 4
            then take_fixed task addr (page_up len)
            else take_hint task addr (page_up len))
        lift (map_at task len prot flags fd off a))
          s

  -- case 91 and case 125
  unfoldable pub munmap : (addr len : ℕ) → St (Server K) ℤ
  munmap addr len s =
      (lift (host.vm_deallocate (me s).task (page_down addr) (page_up len)) >>= λ _. pure (pos 0)) s

  unfoldable pub mprotect : (addr len prot : ℕ) → St (Server K) ℤ
  mprotect addr len prot s =
      (lift (host.vm_protect (me s).task (page_down addr) (page_up len) (vm_prot prot)) >>= λ _.
      pure (pos 0))
        s
