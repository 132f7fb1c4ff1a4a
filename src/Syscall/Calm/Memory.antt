-- ===== src/Syscall/Calm/Memory.antt =====
-- The calls on the address space, on clocks, devices and thread-local storage,
-- linux-personality/oryxlinux.c, leave the life of every process as it was.
use oryx_hurd.Base.{
  ℕ, refl, ◌∙◌, Bool, true, false, ◌||◌, Option, none, some, List, ℤ, neg, to_int32, pure, ◌>>=◌,
  ◌==◌, if◌then◌else◌, ltb, arith, max,
}
use oryx_hurd.Host.{Host, Outcome, ok, fail}
use oryx_hurd.Server.{Server, me, lift}
use oryx_hurd.Errno.{HostErrno}
use oryx_hurd.Memory.{peek, page_up}
use oryx_hurd.Process.{linux_efault}
use oryx_hurd.Process.Quiet.{Quiet, pick-Quiet, option-Quiet}
use oryx_hurd.Syscall.Io.{linux_enomem}
use oryx_hurd.Syscall.Mem.{sys_brk, move_heap, do_mmap}
use oryx_hurd.Syscall.Clock.{
  give, give_if, sys_time, sys_gettimeofday, sys_clock_gettime, sys_clock_gettime64, sys_getrandom,
  winsize, sys_ioctl, sys_ugetrlimit, sys_uname, chance,
}
use oryx_hurd.Syscall.Tls.{
  UserDesc, user_desc, selector_for, descriptor_of, sys_set_thread_area, tls_set,
}

module _ {K : Type 0} (host : Host K) where
  pub sys_brk-Quiet : (want : ℕ) (s : Server K) → Quiet s (sys_brk host want s).1
  unfolding sys_brk
  sys_brk-Quiet want s =
      let r = lift (move_heap host (me s).task (page_up (me s).brk_hi) (page_up want)) s in
      pick-Quiet s ((want == 0) || ltb want (me s).brk_lo) _ _ (λ j. refl)
        (pick-Quiet s r.0 _ _ (λ j. ground arith) (λ j. refl))

  pub do_mmap-Quiet :
      (addr len prot flags : ℕ) (fd : ℤ) (off : ℕ) (s : Server K)
      → Quiet s (do_mmap host addr len prot flags fd off s).1
  unfolding do_mmap
  do_mmap-Quiet addr len prot flags fd off s = pick-Quiet s (len == 0) _ _ (λ j. refl) (λ j. refl)

  give-Quiet :
      (addr : ℕ) (bytes : List ℕ) (r : ℤ) (s : Server K) → Quiet s (give host addr bytes r s).1
  unfolding give
  give-Quiet addr bytes r s j = refl

  give_if-Quiet :
      (addr : ℕ) (bytes : List ℕ) (r : ℤ) (s : Server K) → Quiet s (give_if host addr bytes r s).1
  unfolding give_if
  give_if-Quiet addr bytes r s =
      pick-Quiet s (addr == 0) _ _ (λ j. refl) (give-Quiet addr bytes r s)

  pub sys_uname-Quiet : (buf : ℕ) (s : Server K) → Quiet s (sys_uname host buf s).1
  unfolding sys_uname
  sys_uname-Quiet buf s = give-Quiet buf _ _ s

  pub sys_time-Quiet : (addr : ℕ) (s : Server K) → Quiet s (sys_time host addr s).1
  unfolding sys_time
  sys_time-Quiet addr s = give_if-Quiet addr _ _ s

  pub sys_gettimeofday-Quiet : (addr : ℕ) (s : Server K) → Quiet s (sys_gettimeofday host addr s).1
  unfolding sys_gettimeofday
  sys_gettimeofday-Quiet addr s = give_if-Quiet addr _ _ s

  pub sys_clock_gettime-Quiet :
      (addr : ℕ) (s : Server K) → Quiet s (sys_clock_gettime host addr s).1
  unfolding sys_clock_gettime
  sys_clock_gettime-Quiet addr s = give_if-Quiet addr _ _ s

  pub sys_clock_gettime64-Quiet :
      (addr : ℕ) (s : Server K) → Quiet s (sys_clock_gettime64 host addr s).1
  unfolding sys_clock_gettime64
  sys_clock_gettime64-Quiet addr s = give_if-Quiet addr _ _ s

  pub sys_ugetrlimit-Quiet : (addr : ℕ) (s : Server K) → Quiet s (sys_ugetrlimit host addr s).1
  unfolding sys_ugetrlimit
  sys_ugetrlimit-Quiet addr s = give_if-Quiet addr _ _ s

  pub sys_getrandom-Quiet :
      (addr len : ℕ) (s : Server K) → Quiet s (sys_getrandom host addr len s).1
  unfolding sys_getrandom
  sys_getrandom-Quiet addr len s =
      let got = lift (host.malloc (max len 1)) s in
      let r = lift (chance host len) got.1 in branch got.0 got.1 (λ j. refl)
    where
      branch :
          (b : Bool) (t : Server K)
          → Quiet s t
          → Quiet s
              ((if b
                  then (do bytes ← lift (chance host len); give host addr bytes (to_int32 len))
                  else pure (neg linux_enomem))
                t).1
      branch true t quiet j = give-Quiet addr _ _ (lift (chance host len) t).1 j ∙ quiet j
      branch false t quiet j = quiet j

  winsize-Quiet :
      (names : HostErrno) (addr : ℕ) (r : Outcome (ℕ × ℕ × ℕ × ℕ)) (s : Server K)
      → Quiet s (winsize host names addr r s).1
  unfolding winsize
  winsize-Quiet names addr (fail e) s = λ j. refl
  winsize-Quiet names addr (ok (row, col, x, y)) s = give-Quiet addr _ _ s

  pub sys_ioctl-Quiet :
      (names : HostErrno) (gfd request addr : ℕ) (s : Server K)
      → Quiet s (sys_ioctl host names gfd request addr s).1
  unfolding sys_ioctl
  sys_ioctl-Quiet names gfd request addr s =
      pick-Quiet s (request == 0x5413) _ _ (winsize-Quiet names addr _ s) (λ j. refl)

  tls_set-Quiet :
      (uaddr : ℕ) (ud : UserDesc) (r : Option ℤ) (s : Server K)
      → Quiet s (tls_set host uaddr ud r s).1
  unfolding tls_set
  tls_set-Quiet uaddr ud none s j = refl
  tls_set-Quiet uaddr ud (some sel) s j = ground arith

  pub sys_set_thread_area-Quiet :
      (uaddr : ℕ) (s : Server K) → Quiet s (sys_set_thread_area host uaddr s).1
  unfolding sys_set_thread_area
  sys_set_thread_area-Quiet uaddr s =
      option-Quiet s (peek host (me s).task uaddr 16 s.kernel) (neg linux_efault, s)
        (λ bytes.
          let ud = user_desc bytes in
          let r =
            lift
              (host.i386_set_gdt (me s).thread (selector_for ud.entry_number (me s).tls_sel)
                (descriptor_of ud))
              s in
          tls_set host uaddr ud r.0 r.1)
        (λ j. refl)
        (λ bytes.
          let ud = user_desc bytes in
          let r =
            lift
              (host.i386_set_gdt (me s).thread (selector_for ud.entry_number (me s).tls_sel)
                (descriptor_of ud))
              s in
          tls_set-Quiet uaddr ud r.0 r.1)
