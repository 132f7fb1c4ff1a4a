-- ===== src/Process/Exec.antt =====
-- linux-personality/oryxlinux.c: peek_vector, wipe_address_space and sys_execve.
pub mod Sound
pub mod Wipe
use oryx_hurd.Base.{
  ℕ, zero, suc, ◌+◌, ◌*◌, ◌%◌, ◌^◌, Bool, true, false, Option, none, some, List, [], ◌∷◌, ℤ, pos,
  neg, St, pure, ◌>>=◌, ◌>>◌, ◌==◌, if◌then◌else◌,
}
use oryx_hurd.Host.{Host, Regs, Outcome, ok, fail}
use oryx_hurd.Server.{Server, Proc, me, lift, set_proc, long_min}
use oryx_hurd.Memory.{peek, peek_str}
use oryx_hurd.Process.{linux_efault}
use oryx_hurd.Errno.{HostErrno, ret_err}
use oryx_hurd.Syscall.Io.{word_at, linux_enomem}
use oryx_hurd.Syscall.Files.{OpenFlags, c_string, resolve, with_path}
use oryx_hurd.Loader.{load_program}

abbrev no_regs : Regs
no_regs = record {
  eax = 0;
  ebx = 0;
  ecx = 0;
  edx = 0;
  esi = 0;
  edi = 0;
  ebp = 0;
  eip = 0;
  uesp = 0;
  other = 0;
}

-- The registers of the new image; the selectors and flags stay.
abbrev pub image_regs : (entry esp : ℕ) → Regs → Regs
image_regs entry esp st = record no_regs { eip = entry; uesp = esp; other = st.other }

-- memset, then thread_get_state, whose result is not tested
abbrev pub regs_or_zero : Option Regs → Regs
regs_or_zero none = no_regs
regs_or_zero (some st) = st

-- What a failed execve leaves of the process.
abbrev pub dead_image : Proc → Proc
dead_image p = record p { alive = false; status = 127 }

module _ {K : Type 0} (host : Host K) where
  -- The loop of peek_vector: the strings from entry `n` on, for an array of `cap` pointers. A host
  -- whose pointers have 32 bits holds less than 2 ^ 30 of them, so that many rounds are enough.
  unfoldable pub vector_loop : (fuel task addr n cap : ℕ) → St K (List (List ℕ))
  vector_loop zero task addr n cap k = ([], k)
  vector_loop (suc fuel) task addr n cap k = elim (peek host task ((addr + n * 4) % 2 ^ 32) 4 k) [
    | none ↦ ([], k)
    | some word ↦ elim (word_at word 0 == 0) [
      | true ↦ ([], k)
      | false ↦ elim (peek_str host task (word_at word 0) 4096 (host.uninit 4096 k) k) [
        | none ↦ ([], k)
        | some buf ↦
            let full = n == cap in
            let room = if full then host.malloc ((cap * 2 + 1) * 4) k else (true, k) in
            elim room.0 [
              | false ↦ ([], room.1)
              | true ↦
                  let rest =
                    vector_loop fuel task addr (suc n) (if full then cap * 2 else cap) room.1 in
                  (c_string buf ∷ rest.0, rest.1)
            ]
      ]
    ]
  ]

  -- `none` is NULL; the array at address 0 is empty.
  unfoldable pub peek_vector : (task addr : ℕ) → St K (Option (List (List ℕ)))
  peek_vector task addr k =
      let got = host.malloc (65 * 4) k in
      elim got.0 [
        | false ↦ (none, got.1)
        | true ↦ elim (addr == 0) [
          | true ↦ (some [], got.1)
          | false ↦ let r = vector_loop (2 ^ 30) task addr 0 64 got.1 in (some r.0, r.1)
        ]
      ]

  -- The name of the region's object is given back.
  abbrev pub drop_object : ℕ → St K (Unit {0})
  drop_object obj = if obj == 0 then pure tt else host.mach_port_deallocate obj

  -- One round: `rest` is the loop from the next address on.
  unfoldable pub wipe_region :
      (ℕ → St K (Unit {0})) → (task : ℕ) → Option (ℕ × ℕ × ℕ) → St K (Unit {0})
  wipe_region rest task none k = (tt, k)
  wipe_region rest task (some (at, size, obj)) k =
      let r = host.vm_deallocate task at size (drop_object obj k).1 in
      rest (if r.0 then at else (at + size) % 2 ^ 32) r.1

  -- The loop of wipe_address_space. Each round removes a mapping or steps over one, of a page at
  -- least, so as many rounds as the address space has pages are enough.
  unfoldable pub wipe_loop : (fuel task addr : ℕ) → St K (Unit {0})
  wipe_loop zero task addr k = (tt, k)
  wipe_loop (suc fuel) task addr k =
      wipe_region (λ at. wipe_loop fuel task at) task (host.vm_region task addr k) k

  unfoldable pub wipe_address_space : ℕ → St K (Unit {0})
  wipe_address_space task = wipe_loop (2 ^ 20) task 0

  -- From the result of load_program on.
  unfoldable pub exec_loaded : Option (ℕ × ℕ) → St (Server K) ℤ
  exec_loaded none s =
      (pos 0, record (set_proc s.cur dead_image s).1 { guest_done = s.cur == s.root })
  exec_loaded (some (entry, esp)) s =
      let thread = (me s).thread in
      let st = regs_or_zero (host.thread_get_state thread s.kernel) in
      (lift (host.thread_set_state thread (image_regs entry esp st)) >>= λ _. pure long_min) s

  -- Behind the last point at which the old image is kept.
  unfoldable pub exec_replace : OpenFlags → List ℕ → (argv envp : List (List ℕ)) → St (Server K) ℤ
  exec_replace o path argv envp s =
      (do
        lift (wipe_address_space (me s).task)
        image ← load_program host o path argv envp
        exec_loaded image)
        s

  unfoldable pub exec_vectors :
      OpenFlags → List ℕ → (argv envp : Option (List (List ℕ))) → St (Server K) ℤ
  exec_vectors o path none envp s = (neg linux_enomem, s)
  exec_vectors o path (some argv) none s = (neg linux_enomem, s)
  exec_vectors o path (some argv) (some envp) s = exec_replace o path argv envp s

  -- From access(hp, X_OK) on.
  unfoldable pub exec_checked :
      HostErrno → OpenFlags → List ℕ → (argvp envp : ℕ) → Outcome (Unit {0}) → St (Server K) ℤ
  exec_checked names o path argvp envp (fail e) s = (ret_err names e, s)
  exec_checked names o path argvp envp (ok _) s =
      (do
        av ← lift (peek_vector (me s).task argvp)
        ev ← lift (peek_vector (me s).task envp)
        exec_vectors o path av ev)
        s

  unfoldable pub sys_execve : HostErrno → OpenFlags → (pathp argvp envp : ℕ) → St (Server K) ℤ
  sys_execve names o pathp argvp envp = with_path host pathp (λ path s.
      let hp = resolve host s.sysroot path s.kernel in
      exec_checked names o hp argvp envp (host.access hp 1 s.kernel) s)
