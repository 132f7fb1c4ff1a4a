-- ===== src/Examples/Server.antt =====
-- A run of the emulator: main starts a static program from a disk with one file, the program calls
-- exit, and the emulator ends with its status.
use oryx_hurd.Base.{
  ℕ, zero, suc, sym, ap, ◌∙◌, Option, inl, inr, true, false, first_index-holds, ltb, ◌&&◌, ◌≡◌,
  refl, none, some, pos, List, [], ◌∷◌, arith, first_index, first_from, ◌==◌, if◌then◌else◌,
}
use oryx_hurd.Host.{Host, HostStat, Regs, ok}
use oryx_hurd.Server.{Server, max_proc}
use oryx_hurd.Memory.{peek, peek_slice, poke, poke_alloc, poke_pages}
use oryx_hurd.Fd.{fd_init}
use oryx_hurd.Process.{proc_new, proc_take, proc_by_task}
use oryx_hurd.Loader.{
  load_program, with_program, load_interp, start_program, load_one, read_file, read_whole,
  load_image, load_segments, load_segment, load_header, load_after, loaded_if,
}
use oryx_hurd.Loader.Elf.{loaded_of, is_i386_elf, phdr_addr}
use oryx_hurd.Stack.{
  build_stack, fill_stack, write_image, stack_image, push_strings, push_bytes, random_bytes,
  block_bytes,
}
use oryx_hurd.Start.{
  Start, no_options, initial, main_start, start_guest, start_proc, start_task, start_image,
  start_thread, start_regs, or_exit, choose_sysroot, read_options, serves,
}
use oryx_hurd.Start.Sound.{Started, Sole, main_start-Sole}
use oryx_hurd.Process.History.{IsRunning, IsSound}
use oryx_hurd.Process.Exec.Sound.{ImageLost}
use oryx_hurd.Dispatch.Number.{call_of, find_call, execve, unimplemented}
use oryx_hurd.Serve.{Message, raised, main, serve, finish}
use oryx_hurd.Serve.Exit.{Leaves, serve-exits}
use oryx_hurd.Serve.Finish.{living, is_living, terminate_each, count, finish_lem}
use oryx_hurd.Serve.Sound.{Lawful, traps, ends, served, main-IsSound}
use oryx_hurd.Examples.Errnos.{names}
use oryx_hurd.Examples.Toy.{Toy, toy, toy_flags, zero_regs}
use oryx_hurd.Examples.Files.{elf_file}
use oryx_hurd.Examples.Processes.{machine}

abbrev file_stat : HostStat
file_stat = record {
  st_dev = 1;
  st_ino = 1;
  st_mode = 0o100755;
  st_nlink = 1;
  st_uid = 0;
  st_gid = 0;
  st_rdev = 0;
  st_size = 84;
  st_blksize = 4096;
  st_blocks = 1;
  st_atime = 0;
  st_mtime = 0;
  st_ctime = 0;
}

abbrev disk : Host Toy
disk = record toy { fstat = λ fd k. ok file_stat; read = λ fd n k. (ok elf_file, k) }

abbrev started : Start × Server Toy
started = main_start disk toy_flags ((47 ∷ 97 ∷ []) ∷ []) [] (initial machine.kernel)

starts : (started.0 ≡ serves) × ((started.1.kernel.regs 21).eax ≡ 0)
unfolding main_start start_guest start_proc start_task start_image start_thread start_regs or_exit
    choose_sysroot read_options load_program with_program load_interp start_program load_one
    read_file read_whole load_image load_segments load_segment load_header load_after loaded_if
    loaded_of is_i386_elf phdr_addr first_index first_from build_stack fill_stack write_image
    stack_image push_strings push_bytes random_bytes block_bytes poke poke_alloc poke_pages proc_new
    proc_take fd_init
starts = (refl, refl)

main_start-Sole_example : Started (read_options no_options ((47 ∷ 97 ∷ []) ∷ [])).1 started
main_start-Sole_example = main_start-Sole disk toy_flags ((47 ∷ 97 ∷ []) ∷ []) [] machine.kernel

-- What main_start-Sole says of a start that gets to the workers.
started-Sole : Sole started.1
started-Sole = elim main_start-Sole_example [
  | inl (e, none_left) ↦ absurd (ground (arith, starts.0))
  | inr (inl e) ↦ absurd (ground (arith, starts.0))
  | inr (inr (e, sound, sole)) ↦ sole
]

Sole-IsRunning : (s : Server Toy) (p : ℕ) → Sole s → (s.procs p).used ≡ true → IsRunning p s
Sole-IsRunning s zero sole up = (100, 0, sole.2)
Sole-IsRunning s (suc p) sole up = absurd (ground (arith, sole.3 (suc p)))

first_runs : (p : ℕ) → proc_by_task 20 started.1 ≡ some p → IsRunning p started.1
unfolding proc_by_task
first_runs p e =
    Sole-IsRunning started.1 p started-Sole (ground (arith, first_index-holds _ max_proc p e))

unfoldable eax_of : Option Regs → ℕ
eax_of none = 0
eax_of (some st) = st.eax

zero_call : call_of 0 ≡ unimplemented
unfolding call_of find_call
zero_call = refl

-- A fault of the program: it ends with status 139.
abbrev fault : List Message
fault = raised 55 21 20 1 ∷ []

fault-Lawful : Lawful disk names toy_flags (λ s. s) fault started.1
unfolding eax_of
fault-Lawful = traps 55 21 20 1 (first_runs, not_execve) ends
  where
    not_execve :
        (st : Regs)
        → some (started.1.kernel.regs 21) ≡ some st
        → call_of st.eax ≡ execve
        → ¬ ImageLost (served disk names toy_flags (λ s. s) 55 21 20 1 started.1)
    not_execve st e is_execve gone =
        let zero_eax : st.eax ≡ 0 = sym (ap eax_of e) ∙ starts.1 in
        let call : unimplemented ≡ execve = sym zero_call ∙ ap call_of (sym zero_eax) ∙ is_execve in
        absurd (ground arith)

main-IsSound_example :
    IsSound
      (main disk names toy_flags (λ s. s) ((47 ∷ 97 ∷ []) ∷ []) [] fault (initial machine.kernel)).1
main-IsSound_example =
    main-IsSound disk names toy_flags (λ s. s) (λ s h. h) ((47 ∷ 97 ∷ []) ∷ []) [] fault
      machine.kernel starts.0 fault-Lawful

-- A shell without a sleeping child calls exit(259).
abbrev leaving : Server Toy
leaving = record machine {
  procs = λ i. record (machine.procs i) { waiting = false };
  kernel = record (machine.kernel) {
    mem = λ t x. if x == 0 then 0xcd else 0x80;
    regs = λ t. record zero_regs { eax = 1; ebx = 259 };
  };
}

leaving-Leaves : Leaves toy 8 7 (record zero_regs { eax = 1; ebx = 259 }) leaving
unfolding proc_by_task first_index first_from call_of find_call peek peek_slice
leaving-Leaves = record {
  of_root = refl;
  runs = (100, 0, refl);
  regs = refl;
  call = refl;
  insn = refl;
}

serve-exits_example :
    (serve toy names toy_flags (λ s. s) (raised 55 8 7 2 ∷ fault) leaving).0 ≡ some 3
serve-exits_example =
    serve-exits toy names toy_flags (λ s. s) 55 8 7 (record zero_regs { eax = 1; ebx = 259 }) fault
      leaving leaving-Leaves

finish_lem_example :
    let r = finish toy leaving in
    (r.1.kernel ≡ terminate_each toy leaving.procs (living leaving.procs max_proc 0) leaving.kernel)
    × ((j : ℕ)
        → count j (living leaving.procs max_proc 0)
          ≡ (if ltb j max_proc && is_living (leaving.procs j) then 1 else 0))
    × ((n : ℕ) → leaving.guest_status ≡ pos n → r.0 ≡ n)
finish_lem_example = finish_lem toy leaving
