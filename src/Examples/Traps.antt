-- ===== src/Examples/Traps.antt =====
-- The exception handler for a child that calls fork while its shell waits for it, an execve of
-- the child that fails too late, and the message of a wait4 that finds a child that runs.
use oryx_hurd.Base.{
  ◌≡◌, refl, false, none, some, negsuc, [], ◌∷◌, arith, ◌==◌, if◌then◌else◌, first_index-holds, ℕ,
}
use oryx_hurd.Server.{Server, max_proc, me, lift}
use oryx_hurd.Process.{proc_by_task}
use oryx_hurd.Process.History.{IsRunning}
use oryx_hurd.Process.Quiet.{Quiet-IsSound}
use oryx_hurd.Process.Exec.{exec_replace, wipe_address_space, wipe_loop, wipe_region}
use oryx_hurd.Loader.{load_program, with_program, load_one, read_file}
use oryx_hurd.Dispatch.Late.{StillParked, Woken, exec_delays_wakeup}
use oryx_hurd.Dispatch.{handle_trap, catch_exception_raise}
use oryx_hurd.Dispatch.Sound.{Handled, catch_exception_raise-Handled}
use oryx_hurd.Dispatch.Served.{Served}
use oryx_hurd.Examples.Toy.{Toy, toy, toy_flags, zero_regs}
use oryx_hurd.Examples.Errnos.{names}
use oryx_hurd.Examples.Processes.{machine, machine-IsSound}

-- int $0x80 at address 0, with 2 in eax.
abbrev calling : Server Toy
calling = record machine {
  kernel = record (machine.kernel) {
    mem = λ t x. if x == 0 then 0xcd else 0x80;
    regs = λ t. record zero_regs { eax = 2 };
  };
}

calling-IsRunning : (p : ℕ) → proc_by_task 9 calling ≡ some p → IsRunning p calling
unfolding proc_by_task
calling-IsRunning p e = (101, 100, ground (arith, first_index-holds _ max_proc p e))

catch_exception_raise-Handled_example :
    Handled toy 10 calling.kernel
      (catch_exception_raise toy names toy_flags (λ s. s) 10 9 2 calling).1
catch_exception_raise-Handled_example =
    catch_exception_raise-Handled toy names toy_flags (λ s. s) (λ s h. h) 10 9 2 calling
      calling-IsRunning (Quiet-IsSound machine calling (λ j. refl) machine-IsSound)

-- The file cannot be opened.
not_loaded :
    (load_program toy toy_flags
      (97 ∷ [])
      []
      []
      (lift (wipe_address_space toy (me machine).task) machine).1).0
    ≡ none
unfolding load_program with_program load_one read_file wipe_address_space wipe_loop wipe_region
not_loaded = refl

exec_delays_wakeup_example :
    let t = (exec_replace toy toy_flags (97 ∷ []) [] [] machine).1 in
    StillParked 1 0 101 100 0 (negsuc 0) t
    × Woken 1 0 100 0 (handle_trap toy names toy_flags (λ s. s) 10 1 zero_regs t).1
exec_delays_wakeup_example =
    exec_delays_wakeup toy 0 101 100 0 (negsuc 0) names toy_flags (λ s. s) (97 ∷ []) [] [] 10 1
      zero_regs machine machine-IsSound refl refl refl (omega arith) (omega arith) not_loaded
      (omega arith)

-- The shell is not parked yet, and calls waitpid.
abbrev waiting : Server Toy
waiting = record machine {
  procs = λ i. record (machine.procs i) { waiting = false };
  kernel = record (calling.kernel) { regs = λ t. record zero_regs { eax = 7 } };
}
