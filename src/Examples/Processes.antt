-- ===== src/Examples/Processes.antt =====
-- The theorems on processes and descriptors for a shell with pid 100 and its child, pid 101.
use oryx_hurd.Base.{
  ℕ, ◌<◌, ◌≡◌, ◌≢◌, refl, ◌⊎◌, true, false, none, [], pos, negsuc, update, ◌==◌, if◌then◌else◌,
  arith, first_index,
}
use oryx_hurd.Server.{Server, Proc, max_fd}
use oryx_hurd.Fd.{fd_fork, fd_closeall, gfd_alloc}
use oryx_hurd.Fd.Alloc.{Placed, Full, gfd_alloc_lem}
use oryx_hurd.Fd.Close.{held, close_each, fd_closeall_lem}
use oryx_hurd.Fd.Isolation.{fork_isolates}
use oryx_hurd.Process.{blank, proc_new, proc_take}
use oryx_hurd.Process.View.{table}
use oryx_hurd.Process.Tidy.{IsTidy}
use oryx_hurd.Process.Invariant.{Inv}
use oryx_hurd.Process.History.{turn, IsRunning, IsSound, start, forks, exits, Ran-IsSound}
use oryx_hurd.Process.Fork.{
  sys_fork, fork_into, fork_slot, fork_task, prepare_child, start_child, fork_thread,
}
use oryx_hurd.Process.Fork.Steps.{NotForked, Forked, sys_fork_lem}
use oryx_hurd.Process.Pids.{by_pid}
use oryx_hurd.Process.Pids.History.{Steps, Ran-Steps}
use oryx_hurd.Process.Exit.{proc_exited}
use oryx_hurd.Process.Exit.Steps.{Zombie, Released, proc_exited_lem, proc_exited-root}
use oryx_hurd.Examples.Toy.{Toy, toy, toy-FdLaws, zero_regs}

abbrev pub no_process : Proc
no_process = record (blank 0) { used = false; alive = false }

-- The shell waits for any child.
abbrev pub shell : Proc
shell = record (blank 100) { waiting = true; wait_for = negsuc 0; task = 7; thread = 8 }

abbrev pub child : Proc
child = record (blank 101) { ppid = 100; task = 9; thread = 10 }

abbrev pub machine : Server Toy
machine = record {
  procs = update (update (λ _. no_process) 0 shell) 1 child;
  root = 0;
  next_pid = 102;
  guest_status = negsuc 0;
  guest_done = false;
  syscall_count = 0;
  sysroot = none;
  dircache = λ _. record { fd = pos 0; dir = none };
  cur = 1;
  cur_reply = 0;
  defer_reply = false;
  kernel = record {
    mem = λ t x. 0;
    regs = λ t. zero_regs;
    opened = λ h. if h == 0 then true else false;
    next = 20;
    replies = [];
  };
}

pub machine-IsTidy : IsTidy machine
machine-IsTidy = record { waits = λ j u v. ground arith; kept = λ j u. ground arith }

pub machine-Inv : Inv (table machine)
machine-Inv = record {
  outside = λ i o. ground arith;
  fresh = λ i p e. ground arith;
  younger = λ i p e. ground arith;
  distinct = λ i j p e f. ground arith;
  none_lost = λ i j. ground arith;
}

sys_fork_lem_example :
    let r = sys_fork toy zero_regs machine in
    NotForked toy machine r ⊎ ((c : ℕ) × (r.0 ≡ pos 102) × Forked toy machine r.1 c)
sys_fork_lem_example = sys_fork_lem toy zero_regs machine refl

proc_exited_lem_example :
    let w = (proc_exited toy 1 3 machine).1 in
    Zombie (table machine) 1 101 100 3 (table w) ⊎ Released (table machine) 1 101 100 (table w)
proc_exited_lem_example = proc_exited_lem toy 1 3 machine 101 100 refl machine-IsTidy (omega arith)

-- The same with the shell running and the child dead.
abbrev pub after_exit : Server Toy
after_exit = record machine {
  procs =
      update (update (λ _. no_process) 0 (record shell { waiting = false })) 1
        (record child { alive = false; status = 3 });
  cur = 0;
}

proc_exited-root_example : (proc_exited toy 0 3 after_exit).1.guest_done ≡ true
proc_exited-root_example = (proc_exited-root toy 0 3 after_exit 100 0 refl refl).1

-- The child forks, and its child exits with the shell parked.
abbrev forked : Server Toy
forked = (sys_fork toy zero_regs (turn 1 5 machine)).1

forked-IsRunning : IsRunning 2 forked
unfolding first_index proc_new proc_take sys_fork fork_into fork_slot fork_task prepare_child
    start_child fork_thread fd_fork
forked-IsRunning = (102, 101, refl)

pub machine-IsSound : IsSound machine
machine-IsSound = record { inv = machine-Inv; tidy = machine-IsTidy; rooted = (100, refl, refl) }

Ran-IsSound_example : IsSound (proc_exited toy 2 4 (turn 2 6 forked)).1
Ran-IsSound_example =
    Ran-IsSound toy (exits 2 6 4 forked-IsRunning (forks 1 5 zero_regs (101, 100, refl) start))
      machine-IsSound

Ran-Steps_example :
    Steps (by_pid (table machine)) (by_pid (table (proc_exited toy 2 4 (turn 2 6 forked)).1))
Ran-Steps_example =
    Ran-Steps toy (exits 2 6 4 forked-IsRunning (forks 1 5 zero_regs (101, 100, refl) start))
      machine-IsSound

gfd_alloc_lem_example :
    let r = gfd_alloc toy (pos 9) machine in
    ((i : ℕ) × Placed toy 9 machine r i) ⊎ Full toy 9 machine r
gfd_alloc_lem_example = gfd_alloc_lem toy 9 machine

fd_closeall_lem_example :
    let t = (fd_closeall toy 1 machine).1 in
    (t.kernel ≡ close_each toy (held child.fd max_fd 0) machine.kernel)
    × ((j : ℕ) → j < max_fd → (t.procs 1).fd j ≡ negsuc 0)
    × ((q : ℕ) → 1 ≢ q → t.procs q ≡ machine.procs q)
fd_closeall_lem_example = fd_closeall_lem toy 1 machine

fork_isolates_example :
    let t = (fd_fork toy 1 0 machine).1 in (fd_closeall toy 1 t).1.kernel.opened 0 ≡ true
fork_isolates_example = fork_isolates toy-FdLaws 1 0 machine 0 refl
