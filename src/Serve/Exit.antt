-- ===== src/Serve/Exit.antt =====
-- linux-personality/oryxlinux.c: the emulator ends with the status of the program that it runs.
use oryx_hurd.Base.{ℕ, ◌+◌, ◌%◌, ◌≡◌, ◌∙◌, refl, ap, true, false, some, List, ◌∷◌, pos, arith}
use oryx_hurd.Host.{Host, Regs}
use oryx_hurd.Server.{Server, me, set_proc, long_min}
use oryx_hurd.Memory.{peek}
use oryx_hurd.Errno.{HostErrno}
use oryx_hurd.Process.{proc_by_task}
use oryx_hurd.Process.Exit.Steps.{proc_exited-root}
use oryx_hurd.Process.View.{slot_of, running}
use oryx_hurd.Syscall.Files.{OpenFlags}
use oryx_hurd.Dispatch.{
  args_of, dispatch, answer, handle_trap, handle, catch_exception_raise, serve_message, insn_of,
  is_int80, exc_bad_instruction, run,
}
use oryx_hurd.Dispatch.Number.{call_of, exit}
use oryx_hurd.Dispatch.Owed.{exit-IsOwed}
use oryx_hurd.Serve.{Message, raised, serve, serve_next, receive, finish}

-- The thread of the root process is at an int $0x80 that calls exit or exit_group.
pub record Leaves {K : Type 0} (host : Host K) (thread task : ℕ) (st : Regs) (s : Server K)
    : Type 0 where
  pub of_root : proc_by_task task s ≡ some s.root
  pub runs : (pid : ℕ) × (ppid : ℕ) × (slot_of (s.procs s.root) ≡ running pid ppid)
  pub regs : host.thread_get_state thread s.kernel ≡ some st
  pub call : call_of st.eax ≡ exit
  pub insn : is_int80 (insn_of (peek host (s.procs s.root).task st.eip 2 s.kernel)) ≡ true

-- The status is kept and the workers are told to end, and the reply is owed.
abbrev Ending : {K : Type 0} → ℕ → Server K → Type 0
Ending status t = (t.guest_done ≡ true) × (t.guest_status ≡ pos status) × (t.defer_reply ≡ false)

module _ {K : Type 0} (host : Host K) (names : HostErrno) (flags : OpenFlags)
    (others : Server K → Server K) where
  exit-Ending :
      (st : Regs) (s : Server K) (pid ppid : ℕ)
      → slot_of (s.procs s.cur) ≡ running pid ppid
      → s.cur ≡ s.root
      → s.defer_reply ≡ false
      → let r = run host names flags others st (args_of st) exit s in
        (r.0 ≡ long_min) × Ending (st.ebx % 256) r.1
  unfolding run
  exit-Ending st s pid ppid up root owed =
      let over = proc_exited-root host s.cur (st.ebx % 256) s pid ppid up root in
      (refl, (over.1, over.0, exit-IsOwed host s.cur (st.ebx % 256) s owed))

  trap-Ending :
      (thread : ℕ) (st : Regs) (s : Server K) (pid ppid : ℕ)
      → call_of st.eax ≡ exit
      → is_int80 (insn_of (peek host (me s).task st.eip 2 s.kernel)) ≡ true
      → slot_of (s.procs s.cur) ≡ running pid ppid
      → s.cur ≡ s.root
      → s.defer_reply ≡ false
      → Ending
          (st.ebx % 256)
          (handle_trap host names flags others thread exc_bad_instruction st s).1
  unfolding handle_trap dispatch answer
  trap-Ending thread st s pid ppid call insn up root owed =
      let t = record s { syscall_count = s.syscall_count + 1 } in
      let r = exit-Ending st t pid ppid up root owed in rw (insn, call, r.0) r.1

  round-Ending :
      (thread task : ℕ) (st : Regs) (s : Server K)
      → s.defer_reply ≡ false
      → Leaves host thread task st s
      → Ending
          (st.ebx % 256)
          (catch_exception_raise host names flags others thread task exc_bad_instruction s).1
  unfolding catch_exception_raise handle
  round-Ending thread task st s owed leaves =
      let t = (set_proc s.root (λ q. record q { thread = thread }) (record s { cur = s.root })).1 in
      let same : (me t).task ≡ (s.procs s.root).task = ground arith in
      rw (leaves.of_root, leaves.regs, catch_exception_raise, handle)
        (trap-Ending thread st t leaves.runs.0 leaves.runs.1 leaves.call
          (ap (λ n. is_int80 (insn_of (peek host n st.eip 2 s.kernel))) same ∙ leaves.insn)
          (ground arith) refl owed)

  -- A root process that calls exit ends the emulator in that round: its status is the low byte of
  -- the guest's argument.
  pub serve-exits :
      (reply thread task : ℕ) (st : Regs) (rest : List Message) (s : Server K)
      → Leaves host thread task st (receive host names flags others s)
      → (serve host names flags others (raised reply thread task exc_bad_instruction ∷ rest) s).0
        ≡ some (st.ebx % 256)
  unfolding serve serve_next serve_message finish proc_by_task
  serve-exits reply thread task st rest s leaves =
      let t = record (receive host names flags others s) {
        cur_reply = reply;
        defer_reply = false;
      } in
      let over = round-Ending thread task st t refl (record {
        of_root = leaves.of_root;
        runs = leaves.runs;
        regs = leaves.regs;
        call = leaves.call;
        insn = leaves.insn;
      }) in
      rw (over.2, over.0, over.1, serve_message, serve_next, finish) refl
