-- ===== src/Probe.antt =====
-- linux-personality/probe.c: the experiment that traps one system call of its own task. Its
-- messages on stdout and the registers that it reads back for them are left out.
pub mod Cycle
pub mod Rounds
use oryx_hurd.Base.{
  ℕ, ◌+◌, ◌*◌, ◌%◌, ◌^◌, Bool, true, false, not, ◌&&◌, Option, none, some, List, [], ◌∷◌, ℤ, pos,
  neg, to_int32, to_word, St, pure, ◌>>=◌, ◌>>◌, ◌==◌, if◌then◌else◌,
}
use oryx_hurd.Host.{Host, Regs}
use oryx_hurd.Fd.{int_of}
use oryx_hurd.Dispatch.{is_int80}

-- What the probe calls beside the host's calls: its own memory, which it reads through pointers,
-- the mach_msg that sends a reply, and pthread_create.
pub record Reply : Type 0 where
  pub port : ℕ
  pub id : ℕ
  pub code : ℕ

pub record ProbeHost (K : Type 0) : Type 0 where
  pub host : Host K
  pub memory : K → (addr n : ℕ) → List ℕ
  pub send : Reply → St K Bool
  pub pthread_create : St K Bool

-- The variable `handled`, and the state of the host.
pub record Probe (K : Type 0) : Type 0 where
  pub handled : Bool
  pub kernel : K

-- The result of the exception routine, or the status of an exit of the probe.
pub data Verdict : Type 0 where
  kern_success kern_failure : Verdict
  exited : ℕ → Verdict

-- A call's result, or exit.
pub data Emulated : Type 0 where
  returns : ℤ → Emulated
  leaves : ℕ → Emulated

pub data ProbeMessage : Type 0 where
  raised : (id reply thread : ℕ) → ProbeMessage
  unknown : ProbeMessage

abbrev pub probe_regs : ℤ → Regs → Regs
probe_regs ret st = record st { eax = to_word ret; eip = (st.eip + 2) % 2 ^ 32 }

-- The reply that the handler builds by hand: its code is KERN_SUCCESS, whatever the routine says.
abbrev pub reply_to : (id reply : ℕ) → Reply
reply_to id reply = record { port = reply; id = id + 100; code = 0 }

module _ {K : Type 0} (p : ProbeHost K) where
  abbrev pub in_kernel : {A : Type 0} → St K A → St (Probe K) A
  in_kernel f s = let r = f s.kernel in (r.0, record s { kernel = r.1 })

  -- The switch over eax: 4 is write, 1 is exit, the others are -38.
  unfoldable pub emulate : Regs → St K Emulated
  emulate st k =
      if st.eax == 4
      then (let r = p.host.write (to_int32 st.ebx) (p.memory k st.ecx st.edx) k in
          (returns (int_of r.0), r.1))
      else if st.eax == 1
      then (leaves st.ebx, k)
      else (returns (neg 38), k)

  -- From the result of the call on.
  unfoldable pub probe_return : (thread : ℕ) → Regs → Emulated → St (Probe K) Verdict
  probe_return thread st (leaves status) s = (exited status, s)
  probe_return thread st (returns ret) s =
      let r = in_kernel (p.host.thread_set_state thread (probe_regs ret st)) s in
      if r.0 then (kern_success, record (r.1) { handled = true }) else (kern_failure, r.1)

  unfoldable pub probe_trap : (thread : ℕ) → Regs → St (Probe K) Verdict
  probe_trap thread st s =
      if not (is_int80 (p.memory s.kernel st.eip 2))
      then (kern_failure, s)
      else (do r ← in_kernel (emulate st); probe_return thread st r) s

  -- The test of thread_get_state's result.
  unfoldable pub probe_state : (thread : ℕ) → Option Regs → St (Probe K) Verdict
  probe_state thread none s = (kern_failure, s)
  probe_state thread (some st) s = probe_trap thread st s

  -- _S_catch_exception_raise of the probe
  unfoldable pub probe_exception_raise : (thread : ℕ) → St (Probe K) Verdict
  probe_exception_raise thread s = probe_state thread (p.host.thread_get_state thread s.kernel) s

  -- Behind the routine: `rest` is the loop from the next message on. A result is the status with
  -- which the probe has ended.
  unfoldable pub handler_reply :
      St (Probe K) (Option ℕ) → (id reply : ℕ) → Verdict → St (Probe K) (Option ℕ)
  handler_reply rest id reply (exited status) s = (some status, s)
  handler_reply rest id reply kern_success s = rest (in_kernel (p.send (reply_to id reply)) s).1
  handler_reply rest id reply kern_failure s = rest (in_kernel (p.send (reply_to id reply)) s).1

  -- handler on the messages that it receives, up to a failure of mach_msg.
  unfoldable pub handler : List ProbeMessage → St (Probe K) (Option ℕ)
  handler [] s = (none, s)
  handler (unknown ∷ rest) s = handler rest s
  handler (raised id reply thread ∷ rest) s =
      let r = probe_exception_raise thread s in handler_reply (λ t. handler rest t) id reply r.0 r.1

  -- A call of main that ends it with 1 if it fails; `none` is that main goes on.
  unfoldable pub or_fail : St K Bool → St (Probe K) (Option ℕ) → St (Probe K) (Option ℕ)
  or_fail call rest s = let r = in_kernel call s in if r.0 then rest r.1 else (some 1, r.1)

  -- main up to its int $0x80.
  unfoldable pub probe_main : St (Probe K) (Option ℕ)
  probe_main = or_fail p.host.mach_port_allocate (
      or_fail p.host.mach_port_insert_right (
        or_fail p.pthread_create
          (or_fail (p.host.task_set_exception_port p.host.mach_task_self) (pure none))))

-- The test with which main ends: the call was handled and has returned the length of its message.
unfoldable pub complete : (handled : Bool) (result len : ℕ) → Bool
complete handled result len = handled && (result == len)
