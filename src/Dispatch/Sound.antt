-- ===== src/Dispatch/Sound.antt =====
-- linux-personality/oryxlinux.c: what one exception message leaves of the process table.
use oryx_hurd.Base.{
  ℕ, ◌+◌, ◌≡◌, refl, inl, inr, ◌⊎◌, Bool, true, false, not, ◌||◌, Option, none, some, ℤ, ◌==ℤ◌,
  pure, ◌>>=◌, ◌>>◌, ◌==◌, if◌then◌else◌, arith,
}
use oryx_hurd.Host.{Host, Regs}
use oryx_hurd.Server.{Server, me, lift, set_proc, long_min}
use oryx_hurd.Memory.{peek}
use oryx_hurd.Errno.{HostErrno}
use oryx_hurd.Process.{proc_by_task}
use oryx_hurd.Process.Exit.{proc_exited}
use oryx_hurd.Process.History.{IsSound, IsRunning, proc_exited-IsSound}
use oryx_hurd.Process.Quiet.{Quiet-IsSound, Alike-IsSound}
use oryx_hurd.Process.Exec.Sound.{ImageLost}
use oryx_hurd.Syscall.Files.{OpenFlags}
use oryx_hurd.Syscall.Io.Sound.{kernel-IsSound}
use oryx_hurd.Dispatch.{
  args_of, dispatch, answer, handle_trap, handle, catch_exception_raise, insn_of, is_int80,
  exc_bad_instruction, return_regs,
}
use oryx_hurd.Dispatch.Number.{Call, call_of, execve}
use oryx_hurd.Dispatch.Calls.{Outcomes, run-Outcomes}

-- The state is sound, or the thread had called execve, which has lost the image of its process.
abbrev pub Handled : {K : Type 0} → Host K → (thread : ℕ) → K → Server K → Type 0
Handled host thread k t =
    IsSound t
    ⊎ ((st : Regs) × (host.thread_get_state thread k ≡ some st)
        × (call_of st.eax ≡ execve)
        × ImageLost t)

module _ {K : Type 0} (host : Host K) (names : HostErrno) (flags : OpenFlags)
    (others : Server K → Server K) (fair : (s : Server K) → IsSound s → IsSound (others s)) where
  dispatch-Outcomes :
      (st : Regs) (s : Server K)
      → IsRunning s.cur s
      → IsSound s
      → Outcomes (call_of st.eax) (dispatch host names flags others st s).1
  unfolding dispatch
  dispatch-Outcomes st s up sound =
      let t = record s { syscall_count = s.syscall_count + 1 } in
      run-Outcomes host names flags others fair st (args_of st) (call_of st.eax) t up
        (Quiet-IsSound s t (λ j. refl) sound)

  -- The answer changes no more than the kernel.
  answer-Outcomes :
      (thread : ℕ) (st : Regs) (ret : ℤ) (c : Call) (s : Server K)
      → Outcomes c s
      → Outcomes c (answer host names flags others thread st ret s).1
  unfolding answer
  answer-Outcomes thread st ret c s kept =
      branch ((ret ==ℤ long_min) || s.defer_reply || not (me s).alive)
    where
      sent : Bool × Server K
      sent = lift (host.thread_set_state thread (return_regs ret st)) s

      after : Outcomes c s → Outcomes c sent.1
      after (inl sound) = inl (kernel-IsSound s _ sound)
      after (inr gone) = inr gone

      branch : (b : Bool) → Outcomes c (if b then (true, s) else sent).1
      branch true = kept
      branch false = after kept

  handle_trap-Outcomes :
      (thread exception : ℕ) (st : Regs) (s : Server K)
      → IsRunning s.cur s
      → IsSound s
      → Outcomes (call_of st.eax) (handle_trap host names flags others thread exception st s).1
  unfolding handle_trap
  handle_trap-Outcomes thread exception st s up sound = branch (
      not (exception == exc_bad_instruction)
      || not (is_int80 (insn_of (peek host (me s).task st.eip 2 s.kernel))))
    where
      called : Bool × Server K
      called =
          (do
            ret ← dispatch host names flags others st
            answer host names flags others thread st ret)
            s

      branch :
          (b : Bool)
          → Outcomes
              (call_of st.eax)
              (if b then (do proc_exited host s.cur 139; pure true) s else called).1
      branch true = inl (proc_exited-IsSound host s.cur 139 s up sound)
      branch false =
          let r = dispatch host names flags others st s in
          answer-Outcomes thread st r.0 (call_of st.eax) r.1 (dispatch-Outcomes st s up sound)

  handle-Handled :
      (p thread exception : ℕ) (s : Server K)
      → IsRunning p s
      → IsSound s
      → Handled host thread s.kernel (handle host names flags others p thread exception s).1
  unfolding handle
  handle-Handled p thread exception s0 (pid, ppid, up) sound =
      by_state (host.thread_get_state thread s.kernel) refl
    where
      s : Server K
      s = (set_proc p (λ q. record q { thread = thread }) (record s0 { cur = p })).1

      calm : IsSound s
      calm = Alike-IsSound s0 s (λ j. ground arith) sound

      trapped :
          (st : Regs)
          → Outcomes (call_of st.eax) (handle_trap host names flags others thread exception st s).1
      trapped st = handle_trap-Outcomes thread exception st s (pid, ppid, ground arith) calm

      weaken :
          (st : Regs) (t : Server K)
          → host.thread_get_state thread s.kernel ≡ some st
          → Outcomes (call_of st.eax) t
          → Handled host thread s0.kernel t
      weaken st t e (inl fine) = inl fine
      weaken st t e (inr (is_execve, gone)) = inr (st, e, is_execve, gone)

      by_state :
          (o : Option Regs)
          → host.thread_get_state thread s.kernel ≡ o
          → Handled host thread s0.kernel
              (elim o as (λ _. Bool × Server K) [
                | none ↦ (false, s)
                | some st ↦ handle_trap host names flags others thread exception st s
              ]).1
      by_state none e = inl calm
      by_state (some st) e = weaken st _ e (trapped st)

  -- The exception handler, for any message of a task whose process runs, leaves a sound table,
  -- whatever call or fault it is; only an execve that fails too late does not.
  pub catch_exception_raise-Handled :
      (thread task exception : ℕ) (s : Server K)
      → ((p : ℕ) → proc_by_task task s ≡ some p → IsRunning p s)
      → IsSound s
      → Handled host thread s.kernel
          (catch_exception_raise host names flags others thread task exception s).1
  unfolding catch_exception_raise
  catch_exception_raise-Handled thread task exception s up sound =
      by_proc (proc_by_task task s) refl
    where
      by_proc :
          (o : Option ℕ)
          → proc_by_task task s ≡ o
          → Handled host thread s.kernel
              (elim o as (λ _. Bool × Server K) [
                | none ↦ (false, s)
                | some p ↦ handle host names flags others p thread exception s
              ]).1
      by_proc none e = inl sound
      by_proc (some p) e = handle-Handled p thread exception s (up p e) sound
