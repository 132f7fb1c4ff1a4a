-- ===== src/Probe/Rounds.antt =====
-- linux-personality/probe.c: what one exception message does, whatever it is about.
use oryx_hurd.Base.{
  ℕ, ◌+◌, ◌%◌, ◌^◌, ◌≡◌, ◌≢◌, ◌⊎◌, true, false, Option, none, some, List, ◌∷◌, ℤ, neg, to_int32,
  to_word, St,
}
use oryx_hurd.Host.{Regs}
use oryx_hurd.Fd.{int_of}
use oryx_hurd.Dispatch.{is_int80}
use oryx_hurd.Probe.{ProbeHost, Probe, Reply, Verdict, handler_reply, probe_regs}
use oryx_hurd.Probe.Cycle.{ProbeLaws, success}

-- What a call of the thread with registers `st` gives: write's result for 4, and -38 for the rest
-- but 1, which is exit.
abbrev pub Result : {K : Type 0} → ProbeHost K → Regs → K → ℤ → Type 0
Result p st k v =
    ((st.eax ≡ 4) × (v ≡ int_of (p.host.write (to_int32 st.ebx) (p.memory k st.ecx st.edx) k).0))
    ⊎ ((st.eax ≢ 4) × (st.eax ≢ 1) × (v ≡ neg 38))

-- The round of one message, from `s`: `rest` is what the loop does after it, and `r` the end.
pub data Round {K : Type 0} (p : ProbeHost K) (sent : K → List Reply) (id reply thread : ℕ)
    (s : Probe K) (rest : St (Probe K) (Option ℕ)) (r : Option ℕ × Probe K) : Type 0 where
  -- exit: the probe ends with the call's argument, and nothing is sent
  ended :
      (st : Regs)
      → p.host.thread_get_state thread s.kernel ≡ some st
      → is_int80 (p.memory s.kernel st.eip 2) ≡ true
      → st.eax ≡ 1
      → r ≡ (some st.ebx, s)
      → Round p sent id reply thread s rest r
  -- another call: the thread is behind the instruction, with the result and its other registers, the
  -- call counts as handled, and the reply is sent
  called :
      (st : Regs) (v : ℤ) (t : Probe K)
      → p.host.thread_get_state thread s.kernel ≡ some st
      → is_int80 (p.memory s.kernel st.eip 2) ≡ true
      → Result p st s.kernel v
      → t.handled ≡ true
      → p.host.thread_get_state thread t.kernel
        ≡ some (record st { eax = to_word v; eip = (st.eip + 2) % 2 ^ 32 })
      → sent t.kernel ≡ success id reply ∷ sent s.kernel
      → r ≡ rest t
      → Round p sent id reply thread s rest r
  -- a call whose registers could not be set, and yet the reply says that it was handled
  unset :
      (st : Regs) (v : ℤ) (k : K) (t : Probe K)
      → p.host.thread_get_state thread s.kernel ≡ some st
      → is_int80 (p.memory s.kernel st.eip 2) ≡ true
      → Result p st s.kernel v
      → (p.host.thread_set_state thread (probe_regs v st) k).0 ≡ false
      → t.handled ≡ s.handled
      → sent t.kernel ≡ success id reply ∷ sent s.kernel
      → r ≡ rest t
      → Round p sent id reply thread s rest r
  -- a fault that is no call, or a thread that cannot be read: the same reply is all that happens
  declined :
      ((st : Regs)
        → p.host.thread_get_state thread s.kernel ≡ some st
        → is_int80 (p.memory s.kernel st.eip 2) ≡ false)
      → r ≡ rest (record s { kernel = (p.send (success id reply) s.kernel).1 })
      → Round p sent id reply thread s rest r

abbrev eip_of : Option Regs → ℕ
eip_of none = 0
eip_of (some st) = st.eip

module _ {K : Type 0} {p : ProbeHost K} {sent : K → List Reply} (laws : ProbeLaws p sent) where
  module _ (id reply thread : ℕ) (s : Probe K) (rest : St (Probe K) (Option ℕ)) where
    -- From the verdict on.
    abbrev replied : Verdict × Probe K → Option ℕ × Probe K
    replied r = handler_reply p rest id reply r.0 r.1
