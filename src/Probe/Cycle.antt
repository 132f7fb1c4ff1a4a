-- ===== src/Probe/Cycle.antt =====
-- linux-personality/probe.c: what becomes of a fault that is no system call.
use oryx_hurd.Base.{ℕ, zero, suc, ◌+◌, ◌≡◌, true, some, List, ◌∷◌, ℤ}
use oryx_hurd.Host.{Regs}
use oryx_hurd.Probe.{ProbeHost, Probe, Reply}

-- A reply changes no register and no byte of the probe, and the registers that are set are read.
-- `sent` are the replies, the newest first: only a send adds one.
pub record ProbeLaws {K : Type 0} (p : ProbeHost K) (sent : K → List Reply) : Type 0 where
  pub send_regs :
      (r : Reply) (k : K) (t : ℕ)
      → p.host.thread_get_state t (p.send r k).1 ≡ p.host.thread_get_state t k
  pub send_memory : (r : Reply) (k : K) (a n : ℕ) → p.memory (p.send r k).1 a n ≡ p.memory k a n
  pub send_sent : (r : Reply) (k : K) → sent (p.send r k).1 ≡ r ∷ sent k
  pub write_sent : (fd : ℤ) (d : List ℕ) (k : K) → sent (p.host.write fd d k).1 ≡ sent k
  pub set_sent : (t : ℕ) (st : Regs) (k : K) → sent (p.host.thread_set_state t st k).1 ≡ sent k
  pub set_get :
      (t : ℕ) (st : Regs) (k : K)
      → (p.host.thread_set_state t st k).0 ≡ true
      → p.host.thread_get_state t (p.host.thread_set_state t st k).1 ≡ some st

-- The reply to a message: its id is 100 above the message's, and its code is KERN_SUCCESS.
abbrev pub success : (id reply : ℕ) → Reply
success id reply = record { port = reply; id = id + 100; code = 0 }

module _ {K : Type 0} (p : ProbeHost K) where
  unfoldable pub sends : ℕ → Reply → K → K
  sends zero r k = k
  sends (suc n) r k = sends n r (p.send r k).1
