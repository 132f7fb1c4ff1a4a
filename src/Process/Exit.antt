-- ===== src/Process/Exit.antt =====
-- linux-personality/oryxlinux.c: wait_complete and proc_exited.
pub mod Slots
pub mod Steps
pub mod Sends
pub mod Answer
use oryx_hurd.Base.{
  ℕ, ◌+◌, ◌%◌, ◌^◌, Bool, true, false, ◌&&◌, ◌||◌, Option, none, some, pos, negsuc, ◌==ℤ◌, St, pure,
  gets, modify, ◌>>=◌, ◌>>◌, ◌==◌, if◌then◌else◌, first_index,
}
use oryx_hurd.Host.{Host, Regs}
use oryx_hurd.Server.{Server, Proc, max_proc, lift, set_proc}
use oryx_hurd.Memory.{poke}
use oryx_hurd.Fd.{fd_closeall}
use oryx_hurd.Process.{word_bytes, exit_word}

-- The registers with which a parked wait4 returns `pid`.
abbrev pub wait_regs : ℕ → Regs → Regs
wait_regs pid st = record st { eax = pid % 2 ^ 32; eip = (st.eip + 2) % 2 ^ 32 }

-- The test by which proc_exited looks for a parked parent of `p`.
unfoldable pub awaits : Proc → Proc → Bool
awaits p q =
    q.used
    && q.waiting
    && (q.pid == p.ppid)
    && ((q.wait_for ==ℤ negsuc 0) || (q.wait_for ==ℤ pos p.pid))

module _ {K : Type 0} (host : Host K) where
  unfoldable pub write_status : Proc → Proc → St K Bool
  write_status parent child =
      if parent.wait_status_addr == 0
      then pure false
      else poke host parent.task parent.wait_status_addr (word_bytes (exit_word child.status))

  unfoldable pub return_pid : Proc → Proc → St K Bool
  return_pid parent child k = elim (host.thread_get_state parent.thread k) [
    | none ↦ (false, k)
    | some st ↦ host.thread_set_state parent.thread (wait_regs child.pid st) k
  ]

  -- What wait_complete does to the parent's memory and registers, and the reply that it sends.
  unfoldable pub wake : Proc → Proc → St K (Unit {0})
  wake parent child =
      write_status parent child >> return_pid parent child >> host.send_reply parent.wait_reply

  unfoldable pub wait_complete : (parent child : ℕ) → St (Server K) (Unit {0})
  wait_complete parent child s =
      (do
        lift (wake (s.procs parent) (s.procs child))
        set_proc parent (λ q. record q { waiting = false })
        set_proc child (λ p. record p { reaped = true; used = false }))
        s

  -- alive = 0, the status, the descriptors, the thread and the task
  unfoldable pub bury : (p status : ℕ) → St (Server K) (Unit {0})
  bury p status = do
    set_proc p (λ r. record r { alive = false; status = status })
    fd_closeall host p
    thread ← gets (λ s. (s.procs p).thread)
    lift (host.thread_terminate thread)
    task ← gets (λ s. (s.procs p).task)
    lift (host.task_terminate task)

  -- What proc_exited does with the parked parent that it finds.
  unfoldable pub wake_found : ℕ → Option ℕ → St (Server K) (Unit {0})
  wake_found p none s = (tt, s)
  wake_found p (some q) s = wait_complete q p s

  unfoldable pub wake_parent : ℕ → St (Server K) (Unit {0})
  wake_parent p s = wake_found p (first_index (λ i. awaits (s.procs p) (s.procs i)) max_proc) s

  unfoldable pub proc_exited : (p status : ℕ) → St (Server K) (Unit {0})
  proc_exited p status = do
    bury p status
    root ← gets (λ s. s.root)
    if p == root
        then modify (λ s. record s { guest_status = pos status; guest_done = true })
        else wake_parent p
