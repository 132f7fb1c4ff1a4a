-- ===== src/Process.antt =====
-- linux-personality/oryxlinux.c, the life of a guest process: proc_new, proc_by_task, fork, exit
-- and wait4. A process is named by its slot of the table.
pub mod Exit
pub mod Wait
pub mod Fork
pub mod Exec
pub mod View
pub mod Tidy
pub mod Invariant
pub mod History
pub mod Pids
pub mod Quiet
use oryx_hurd.Base.{
  ℕ, ◌+◌, ◌*◌, ◌/◌, ◌%◌, true, false, not, ◌&&◌, Option, none, some, List, [], ◌∷◌, pos, negsuc, St,
  ◌==◌, update, first_index,
}
use oryx_hurd.Server.{Server, Proc, max_proc}

abbrev pub linux_echild : ℕ
linux_echild = 10

abbrev pub linux_eagain : ℕ
linux_eagain = 11

abbrev pub linux_efault : ℕ
linux_efault = 14

-- What proc_new leaves in a slot: all zero but `used`, `alive`, `pid` and `tls_sel`.
abbrev pub blank : ℕ → Proc
blank pid = record {
  used = true;
  alive = true;
  reaped = false;
  pid = pid;
  ppid = 0;
  status = 0;
  task = 0;
  thread = 0;
  brk_lo = 0;
  brk_hi = 0;
  tls_sel = negsuc 0;
  fd = λ _. pos 0;
  waiting = false;
  wait_for = pos 0;
  wait_reply = 0;
  wait_status_addr = 0;
}

-- An int32_t in the guest's byte order.
abbrev pub word_bytes : ℕ → List ℕ
word_bytes w = w % 256 ∷ w / 256 % 256 ∷ w / 65536 % 256 ∷ w / 16777216 % 256 ∷ []

-- (status & 0xff) << 8
abbrev pub exit_word : ℕ → ℕ
exit_word status = status % 256 * 256

module _ {K : Type 0} where
  -- What proc_new does with the first unused slot.
  unfoldable pub proc_take : Option ℕ → St (Server K) (Option ℕ)
  proc_take none s = (none, s)
  proc_take (some i) s =
      (some i, record s { procs = update s.procs i (blank s.next_pid); next_pid = s.next_pid + 1 })

  unfoldable pub proc_new : St (Server K) (Option ℕ)
  proc_new s = proc_take (first_index (λ i. not (s.procs i).used) max_proc) s

  unfoldable pub proc_by_task : ℕ → Server K → Option ℕ
  proc_by_task t s = first_index (λ i. (s.procs i).used && ((s.procs i).task == t)) max_proc
