-- ===== src/Process/Wait.antt =====
-- linux-personality/oryxlinux.c: sys_wait4.
pub mod Found
pub mod Steps
pub mod Status
use oryx_hurd.Base.{
  ℕ, zero, suc, ◌%◌, Bool, true, false, not, ◌&&◌, ◌||◌, ℤ, pos, negsuc, neg, is_pos, to_ℕ, St,
  pure, ◌>>=◌, ◌==◌, if◌then◌else◌,
}
use oryx_hurd.Host.{Host}
use oryx_hurd.Server.{Server, Proc, max_proc, me, lift, set_proc}
use oryx_hurd.Memory.{poke}
use oryx_hurd.Process.{word_bytes, exit_word, linux_echild, linux_efault}

-- The loop of wait4 up to the first dead child: its slot, or else whether there is a child.
pub data Scan : Type 0 where
  dead_child : ℕ → Scan
  children : Bool → Scan

-- used, a child of the caller, and the one asked for if `pid` is positive
unfoldable pub is_child : ℕ → ℤ → Proc → Bool
is_child parent pid p = p.used && (p.ppid == parent) && (not (is_pos pid) || (p.pid == to_ℕ pid))

unfoldable pub is_zombie : Proc → Bool
is_zombie p = not p.alive && not p.reaped

unfoldable pub wait_scan : (ℕ → Proc) → ℕ → ℤ → (k i : ℕ) → Bool → Scan
wait_scan procs parent pid zero i have = children have
wait_scan procs parent pid (suc k) i have = elim (is_child parent pid (procs i)) [
  | false ↦ wait_scan procs parent pid k (suc i) have
  | true ↦ elim (is_zombie (procs i)) [
    | true ↦ dead_child i
    | false ↦ wait_scan procs parent pid k (suc i) true
  ]
]

abbrev pub reap : ℕ → {K : Type 0} → St (Server K) ℤ
reap i s = (pos (s.procs i).pid, (set_proc i (λ p. record p { reaped = true; used = false }) s).1)

-- The slot of a dead child is freed once its status is stored.
unfoldable pub collect_if : {K : Type 0} → Bool → ℕ → St (Server K) ℤ
collect_if true d s = reap d s
collect_if false d s = (neg linux_efault, s)

-- What wait4 records in the caller when it withholds the reply.
abbrev pub parked_as : ℤ → ℕ → ℕ → Proc → Proc
parked_as pid reply status_addr q = record q {
  waiting = true;
  wait_for = if is_pos pid then pid else negsuc 0;
  wait_reply = reply;
  wait_status_addr = status_addr;
}

module _ {K : Type 0} (host : Host K) where
  -- The status goes to the caller's memory if the caller asked for it.
  unfoldable pub store_status : (status_addr d : ℕ) → Server K → St K Bool
  store_status status_addr d s =
      if status_addr == 0
      then pure true
      else poke host (me s).task status_addr (word_bytes (exit_word (s.procs d).status))

  unfoldable pub wait_dead : (status_addr d : ℕ) → St (Server K) ℤ
  wait_dead status_addr d s =
      (do written ← lift (store_status status_addr d s); collect_if written d) s

  -- What wait4 does after its loop.
  unfoldable pub wait_found : ℤ → (status_addr options : ℕ) → Scan → St (Server K) ℤ
  wait_found pid status_addr options (dead_child d) s = wait_dead status_addr d s
  wait_found pid status_addr options (children false) s = (neg linux_echild, s)
  wait_found pid status_addr options (children true) s = if options % 2 == 1 then (pos 0, s) else (
    pos 0,
    record (set_proc s.cur (parked_as pid s.cur_reply status_addr) s).1 { defer_reply = true },
  )

  unfoldable pub sys_wait4 : ℤ → (status_addr options : ℕ) → St (Server K) ℤ
  sys_wait4 pid status_addr options s =
      wait_found pid status_addr options (wait_scan s.procs (me s).pid pid max_proc 0 false) s
