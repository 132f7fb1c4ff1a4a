-- ===== src/Server.antt =====
-- The process table and the other globals of linux-personality/oryxlinux.c, as the state that
-- every operation reads and changes.
use oryx_hurd.Base.{ℕ, ◌-◌, ◌^◌, Bool, Option, List, ℤ, negsuc, St, update}

abbrev pub max_proc : ℕ
max_proc = 64

abbrev pub max_fd : ℕ
max_fd = 256

-- struct proc. The descriptor table is an array of `max_fd` ints, -1 where closed.
pub record Proc : Type 0 where
  pub used : Bool
  pub alive : Bool
  pub reaped : Bool
  pub pid : ℕ
  pub ppid : ℕ
  pub status : ℕ
  pub task : ℕ
  pub thread : ℕ
  pub brk_lo : ℕ
  pub brk_hi : ℕ
  pub tls_sel : ℤ
  pub fd : ℕ → ℤ
  pub waiting : Bool
  pub wait_for : ℤ
  pub wait_reply : ℕ
  pub wait_status_addr : ℕ

-- One entry of dircache: the DIR pointer, or none for NULL.
pub record DirSlot : Type 0 where
  pub fd : ℤ
  pub dir : Option ℕ

-- The globals, the thread-local variables of the worker that runs, and the state of the host.
pub record Server (K : Type 0) : Type 0 where
  pub procs : ℕ → Proc
  pub root : ℕ
  pub next_pid : ℕ
  pub guest_status : ℤ
  pub guest_done : Bool
  pub syscall_count : ℕ
  pub sysroot : Option (List ℕ)
  pub dircache : ℕ → DirSlot
  pub cur : ℕ
  pub cur_reply : ℕ
  pub defer_reply : Bool
  pub kernel : K

-- LONG_MIN of the 32-bit long, by which a handler says that the registers are already set.
abbrev pub long_min : ℤ
long_min = negsuc (2 ^ 31 - 1)

module _ {K : Type 0} where
  abbrev pub me : Server K → Proc
  me s = s.procs s.cur

  -- Run a command of the host.
  abbrev pub lift : {A : Type 0} → St K A → St (Server K) A
  lift f s = let r = f s.kernel in (r.0, record s { kernel = r.1 })

  abbrev pub set_proc : ℕ → (Proc → Proc) → St (Server K) (Unit {0})
  set_proc i f s = (tt, record s { procs = update s.procs i (f (s.procs i)) })

  -- The thread-local variables of `s`, in a state that other workers have changed.
  abbrev pub resume : Server K → Server K → Server K
  resume s t = record t { cur = s.cur; cur_reply = s.cur_reply; defer_reply = s.defer_reply }

  -- UNLOCKED(expr): the lock is free while `expr` runs, so the other workers may change the state
  -- before and after its effect: `others` is what they do.
  abbrev pub unlocked : {A : Type 0} → (Server K → Server K) → St K A → St (Server K) A
  unlocked others f s = let r = lift f (resume s (others s)) in (r.0, resume s (others r.1))
