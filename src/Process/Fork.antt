-- ===== src/Process/Fork.antt =====
-- linux-personality/oryxlinux.c: sys_fork. `exc_port` is given to the host's call.
pub mod Slots
pub mod Steps
pub mod Tidy
use oryx_hurd.Base.{
  ℕ, ◌+◌, ◌%◌, ◌^◌, Option, true, false, none, some, ℤ, pos, negsuc, neg, is_neg, St, pure, ◌>>=◌,
  ◌>>◌, if◌then◌else◌,
}
use oryx_hurd.Host.{Host, Regs}
use oryx_hurd.Server.{Server, Proc, me, lift, set_proc}
use oryx_hurd.Fd.{fd_fork}
use oryx_hurd.Process.{proc_new, linux_eagain}

abbrev pub unuse : Proc → Proc
unuse p = record p { used = false }

-- The child returns 0 from the same instruction.
abbrev pub child_regs : Regs → Regs
child_regs st = record st { eax = 0; eip = (st.eip + 2) % 2 ^ 32 }

-- What the child takes over beside its descriptors.
abbrev pub inherit : ℕ → Proc → Proc → Proc
inherit task parent c = record c {
  task = task;
  ppid = parent.pid;
  brk_lo = parent.brk_lo;
  brk_hi = parent.brk_hi;
  tls_sel = negsuc 0;
}

module _ {K : Type 0} (host : Host K) where
  -- Undo a fork whose task exists.
  unfoldable pub abandon : (c task : ℕ) → St (Server K) ℤ
  abandon c task = do lift (host.task_terminate task); set_proc c unuse; pure (neg linux_eagain)

  -- Carry the TLS descriptor across; the result is the child's selector.
  unfoldable pub copy_tls : (parent : Proc) (thread : ℕ) → St K ℤ
  copy_tls parent thread k =
      if is_neg parent.tls_sel
      then (negsuc 0, k)
      else elim (host.i386_get_gdt parent.thread parent.tls_sel k) [
        | none ↦ (negsuc 0, k)
        | some d ↦
            (do
              got ← host.i386_set_gdt thread parent.tls_sel d
              pure (elim got [ none ↦ negsuc 0 | some sel ↦ sel ]))
              k
      ]

  -- From the child's thread on.
  unfoldable pub fork_thread : Regs → (c task thread : ℕ) → St (Server K) ℤ
  fork_thread st c task thread s =
      (do
        set_proc c (λ p. record p { thread = thread })
        sel ← lift (copy_tls (me s) thread)
        set_proc c (λ p. record p { tls_sel = sel })
        started ← lift (host.thread_set_state thread (child_regs st))
        if started
            then (do lift (host.thread_resume thread); λ t. (pos (t.procs c).pid, t))
            else abandon c task)
        s

  -- The test of thread_create's result.
  unfoldable pub start_child : Regs → (c task : ℕ) → Option ℕ → St (Server K) ℤ
  start_child st c task none = abandon c task
  start_child st c task (some thread) = fork_thread st c task thread

  -- From the child's task to its thread, which is `none` if the port or the thread was refused.
  unfoldable pub prepare_child : (c task : ℕ) → St (Server K) (Option ℕ)
  prepare_child c task s =
      (do
        set_proc c (inherit task (me s))
        fd_fork host c s.cur
        has_port ← lift (host.task_set_exception_port task)
        lift (if has_port then host.thread_create task else pure none))
        s

  unfoldable pub fork_task : Regs → (c task : ℕ) → St (Server K) ℤ
  fork_task st c task = do thread ← prepare_child c task; start_child st c task thread

  -- The test of task_create's result.
  unfoldable pub fork_slot : Regs → (c : ℕ) → Option ℕ → St (Server K) ℤ
  fork_slot st c none = (set_proc c unuse >>= λ _. pure (neg linux_eagain))
  fork_slot st c (some task) = fork_task st c task

  -- The test of proc_new's result.
  unfoldable pub fork_into : Regs → Option ℕ → St (Server K) ℤ
  fork_into st none s = (neg linux_eagain, s)
  fork_into st (some c) s =
      (do task ← lift (host.task_create (me s).task true); fork_slot st c task) s

  unfoldable pub sys_fork : Regs → St (Server K) ℤ
  sys_fork st = do slot ← proc_new; fork_into st slot
