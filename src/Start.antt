-- ===== src/Start.antt =====
-- linux-personality/oryxlinux.c: main up to the workers: the options, the sysroot, the first guest
-- process.
pub mod Sound
use oryx_hurd.Base.{
  ℕ, ◌+◌, ◌-◌, Bool, true, false, ◌&&◌, Option, none, some, List, [], ◌∷◌, ◌++◌, ℤ, pos, negsuc, St,
  pure, ◌>>=◌, ◌>>◌, ◌==◌, if◌then◌else◌, get_or,
}
use oryx_hurd.Host.{Host, Regs}
use oryx_hurd.Server.{Server, Proc, me, lift, set_proc}
use oryx_hurd.Fd.{fd_init}
use oryx_hurd.Process.{blank, proc_new}
use oryx_hurd.Process.Exec.{image_regs}
use oryx_hurd.Syscall.Files.{OpenFlags, is_ok}
use oryx_hurd.Loader.{load_program}

-- strcmp(a, b) == 0
unfoldable pub same_text : List ℕ → List ℕ → Bool
same_text [] [] = true
same_text [] (b ∷ others) = false
same_text (a ∷ rest) [] = false
same_text (a ∷ rest) (b ∷ others) = (a == b) && same_text rest others

-- "-v"
abbrev pub text_v : List ℕ
text_v = 45 ∷ 118 ∷ []

-- "--sysroot"
abbrev pub text_sysroot : List ℕ
text_sysroot = 45 ∷ 45 ∷ 115 ∷ 121 ∷ 115 ∷ 114 ∷ 111 ∷ 111 ∷ 116 ∷ []

-- "ORYX_SYSROOT"
abbrev pub text_env : List ℕ
text_env = 79 ∷ 82 ∷ 89 ∷ 88 ∷ 95 ∷ 83 ∷ 89 ∷ 83 ∷ 82 ∷ 79 ∷ 79 ∷ 84 ∷ []

-- DEFAULT_SYSROOT, "/usr/lib/oryx-linux/sysroot"
abbrev pub default_sysroot : List ℕ
default_sysroot =
    47 ∷ 117 ∷ 115 ∷ 114 ∷ 47 ∷ 108 ∷ 105 ∷ 98 ∷ 47 ∷ 111 ∷ 114 ∷ 121 ∷ 120 ∷ 45 ∷ 108 ∷ 105 ∷ 110
    ∷ 117 ∷ 120 ∷ 47 ∷ 115 ∷ 121 ∷ 115 ∷ 114 ∷ 111 ∷ 111 ∷ 116 ∷ []

-- What the options set.
pub record Options : Type 0 where
  pub verbose : Bool
  pub sysroot : Option (List ℕ)

abbrev pub no_options : Options
no_options = record { verbose = false; sysroot = none }

-- The loop over the options: what they set, and the arguments behind them.
unfoldable pub read_options : Options → List (List ℕ) → Options × List (List ℕ)
read_options o [] = (o, [])
read_options o (arg ∷ []) =
    if (get_or arg 0 0 == 45) && same_text arg text_v
    then (record o { verbose = true }, [])
    else (o, arg ∷ [])
read_options o (arg ∷ dir ∷ rest) =
    let after_v = read_options (record o { verbose = true }) (dir ∷ rest) in
    let after_dir = read_options (record o { sysroot = some dir }) rest in
    if get_or arg 0 0 == 45
    then (if same_text arg text_v
        then after_v
        else if same_text arg text_sysroot
        then after_dir
        else (o, arg ∷ dir ∷ rest))
    else (o, arg ∷ dir ∷ rest)

-- How main goes on: it ends with an exit status, or the workers serve the guest.
pub data Start : Type 0 where
  exits : ℕ → Start
  serves : Start

-- A slot of the table of static storage.
abbrev pub empty_slot : Proc
empty_slot = record (blank 0) { used = false; alive = false; tls_sel = pos 0 }

-- The globals as the program starts. The pointers `cur` and `root` are NULL until main sets them.
abbrev pub initial : {K : Type 0} → K → Server K
initial k = record {
  procs = λ _. empty_slot;
  root = 0;
  next_pid = 100;
  guest_status = negsuc 0;
  guest_done = false;
  syscall_count = 0;
  sysroot = none;
  dircache = λ _. record { fd = pos 0; dir = none };
  cur = 0;
  cur_reply = 0;
  defer_reply = false;
  kernel = k;
}

module _ {K : Type 0} (host : Host K) where
  -- The option, else the environment, else the installed default if it is there.
  unfoldable pub choose_sysroot : Option (List ℕ) → K → Option (List ℕ)
  choose_sysroot (some dir) k = some dir
  choose_sysroot none k = elim (host.getenv text_env) [
    | some dir ↦ some dir
    | none ↦
        if is_ok (host.access (default_sysroot ++ (47 ∷ 108 ∷ 105 ∷ 98 ∷ [])) 0 k)
        then some default_sysroot
        else none
  ]

  -- A call of Mach: main ends with status 1 if it fails.
  unfoldable pub or_exit : St K Bool → St (Server K) Start → St (Server K) Start
  or_exit call rest s = let r = lift call s in if r.0 then rest r.1 else (exits 1, r.1)

  -- The default registers of the thread with the entry and the stack pointer of the image.
  unfoldable pub start_regs : (thread entry esp : ℕ) → Option Regs → St (Server K) Start
  start_regs thread entry esp none s = (exits 1, s)
  start_regs thread entry esp (some st) s =
      or_exit (host.thread_set_state thread (image_regs entry esp st))
        (or_exit (host.thread_resume thread) (pure serves)) s

  -- The test of thread_create's result.
  unfoldable pub start_thread : (entry esp : ℕ) → Option ℕ → St (Server K) Start
  start_thread entry esp none s = (exits 1, s)
  start_thread entry esp (some thread) s =
      let t = (set_proc s.cur (λ p. record p { thread = thread }) s).1 in
      start_regs thread entry esp (host.thread_get_state thread t.kernel) t

  -- The test of load_program's result.
  unfoldable pub start_image : Option (ℕ × ℕ) → St (Server K) Start
  start_image none s = (exits 1, s)
  start_image (some (entry, esp)) s =
      or_exit (host.task_set_exception_port (me s).task)
        (λ t. (do thread ← lift (host.thread_create (me t).task); start_thread entry esp thread) t)
        s

  -- The test of task_create's result.
  unfoldable pub start_task :
      OpenFlags → List ℕ → (argv envp : List (List ℕ)) → Option ℕ → St (Server K) Start
  start_task flags path argv envp none s = (exits 1, s)
  start_task flags path argv envp (some task) s =
      (do
        set_proc s.cur (λ p. record p { task = task })
        image ← load_program host flags path argv envp
        start_image image)
        s

  -- The test of proc_new's result: `cur` and `root` point at the slot.
  unfoldable pub start_proc :
      OpenFlags → List ℕ → (argv envp : List (List ℕ)) → Option ℕ → St (Server K) Start
  start_proc flags path argv envp none s = (exits 1, s)
  start_proc flags path argv envp (some c) s =
      (do
        set_proc c fd_init
        task ← lift (host.task_create host.mach_task_self false)
        start_task flags path argv envp task)
        (record s { cur = c; root = c })

  -- The test for a program to run.
  unfoldable pub start_guest : OpenFlags → (argv envp : List (List ℕ)) → St (Server K) Start
  start_guest flags [] envp s = (exits 2, s)
  start_guest flags (path ∷ args) envp s =
      or_exit host.mach_port_allocate
        (or_exit host.mach_port_insert_right
          (do slot ← proc_new; start_proc flags path (path ∷ args) envp slot))
        s

  -- main up to the creation of the workers; `args` is argv without the program's name.
  unfoldable pub main_start : OpenFlags → (args envp : List (List ℕ)) → St (Server K) Start
  main_start flags args envp s =
      let r = read_options (record no_options { sysroot = s.sysroot }) args in
      start_guest flags r.1 envp (record s { sysroot = choose_sysroot r.0.sysroot s.kernel })
