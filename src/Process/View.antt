-- ===== src/Process/View.antt =====
-- What a client of linux-personality/oryxlinux.c sees of the process table: each slot is free,
-- running, parked in wait4 or a zombie; and the steps by which the slots may change.
use oryx_hurd.Base.{
  ℕ, ◌+◌, ◌≤◌, ◌<◌, ◌≡◌, Bool, true, false, ◌&&◌, ◌||◌, ℤ, pos, negsuc, ◌==ℤ◌, ◌==◌, if◌then◌else◌,
}
use oryx_hurd.Server.{Server, Proc, max_proc}

pub data Slot : Type 0 where
  free : Slot
  running : (pid ppid : ℕ) → Slot
  parked : (pid ppid : ℕ) → ℤ → Slot
  zombie : (pid ppid status : ℕ) → Slot

abbrev pub slot_of : Proc → Slot
slot_of p =
    if p.used
    then (if p.alive
        then (if p.waiting then parked p.pid p.ppid p.wait_for else running p.pid p.ppid)
        else zombie p.pid p.ppid p.status)
    else free

pub record Table : Type 0 where
  pub slots : ℕ → Slot
  pub next : ℕ

abbrev pub table : {K : Type 0} → Server K → Table
table s = record { slots = λ i. slot_of (s.procs i); next = s.next_pid }

-- A process parked for `target`, a pid or -1 for any child, accepts the child `pid`.
abbrev pub accepts : ℤ → ℕ → Bool
accepts target pid = (target ==ℤ negsuc 0) || (target ==ℤ pos pid)

-- `q` is parked and `p` is a dead child that it waits for: a wake-up is missing.
abbrev pub lost : Slot → Slot → Bool
lost (parked pid _ target) (zombie c pp _) = (pid == pp) && accepts target c
lost free p = false
lost (running _ _) p = false
lost (zombie _ _ _) p = false
lost (parked _ _ _) free = false
lost (parked _ _ _) (running _ _) = false
lost (parked _ _ _) (parked _ _ _) = false

-- The slots of `w` are those of `v` with `x` in slot `i`.
abbrev pub Sets : Table → ℕ → Slot → Table → Type 0
Sets v i x w = (j : ℕ) → w.slots j ≡ (if i == j then x else v.slots j)

-- One operation on the process table, as the other processes see it.
pub data Life (v w : Table) : Type 0 where
  -- nothing, or a pid that was given out and not used
  idle : ((j : ℕ) → w.slots j ≡ v.slots j) → v.next ≤ w.next → Life v w
  -- fork: a free slot runs under the next pid
  spawn :
      (i parent pid ppid : ℕ)
      → i < max_proc
      → v.slots i ≡ free
      → v.slots parent ≡ running pid ppid
      → Sets v i (running v.next pid) w
      → w.next ≡ v.next + 1
      → Life v w
  -- exit with nobody parked for it
  die :
      (i pid ppid status : ℕ)
      → v.slots i ≡ running pid ppid
      → ((j : ℕ) → j < max_proc → lost (v.slots j) (zombie pid ppid status) ≡ false)
      → Sets v i (zombie pid ppid status) w
      → w.next ≡ v.next
      → Life v w
  -- exit that releases a parked parent: the child's slot is free and the parent runs
  release :
      (i pid ppid q grand : ℕ) (target : ℤ)
      → v.slots i ≡ running pid ppid
      → v.slots q ≡ parked ppid grand target
      → accepts target pid ≡ true
      → ((j : ℕ)
          → w.slots j ≡ (if i == j then free else if q == j then running ppid grand else v.slots j))
      → w.next ≡ v.next
      → Life v w
  -- wait4 that finds a dead child of the caller
  collect :
      (i pid ppid status caller grand : ℕ)
      → v.slots i ≡ zombie pid ppid status
      → v.slots caller ≡ running ppid grand
      → Sets v i free w
      → w.next ≡ v.next
      → Life v w
  -- wait4 that is not answered yet
  park :
      (i pid ppid : ℕ) (target : ℤ)
      → v.slots i ≡ running pid ppid
      → ((j : ℕ) → j < max_proc → lost (parked pid ppid target) (v.slots j) ≡ false)
      → Sets v i (parked pid ppid target) w
      → w.next ≡ v.next
      → Life v w
