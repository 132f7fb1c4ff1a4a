-- ===== src/Process/Tidy.antt =====
-- The flags of struct proc that the other theorems rely on.
use oryx_hurd.Base.{ℕ, ◌≡◌, true, false}
use oryx_hurd.Server.{Server}

-- A process that waits is alive, and a slot in use has not been collected.
pub record IsTidy {K : Type 0} (s : Server K) : Type 0 where
  pub waits :
      (j : ℕ) → (s.procs j).used ≡ true → (s.procs j).waiting ≡ true → (s.procs j).alive ≡ true
  pub kept : (j : ℕ) → (s.procs j).used ≡ true → (s.procs j).reaped ≡ false
