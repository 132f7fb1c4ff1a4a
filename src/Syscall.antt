-- ===== src/Syscall.antt =====
-- The system calls of linux-personality/oryxlinux.c that are no process calls: one module for each
-- kind, and the result of a host call as a Linux result.
pub mod Io
pub mod Mem
pub mod Files
pub mod Paths
pub mod Stat
pub mod Tls
pub mod Clock
pub mod Dirs
pub mod Calm
use oryx_hurd.Base.{ℕ, ℤ, pos}
use oryx_hurd.Host.{Outcome, ok, fail}
use oryx_hurd.Errno.{HostErrno, ret_err}

-- `n < 0 ? RET_ERR() : n`
abbrev pub result : HostErrno → Outcome ℕ → ℤ
result names (ok n) = pos n
result names (fail e) = ret_err names e

-- `r < 0 ? RET_ERR() : 0`
abbrev pub result_zero : {A : Type 0} → HostErrno → Outcome A → ℤ
result_zero names (ok _) = pos 0
result_zero names (fail e) = ret_err names e
