-- ===== src/Examples/Calls.antt =====
-- brk, mmap, dup2, pipe and the transfers for the shell's child.
use oryx_hurd.Base.{◌*◌, ◌^◌, pos, negsuc, arith, update}
use oryx_hurd.Host.{Host, ok}
use oryx_hurd.Server.{Server}
use oryx_hurd.Syscall.Io.{sys_read, sys_write, sys_writev, readv_loop}
use oryx_hurd.Syscall.Io.Bounds.{ReadLaws, Transferred}
use oryx_hurd.Syscall.Io.Writes.{WriteLaws}
use oryx_hurd.Syscall.Io.Totals.{transfers_bounded}
use oryx_hurd.Examples.Toy.{Toy, toy}
use oryx_hurd.Examples.Errnos.{names}
use oryx_hurd.Examples.Processes.{machine}

toy-ReadLaws : ReadLaws toy
toy-ReadLaws = record { read_length = λ fd n k d e. ground (arith, e) }

toy-WriteLaws : WriteLaws toy
toy-WriteLaws = record { write_length = λ fd d k n e. ground (arith, e) }

transfers_bounded_example :
    Transferred 4096 (sys_read toy names (λ s. s) (pos 0) 0x8000000 4096 machine).0
    × Transferred 4096 (sys_write toy names (λ s. s) (pos 0) 0x8000000 4096 machine).0
    × Transferred (2 * 2 ^ 20) (sys_writev toy names (λ s. s) (pos 0) 0x9000000 2 machine).0
    × Transferred (2 * 2 ^ 20) (readv_loop toy names (λ s. s) 0 0x9000000 2 0 0 machine).0
transfers_bounded_example =
    transfers_bounded toy-ReadLaws toy-WriteLaws names (λ s. s) (pos 0) 0x8000000 4096 0 0x9000000 2
      2 machine (omega arith)

-- A table with one free entry, and a host that makes the pipe.
abbrev one_free : Server Toy
one_free = record machine {
  procs = λ i. record (machine.procs i) { fd = update (λ _. pos 0) 5 (negsuc 0) };
}

abbrev piping : Host Toy
piping = record toy { pipe = λ k. (ok (20, 21), k) }
