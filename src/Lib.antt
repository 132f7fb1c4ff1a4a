-- ===== src/Lib.antt =====
-- The Linux personality of Oryx Hurd, linux-personality/oryxlinux.c: a server that runs 32-bit Linux
-- programs as Mach tasks and serves their system calls from outside; and linux-personality/probe.c,
-- the experiment behind it.
--
-- Base: numbers, lists, signed ints, the search loop and state passing that the modules share.
-- Host: what the program calls and does not implement, GNU Mach and the host's system calls, as a
-- record of functions over an abstract kernel state. Theorems that need more of the host name it
-- as laws (MemLaws, FdLaws, ReadLaws, WriteLaws, RegionLaws, ReplyLaws, ProbeLaws); the others
-- hold for every host.
-- Server: struct proc, the globals and the thread-local variables as one state. UNLOCKED is modelled
-- by `unlocked`, which lets the other workers change the state around the host's call.
-- Memory: PAGE_DOWN, PAGE_UP, peek, poke, peek_str, with the wrap of 32-bit addresses written out.
-- Fd: hfd, gfd_alloc, fd_init, fd_fork, fd_closeall.
-- Process: proc_new and proc_by_task; its children have wait_complete and proc_exited (Exit),
-- sys_wait4 (Wait, its status word in Wait/Status), sys_fork (Fork), the abstract table of slots
-- with its steps (View), what every history keeps (Invariant, Tidy, History), and the table as a
-- map from pids (Pids).
-- Errno: the Linux error numbers and errno_to_linux (the numbers of Linux in Names).
-- Process/Exec: peek_vector, wipe_address_space and sys_execve. Process/Quiet: the operations that
-- leave the life of every process as it was.
-- Loader, Stack: load_one (the headers in Loader/Elf) and load_program, and build_stack, the block
-- of 64 KB that a fresh program starts with.
-- Syscall: the other cases of dispatch by kind: Io, Mem, Files, Paths, Stat, Dirs, Tls and Clock. Calm
-- has those that do not touch the life of processes, in families; Dirs/Cache is about the cache of
-- streams; Dirs/Parse reads the records of getdents64 back, Stat/Layout and Stat/Filled the
-- structures of the stat calls, and Tls/Layout and Tls/Entry are about the bits of a segment
-- descriptor.
-- Dispatch: the case labels (Number), dispatch, the exception handler and one round of serve; Kinds
-- sorts the cases of dispatch by what they can change, Calls is about what they leave of the
-- table, Sound about the handler, Owed, Replies and Served about the reply, Late about an execve
-- that fails too late.
-- Syscall/Io/Keeps and Process/Exit/Sends carry what is shared there.
-- Start: main up to the workers, with its options and the sysroot. Serve: the loop of serve over a
-- list of messages, finish (Finish), the end of the root process (Exit), and main as a whole (Sound).
-- Probe: probe.c, with the round of one message in Rounds and a declined fault in Cycle.
-- Examples: a small concrete host, and the theorems at concrete inputs.
--
-- Bounds: the tables have 64 processes, 256 descriptors and 32 directory streams, as in the source;
-- loops over them recur on the entries left. peek_str_loop has one round for each byte of its
-- buffer, and each round reads a byte at least. Pids and host descriptors do not wrap. The page
-- size is 4096. peek_vector and wipe_address_space have one round for each pointer, and for each
-- page, that a 32-bit address space can hold; getdents64 has one round for each byte of the guest's
-- buffer.
--
-- Not modelled: the messages written to stderr, the memory that peek and poke release, the
-- contents of the server's reply messages, allocation failures of strdup, and the threads of the
-- workers, which appear as changes of the state while the lock is free; an end of the emulator by
-- another worker is none of these changes. A file that load_one reads is followed by zero bytes. The
-- Python and shell tools, fonts and scripts of the repository are not part of the C program.
pub mod Base
pub mod Dispatch
pub mod Errno
pub mod Examples
pub mod Fd
pub mod Host
pub mod Loader
pub mod Memory
pub mod Probe
pub mod Process
pub mod Serve
pub mod Server
pub mod Stack
pub mod Start
pub mod Syscall
