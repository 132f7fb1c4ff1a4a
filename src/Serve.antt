-- ===== src/Serve.antt =====
-- linux-personality/oryxlinux.c: the loop of serve, finish, and main as a whole.
pub mod Finish
pub mod Exit
pub mod Sound
use oryx_hurd.Base.{
  ℕ, zero, suc, Bool, true, false, ◌&&◌, Option, none, some, List, [], ◌∷◌, ℤ, pos, negsuc, St,
  pure, ◌>>=◌, ◌>>◌, if◌then◌else◌,
}
use oryx_hurd.Host.{Host}
use oryx_hurd.Server.{Server, Proc, max_proc, lift, resume}
use oryx_hurd.Errno.{HostErrno}
use oryx_hurd.Syscall.Files.{OpenFlags}
use oryx_hurd.Dispatch.{serve_message}
use oryx_hurd.Start.{Start, exits, serves, main_start}

-- What a worker receives: an exception that names its reply port, thread and task, or a message
-- that _S_exc_server_routine does not know.
pub data Message : Type 0 where
  raised : (reply thread task exception : ℕ) → Message
  unknown : Message

-- status < 0 ? 1 : status
abbrev pub exit_status : ℤ → ℕ
exit_status (pos n) = n
exit_status (negsuc n) = 1

module _ {K : Type 0} (host : Host K) where
  -- The loop of finish over the slots from `i` on.
  unfoldable pub finish_loop : (k i : ℕ) → (ℕ → Proc) → St K (Unit {0})
  finish_loop zero i procs = pure tt
  finish_loop (suc k) i procs = do
    if (procs i).used && (procs i).alive
        then (host.thread_terminate (procs i).thread >> host.task_terminate (procs i).task)
        else pure tt
    finish_loop k (suc i) procs

  -- The result is the exit status of the emulator.
  unfoldable pub finish : St (Server K) ℕ
  finish s = (do lift (finish_loop max_proc 0 s.procs); pure (exit_status s.guest_status)) s

module _ {K : Type 0} (host : Host K) (names : HostErrno) (flags : OpenFlags)
    (others : Server K → Server K) where
  -- While a worker waits for a message, the others run.
  abbrev pub receive : Server K → Server K
  receive s = resume s (others s)

  -- From the reply on: a round whose reply is withheld does not look at guest_done.
  unfoldable pub serve_next :
      St (Server K) (Option ℕ) → Option (Unit {0}) → St (Server K) (Option ℕ)
  serve_next rest none s = rest s
  serve_next rest (some _) s =
      if s.guest_done then (finish host >>= λ status. pure (some status)) s else rest s

  -- serve on the messages that it receives, up to a failure of mach_msg. A result is the status
  -- with which it ends the emulator.
  unfoldable pub serve : List Message → St (Server K) (Option ℕ)
  serve [] s = (none, s)
  serve (unknown ∷ rest) s = serve rest (receive s)
  serve (raised reply thread task exception ∷ rest) s =
      let r = serve_message host names flags others reply thread task exception (receive s) in
      serve_next (λ t. serve rest t) r.0 r.1

  -- Behind the loop, main calls finish.
  unfoldable pub main_end : Option ℕ → St (Server K) ℕ
  main_end none s = finish host s
  main_end (some status) s = (status, s)

  -- The test that main has not refused.
  unfoldable pub main_serve : Start → List Message → St (Server K) ℕ
  main_serve (exits n) messages s = (n, s)
  main_serve serves messages s = (do r ← serve messages; main_end r) s

  -- main, as the first worker sees it: the exit status of the emulator.
  unfoldable pub main : (args envp : List (List ℕ)) → List Message → St (Server K) ℕ
  main args envp messages = do
    started ← main_start host flags args envp
    main_serve started messages
