-- ===== src/Serve/Sound.antt =====
-- linux-personality/oryxlinux.c: the process table over a run of the emulator.
use oryx_hurd.Base.{
  ℕ, ◌≡◌, refl, inl, inr, Bool, true, false, Option, none, some, List, [], ◌∷◌, pure, ◌>>=◌,
  if◌then◌else◌, arith,
}
use oryx_hurd.Host.{Host, Regs}
use oryx_hurd.Server.{Server, lift, resume}
use oryx_hurd.Errno.{HostErrno}
use oryx_hurd.Process.{proc_by_task}
use oryx_hurd.Process.History.{IsSound, IsRunning}
use oryx_hurd.Process.Quiet.{Alike-IsSound}
use oryx_hurd.Process.Exec.Sound.{ImageLost}
use oryx_hurd.Syscall.Files.{OpenFlags}
use oryx_hurd.Syscall.Io.Sound.{kernel-IsSound}
use oryx_hurd.Dispatch.{serve_message, catch_exception_raise}
use oryx_hurd.Dispatch.Sound.{Handled, catch_exception_raise-Handled}
use oryx_hurd.Dispatch.Number.{call_of, execve}
use oryx_hurd.Start.{Start, exits, serves, initial, main_start, read_options, no_options}
use oryx_hurd.Start.Sound.{Started, main_start-Sole}
use oryx_hurd.Serve.{
  Message, raised, unknown, serve, serve_next, receive, finish, main_end, main_serve, main,
}

module _ {K : Type 0} (host : Host K) (names : HostErrno) (flags : OpenFlags)
    (others : Server K → Server K) where
  abbrev pub served : (reply thread task exception : ℕ) → Server K → Server K
  served reply thread task exception s =
      (serve_message host names flags others reply thread task exception s).1

  -- The message comes from a process that runs, and is not an execve that loses its image.
  abbrev pub Fair : (reply thread task exception : ℕ) → Server K → Type 0
  Fair reply thread task exception s =
      ((p : ℕ) → proc_by_task task s ≡ some p → IsRunning p s)
      × ((st : Regs)
          → host.thread_get_state thread s.kernel ≡ some st
          → call_of st.eax ≡ execve
          → ¬ ImageLost (served reply thread task exception s))

  -- Every message that a worker receives is fair in the state in which it is received.
  pub data Lawful : List Message → Server K → Type 0 where
    ends : {s : Server K} → Lawful [] s
    skips :
        {s : Server K} {rest : List Message}
        → Lawful rest (receive host names flags others s)
        → Lawful (unknown ∷ rest) s
    traps :
        {s : Server K} {rest : List Message} (reply thread task exception : ℕ)
        → Fair reply thread task exception (receive host names flags others s)
        → Lawful rest (served reply thread task exception (receive host names flags others s))
        → Lawful (raised reply thread task exception ∷ rest) s

  module _ (fair : (s : Server K) → IsSound s → IsSound (others s)) where
    receive-IsSound : (s : Server K) → IsSound s → IsSound (receive host names flags others s)
    receive-IsSound s sound =
        Alike-IsSound (others s) (resume s (others s)) (λ j. refl) (fair s sound)

    serve_message-IsSound :
        (reply thread task exception : ℕ) (s : Server K)
        → Fair reply thread task exception s
        → IsSound s
        → IsSound (served reply thread task exception s)
    unfolding serve_message proc_by_task
    serve_message-IsSound reply thread task exception s (up, kept) sound =
        by_reply r.1.defer_reply (
          still (
            catch_exception_raise-Handled host names flags others fair thread task exception t up
              (Alike-IsSound s t (λ j. refl) sound)))
      where
        t : Server K
        t = record s { cur_reply = reply; defer_reply = false }

        r : Bool × Server K
        r = catch_exception_raise host names flags others thread task exception t

        result : Bool → Option (Unit {0}) × Server K
        result b = if b then (none, r.1) else (some tt, (lift (host.send_reply reply) r.1).1)

        lost_too : (b : Bool) → ImageLost r.1 → ImageLost (result b).1
        lost_too true gone = gone
        lost_too false gone = gone

        still : Handled host thread s.kernel r.1 → IsSound r.1
        still (inl fine) = fine
        still (inr (st, e, is_execve, gone)) =
            absurd (kept st e is_execve (lost_too r.1.defer_reply gone))

        by_reply : (b : Bool) → IsSound r.1 → IsSound (result b).1
        by_reply true fine = fine
        by_reply false fine = kernel-IsSound r.1 _ fine

    finish-IsSound : (s : Server K) → IsSound s → IsSound (finish host s).1
    unfolding finish
    finish-IsSound s sound = kernel-IsSound s _ sound

    serve_next-IsSound :
        (rest : Server K → Option ℕ × Server K) (m : Option (Unit {0})) (s : Server K)
        → IsSound s
        → IsSound (rest s).1
        → IsSound (serve_next host names flags others rest m s).1
    unfolding serve_next
    serve_next-IsSound rest none s sound after = after
    serve_next-IsSound rest (some _) s sound after = by_end s.guest_done
      where
        last : Option ℕ × Server K
        last = (finish host >>= λ status. pure (some status)) s

        by_end : (b : Bool) → IsSound (if b then last else rest s).1
        by_end true = finish-IsSound s sound
        by_end false = after

    -- The loop of serve keeps the server sound over every list of fair messages.
    pub serve-IsSound :
        (messages : List Message) (s : Server K)
        → Lawful messages s
        → IsSound s
        → IsSound (serve host names flags others messages s).1
    unfolding serve
    serve-IsSound [] s lawful sound = sound
    serve-IsSound (unknown ∷ rest) s (skips lawful) sound =
        serve-IsSound rest (receive host names flags others s) lawful (receive-IsSound s sound)
    serve-IsSound (raised reply thread task exception ∷ rest) s (traps _ _ _ _ fits lawful) sound =
        let t = receive host names flags others s in
        let r = serve_message host names flags others reply thread task exception t in
        let after =
          serve_message-IsSound reply thread task exception t fits (receive-IsSound s sound) in
        serve_next-IsSound (λ u. serve host names flags others rest u) r.0 r.1 after
          (serve-IsSound rest r.1 lawful after)

    main_end-IsSound :
        (o : Option ℕ) (s : Server K) → IsSound s → IsSound (main_end host names flags others o s).1
    unfolding main_end
    main_end-IsSound none s sound = finish-IsSound s sound
    main_end-IsSound (some status) s sound = sound

    main_serve-IsSound :
        (start : Start) (messages : List Message) (s : Server K)
        → start ≡ serves
        → Lawful messages s
        → IsSound s
        → IsSound (main_serve host names flags others start messages s).1
    unfolding main_serve
    main_serve-IsSound (exits n) messages s up lawful sound = absurd (ground arith)
    main_serve-IsSound serves messages s up lawful sound =
        main_end-IsSound _ _ (serve-IsSound messages s lawful sound)

    -- A run of the emulator that gets to the workers and receives fair messages keeps the table
    -- sound from its first process to its end.
    pub main-IsSound :
        (args envp : List (List ℕ)) (messages : List Message) (k : K)
        → let started = main_start host flags args envp (initial k) in
          started.0 ≡ serves
          → Lawful messages started.1
          → IsSound (main host names flags others args envp messages (initial k)).1
    unfolding main
    main-IsSound args envp messages k up lawful =
        main_serve-IsSound started.0 messages started.1 up lawful
          (sound_of (main_start-Sole host flags args envp k))
      where
        started : Start × Server K
        started = main_start host flags args envp (initial k)

        sound_of : Started (read_options no_options args).1 started → IsSound started.1
        sound_of (inl (e, none_left)) = absurd (ground arith)
        sound_of (inr (inl e)) = absurd (ground arith)
        sound_of (inr (inr (e, sound, sole))) = sound
