-- ===== src/Dispatch/Served.antt =====
-- linux-personality/oryxlinux.c: the reply of serve to one exception message.
use oryx_hurd.Base.{ℕ, ◌≡◌, ◌⊎◌, Option, none, some, List, ◌∷◌, ◌>>=◌, ◌>>◌}
use oryx_hurd.Host.{Host, Regs}
use oryx_hurd.Server.{Server}
use oryx_hurd.Process.{proc_by_task}
use oryx_hurd.Dispatch.Number.{call_of, waitpid}
use oryx_hurd.Dispatch.Owed.{Parked}

-- The process of the task had called wait4 and is parked until a child exits.
abbrev pub Deferred : {K : Type 0} → Host K → (reply thread task : ℕ) → (s t : Server K) → Type 0
Deferred host reply thread task s t =
    (p : ℕ) × (proc_by_task task s ≡ some p)
    × (st : Regs) × (host.thread_get_state thread s.kernel ≡ some st)
    × (call_of st.eax ≡ waitpid)
    × Parked reply p t

-- What one round of serve does with the reply: `s` is the state before it, `t` the one that the
-- routine leaves and `r` the end of the round; `replies` are the ports that replies went to. Either
-- one more reply goes out, to the port of the message, or it is withheld from a parked caller, and
-- the round ends as the routine has left the server.
abbrev pub Served :
    {K : Type 0}
    → Host K
    → (K → List ℕ)
    → (reply thread task : ℕ) → (s t : Server K) → Option (Unit {0}) × Server K
    → Type 0
Served host replies reply thread task s t r =
    ((r.0 ≡ some tt) × (replies r.1.kernel ≡ reply ∷ replies t.kernel))
    ⊎ ((r.0 ≡ none) × (r.1 ≡ t) × Deferred host reply thread task s r.1)
