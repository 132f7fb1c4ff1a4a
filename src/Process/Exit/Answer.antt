-- ===== src/Process/Exit/Answer.antt =====
-- linux-personality/oryxlinux.c: the reply that an exit sends to the parent that waits for it.
use oryx_hurd.Base.{
  ℕ, ◌<◌, ◌≡◌, ◌≢◌, refl, sym, ◌∙◌, ap, fun_ext, inl, inr, ◌⊎◌, true, false, Option, none, some,
  List, ◌∷◌, ℤ, ◌==◌, arith, first_index, first_index-holds, first_index-none,
}
use oryx_hurd.Host.{Host}
use oryx_hurd.Server.{Server, Proc, max_proc}
use oryx_hurd.Fd.{fd_closeall}
use oryx_hurd.Process.View.{slot_of, table, running, parked, accepts}
use oryx_hurd.Process.Invariant.{Inv}
use oryx_hurd.Process.Tidy.{IsTidy}
use oryx_hurd.Process.Exit.{proc_exited, bury, wake_parent, wake_found, awaits}
use oryx_hurd.Process.Exit.Sends.{ReplyLaws, bury-replies, wait_complete-replies}
use oryx_hurd.Process.Exit.Slots.{bury-rest, bury-slots, awaits-parked, wait_complete-slots}

-- Nobody is parked for the child `pid` of `ppid`, and no reply is sent.
abbrev pub Unanswered : {K : Type 0} → (K → List ℕ) → (pid ppid : ℕ) → (s t : Server K) → Type 0
Unanswered replies pid ppid s t =
    ((j grand : ℕ) (target : ℤ)
      → j < max_proc
      → slot_of (s.procs j) ≡ parked ppid grand target
      → accepts target pid ≡ false)
    × (replies t.kernel ≡ replies s.kernel)

-- Slot `q` is parked for the child, and the reply that it waits for is sent.
abbrev pub Answered : {K : Type 0} → (K → List ℕ) → (pid ppid : ℕ) → (s t : Server K) → Type 0
Answered replies pid ppid s t =
    (q : ℕ) × (grand : ℕ) × (target : ℤ) × (slot_of (s.procs q) ≡ parked ppid grand target)
    × (accepts target pid ≡ true)
    × (slot_of (t.procs q) ≡ running ppid grand)
    × (replies t.kernel ≡ (s.procs q).wait_reply ∷ replies s.kernel)

not_awaited :
    (p q : Proc) (pid ppid grand : ℕ) (target : ℤ)
    → slot_of p ≡ running pid ppid
    → slot_of q ≡ parked ppid grand target
    → awaits p q ≡ false
    → accepts target pid ≡ false
unfolding awaits
not_awaited p q pid ppid grand target up parks none_waits = ground arith

module _ {K : Type 0} {host : Host K} {replies : K → List ℕ} (laws : ReplyLaws host replies) where
  bury-waits :
      (p status : ℕ) (s : Server K) (j : ℕ)
      → let t = (bury host p status s).1 in
        (awaits (t.procs p) (t.procs j) ≡ awaits (s.procs p) (s.procs j))
        × ((t.procs j).wait_reply ≡ (s.procs j).wait_reply)
        × ((t.procs j).pid ≡ (s.procs j).pid)
        × ((t.procs j).ppid ≡ (s.procs j).ppid)
  unfolding bury fd_closeall awaits
  bury-waits p status s j = (ground arith, ground arith, ground arith, ground arith)

  -- `o` is what the search for a parked parent finds.
  wake_found-replies :
      (p status : ℕ) (s : Server K) (pid ppid : ℕ) (o : Option ℕ)
      → slot_of (s.procs p) ≡ running pid ppid
      → IsTidy s
      → first_index (λ i. awaits (s.procs p) (s.procs i)) max_proc ≡ o
      → let t = (wake_found host p o (bury host p status s).1).1 in
        Unanswered replies pid ppid s t ⊎ Answered replies pid ppid s t
  unfolding wake_found
  wake_found-replies p status s pid ppid none up tidy e = inl (
    (λ j grand target small parks.
        not_awaited (s.procs p) (s.procs j) pid ppid grand target up parks
          (first_index-none _ max_proc j e small)),
    bury-replies laws p status s,
  )
  wake_found-replies p status s pid ppid (some q) up tidy e =
      let found = first_index-holds _ max_proc q e in
      let parks = awaits-parked (s.procs p) (s.procs q) found.0 (tidy.waits q) in
      let t = (bury host p status s).1 in
      let waits = bury-waits p status s q in
      let ne : p ≢ q = λ same. ground (arith, ap (λ i. slot_of (s.procs i)) same) in
      let live : slot_of (t.procs q) ≡ parked ppid (s.procs q).ppid (s.procs q).wait_for =
        bury-slots host p status s q (ground arith) ∙ ground (arith, parks, ne) in
      inr (
        q,
        (s.procs q).ppid,
        (s.procs q).wait_for,
        ground (arith, parks),
        ground (arith, parks),
        wait_complete-slots host q p t q (ground (arith, live)) (ground (arith, live))
            ∙ ground (arith, parks, waits, ne),
        wait_complete-replies laws q p t
            ∙ ap (λ r. r ∷ replies t.kernel) waits.1
            ∙ ap (λ l. (s.procs q).wait_reply ∷ l) (bury-replies laws p status s),
      )

  -- The exit of a process other than the root answers no message if nobody is parked for it, and
  -- otherwise the one that a parent parked for it has withheld, and no other.
  pub proc_exited-replies :
      (p status : ℕ) (s : Server K) (pid ppid : ℕ)
      → slot_of (s.procs p) ≡ running pid ppid
      → IsTidy s
      → p ≢ s.root
      → Unanswered replies pid ppid s (proc_exited host p status s).1
        ⊎ Answered replies pid ppid s (proc_exited host p status s).1
  unfolding proc_exited wake_parent
  proc_exited-replies p status s pid ppid up tidy other =
      rw (not_root, found, proc_exited, wake_parent)
        (wake_found-replies p status s pid ppid _ up tidy refl)
    where
      t : Server K
      t = (bury host p status s).1

      not_root : (p == t.root) ≡ false
      not_root = ground (arith, bury-rest host p status s)

      found :
          first_index (λ i. awaits (t.procs p) (t.procs i)) max_proc
          ≡ first_index (λ i. awaits (s.procs p) (s.procs i)) max_proc
      found = ap (λ f. first_index f max_proc) (fun_ext (λ i. (bury-waits p status s i).0))

  -- A parent that is parked for a child is answered when the child exits: the reply that its wait4
  -- has withheld is sent, no other is, and the parent runs again.
  pub parked-answered :
      (p q status : ℕ) (s : Server K) (pid ppid grand : ℕ) (target : ℤ)
      → slot_of (s.procs p) ≡ running pid ppid
      → slot_of (s.procs q) ≡ parked ppid grand target
      → accepts target pid ≡ true
      → Inv (table s)
      → IsTidy s
      → p ≢ s.root
      → let t = (proc_exited host p status s).1 in
        (slot_of (t.procs q) ≡ running ppid grand)
        × (replies t.kernel ≡ (s.procs q).wait_reply ∷ replies s.kernel)
  parked-answered p q status s pid ppid grand target up parks fits inv tidy other =
      elim (proc_exited-replies p status s pid ppid up tidy other) [
        | inl (alone, same) ↦ absurd (ground (arith, alone q grand target small parks))
        | inr (r, g, to, also, ok, runs, sent) ↦
            let one : r ≡ q = inv.distinct r q ppid (ground arith) (ground arith) in
            let same_slot = ap (λ i. slot_of (s.procs i)) one in
            (
              sym (ap (λ i. slot_of (t.procs i)) one)
                  ∙ runs
                  ∙ ap (λ n. running ppid n) (ground (arith, same_slot, also, parks)),
              sent ∙ ap (λ i. (s.procs i).wait_reply ∷ replies s.kernel) one,
            )
      ]
    where
      t : Server K
      t = (proc_exited host p status s).1

      small : q < max_proc
      small = ground (arith, inv.outside q)
