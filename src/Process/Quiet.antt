-- ===== src/Process/Quiet.antt =====
-- linux-personality/oryxlinux.c: operations that leave the life of every process as it was.
use oryx_hurd.Base.{
  ℕ, ◌≡◌, ◌∙◌, ap, sym, Bool, true, false, Option, none, some, ℤ, if◌then◌else◌, arith,
}
use oryx_hurd.Server.{Server, Proc}
use oryx_hurd.Process.View.{Slot, free, running, parked, zombie, idle}
use oryx_hurd.Process.History.{IsSound, step-IsSound}

-- The fields of struct proc on which fork, exit and wait4 rely, two globals, and what the worker
-- knows of its message.
pub record Sketch : Type 0 where
  pub used : Bool
  pub alive : Bool
  pub reaped : Bool
  pub waiting : Bool
  pub pid : ℕ
  pub ppid : ℕ
  pub status : ℕ
  pub wait_for : ℤ
  pub root : ℕ
  pub next_pid : ℕ
  pub cur : ℕ
  pub defer_reply : Bool

abbrev pub sketch_of : Proc → (root next_pid cur : ℕ) → Bool → Sketch
sketch_of p root next_pid cur defer_reply = record {
  used = p.used;
  alive = p.alive;
  reaped = p.reaped;
  waiting = p.waiting;
  pid = p.pid;
  ppid = p.ppid;
  status = p.status;
  wait_for = p.wait_for;
  root = root;
  next_pid = next_pid;
  cur = cur;
  defer_reply = defer_reply;
}

abbrev pub slot_of_sketch : Sketch → Slot
slot_of_sketch p =
    if p.used
    then (if p.alive
        then (if p.waiting then parked p.pid p.ppid p.wait_for else running p.pid p.ppid)
        else zombie p.pid p.ppid p.status)
    else free

module _ {K : Type 0} where
  abbrev pub sketch : Server K → ℕ → Sketch
  sketch s j = sketch_of (s.procs j) s.root s.next_pid s.cur s.defer_reply

  abbrev pub Quiet : Server K → Server K → Type 0
  Quiet s t = (j : ℕ) → sketch t j ≡ sketch s j

  -- The same for the process table alone, where the worker turns to another process.
  abbrev life : Server K → ℕ → Sketch
  life s j = sketch_of (s.procs j) s.root s.next_pid 0 false

  abbrev pub Alike : Server K → Server K → Type 0
  Alike s t = (j : ℕ) → life t j ≡ life s j

  pub Alike-IsSound : (s t : Server K) → Alike s t → IsSound s → IsSound t
  Alike-IsSound s t alike sound =
      step-IsSound
        (idle (λ j. ap (λ k. slot_of_sketch k) (alike j))
          (omega (arith, ap (λ k. k.next_pid) (alike 0))))
        (record {
          waits = λ j u v.
              ap (λ k. k.alive) (alike j)
              ∙ sound.tidy.waits j (sym (ap (λ k. k.used) (alike j)) ∙ u)
                  (sym (ap (λ k. k.waiting) (alike j)) ∙ v);
          kept = λ j u.
              ap (λ k. k.reaped) (alike j)
              ∙ sound.tidy.kept j (sym (ap (λ k. k.used) (alike j)) ∙ u);
        })
        (ap (λ k. k.root) (alike 0)) sound

  pub Quiet-IsSound : (s t : Server K) → Quiet s t → IsSound s → IsSound t
  Quiet-IsSound s t quiet =
      Alike-IsSound s t
        (λ j. ap {A = Sketch} (λ k. record k { cur = 0; defer_reply = false }) (quiet j))

  module _ {A : Type 0} (s : Server K) where
    -- Both branches of a test are quiet.
    pub pick-Quiet :
        (b : Bool) (x y : A × Server K) → Quiet s x.1 → Quiet s y.1 → Quiet s (if b then x else y).1
    pick-Quiet true x y left right = left
    pick-Quiet false x y left right = right

    pub option-Quiet :
        {B : Type 0} (o : Option B) (x : A × Server K) (f : B → A × Server K)
        → Quiet s x.1
        → ((b : B) → Quiet s (f b).1)
        → Quiet s (elim o as (λ _. A × Server K) [ none ↦ x | some b ↦ f b ]).1
    option-Quiet none x f left right = left
    option-Quiet (some b) x f left right = right b
