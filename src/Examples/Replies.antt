-- ===== src/Examples/Replies.antt =====
-- The replies that the exit of a child sends while its shell is parked in wait4.
use oryx_hurd.Base.{ℕ, ◌≡◌, refl, ◌⊎◌, negsuc, List, [], ◌∷◌, arith}
use oryx_hurd.Process.View.{slot_of, running}
use oryx_hurd.Process.Exit.{proc_exited}
use oryx_hurd.Process.Exit.Sends.{ReplyLaws}
use oryx_hurd.Process.Exit.Answer.{Unanswered, Answered, proc_exited-replies, parked-answered}
use oryx_hurd.Examples.Toy.{Toy, toy}
use oryx_hurd.Examples.Processes.{machine, machine-IsTidy, machine-Inv}

abbrev pub sent : Toy → List ℕ
sent k = k.replies

pub toy-ReplyLaws : ReplyLaws toy sent
toy-ReplyLaws = record {
  send = λ p k. refl;
  malloc_keeps = λ n k. refl;
  protect_keeps = λ t a n p k. refl;
  write_keeps = λ t a d k. refl;
  state_keeps = λ t st k. refl;
  thread_keeps = λ t k. refl;
  task_keeps = λ t k. refl;
  close_keeps = λ h k. refl;
}

proc_exited-replies_example :
    let t = (proc_exited toy 1 3 machine).1 in
    Unanswered sent 101 100 machine t ⊎ Answered sent 101 100 machine t
proc_exited-replies_example =
    proc_exited-replies toy-ReplyLaws 1 3 machine 101 100 refl machine-IsTidy (omega arith)

parked-answered_example :
    let t = (proc_exited toy 1 3 machine).1 in
    (slot_of (t.procs 0) ≡ running 100 0) × (sent t.kernel ≡ 0 ∷ [])
parked-answered_example =
    parked-answered toy-ReplyLaws 1 0 3 machine 101 100 0 (negsuc 0) refl refl refl machine-Inv
      machine-IsTidy (omega arith)
