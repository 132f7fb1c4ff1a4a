-- ===== src/Serve/Finish.antt =====
-- linux-personality/oryxlinux.c: what finish terminates.
use oryx_hurd.Base.{
  ℕ, zero, suc, ◌+◌, ◌≡◌, refl, ap, Bool, true, false, ◌&&◌, List, [], ◌∷◌, pos, St, pure, ◌>>◌,
  if◌then◌else◌, arith, ltb, leb, ◌==◌,
}
use oryx_hurd.Host.{Host}
use oryx_hurd.Server.{Server, Proc, max_proc}
use oryx_hurd.Serve.{finish_loop, finish, exit_status}

abbrev pub is_living : Proc → Bool
is_living p = p.used && p.alive

-- The slots from `i` on whose processes live, in order.
unfoldable pub living : (ℕ → Proc) → (k i : ℕ) → List ℕ
living procs zero i = []
living procs (suc k) i =
    let rest = living procs k (suc i) in if is_living (procs i) then i ∷ rest else rest

module _ {K : Type 0} (host : Host K) where
  -- The thread and the task of each slot of the list are terminated.
  unfoldable pub terminate_each : (ℕ → Proc) → List ℕ → K → K
  terminate_each procs [] k = k
  terminate_each procs (i ∷ is) k =
      terminate_each procs is
        (host.task_terminate (procs i).task (host.thread_terminate (procs i).thread k).1).1

unfoldable pub count : ℕ → List ℕ → ℕ
count j [] = 0
count j (i ∷ rest) = (if i == j then 1 else 0) + count j rest

count-living :
    (procs : ℕ → Proc) (k i j : ℕ)
    → count j (living procs k i)
      ≡ (if (leb i j && ltb j (i + k)) && is_living (procs j) then 1 else 0)
unfolding count living
count-living procs zero i j = ground arith
count-living procs (suc k) i j = ground (arith, count-living procs k (suc i) j, same)
  where
    same : i ≡ j → is_living (procs i) ≡ is_living (procs j)
    same e = ap (λ n. is_living (procs n)) e

module _ {K : Type 0} (host : Host K) where
  finish_loop-living :
      (procs : ℕ → Proc) (k i : ℕ) (kernel : K)
      → (finish_loop host k i procs kernel).1 ≡ terminate_each host procs (living procs k i) kernel
  unfolding finish_loop living terminate_each
  finish_loop-living procs zero i kernel = refl
  finish_loop-living procs (suc k) i kernel =
      by_life (is_living (procs i)) (λ kernel. finish_loop-living procs k (suc i) kernel)
    where
      ends : St K (Unit {0})
      ends = host.thread_terminate (procs i).thread >> host.task_terminate (procs i).task

      by_life :
          (b : Bool)
          → ((kernel : K)
              → (finish_loop host k (suc i) procs kernel).1
                ≡ terminate_each host procs (living procs k (suc i)) kernel)
          → (finish_loop host k (suc i) procs ((if b then ends else pure tt) kernel).1).1
            ≡ terminate_each host procs
                (let rest = living procs k (suc i) in if b then i ∷ rest else rest)
                kernel
      by_life true later = later (ends kernel).1
      by_life false later = later kernel

  -- finish terminates the thread and then the task of every process in use that is alive, once and
  -- in the order of their slots, and of no other; its status is the guest's unless that is negative.
  pub finish_lem :
      (s : Server K)
      → let r = finish host s in
        (r.1.kernel ≡ terminate_each host s.procs (living s.procs max_proc 0) s.kernel)
        × ((j : ℕ)
            → count j (living s.procs max_proc 0)
              ≡ (if ltb j max_proc && is_living (s.procs j) then 1 else 0))
        × ((n : ℕ) → s.guest_status ≡ pos n → r.0 ≡ n)
  unfolding finish
  finish_lem s = (
    finish_loop-living s.procs max_proc 0 s.kernel,
    (λ j. ground (arith, count-living s.procs max_proc 0 j)),
    (λ n e. ap exit_status e),
  )
