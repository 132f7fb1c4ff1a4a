-- ===== src/Process/Exit/Sends.antt =====
-- linux-personality/oryxlinux.c: the replies that bury and wait_complete send.
use oryx_hurd.Base.{
  ℕ, ◌≡◌, refl, ◌∙◌, ap, Bool, true, false, Option, none, some, List, [], ◌∷◌, ◌-◌, pure, ◌>>=◌,
  ◌==◌, if◌then◌else◌, arith, length, St,
}
use oryx_hurd.Host.{Host, Regs}
use oryx_hurd.Server.{Server, Proc, max_fd, set_proc}
use oryx_hurd.Memory.{poke, poke_alloc, poke_pages, page_span, page_down}
use oryx_hurd.Fd.{fd_closeall}
use oryx_hurd.Fd.Close.{close_each, held, fd_closeall_lem}
use oryx_hurd.Process.{word_bytes, exit_word}
use oryx_hurd.Process.Exit.{bury, wait_complete, wake, write_status, return_pid, wait_regs}

-- The kernel keeps the replies sent so far, the newest first; nothing else sends one.
pub record ReplyLaws {K : Type 0} (host : Host K) (replies : K → List ℕ) : Type 0 where
  pub send : (p : ℕ) (k : K) → replies (host.send_reply p k).1 ≡ p ∷ replies k
  pub malloc_keeps : (n : ℕ) (k : K) → replies (host.malloc n k).1 ≡ replies k
  pub protect_keeps : (t a n p : ℕ) (k : K) → replies (host.vm_protect t a n p k).1 ≡ replies k
  pub write_keeps : (t a : ℕ) (d : List ℕ) (k : K) → replies (host.vm_write t a d k).1 ≡ replies k
  pub state_keeps :
      (t : ℕ) (st : Regs) (k : K) → replies (host.thread_set_state t st k).1 ≡ replies k
  pub thread_keeps : (t : ℕ) (k : K) → replies (host.thread_terminate t k).1 ≡ replies k
  pub task_keeps : (t : ℕ) (k : K) → replies (host.task_terminate t k).1 ≡ replies k
  pub close_keeps : (h : ℕ) (k : K) → replies (host.close h k).1 ≡ replies k

module _ {K : Type 0} {host : Host K} {replies : K → List ℕ} (laws : ReplyLaws host replies) where
  poke_alloc-replies :
      (task p0 span off : ℕ) (bytes : List ℕ) (got : Bool) (k : K)
      → replies (poke_alloc host task p0 span off bytes got k).1 ≡ replies k
  unfolding poke_alloc poke_pages
  poke_alloc-replies task p0 span off bytes false k = refl
  poke_alloc-replies task p0 span off bytes true k =
      laws.write_keeps task p0 _ (host.vm_protect task p0 span 3 k).1
      ∙ laws.protect_keeps task p0 span 3 k

  poke-replies :
      (task addr : ℕ) (bytes : List ℕ) (k : K) → replies (poke host task addr bytes k).1 ≡ replies k
  unfolding poke
  poke-replies task addr bytes k = by_length (length bytes == 0)
    where
      span : ℕ
      span = page_span addr (length bytes)

      write : Bool → St K Bool
      write = poke_alloc host task (page_down addr) span (addr - page_down addr) bytes

      by_length :
          (b : Bool)
          → replies ((if b then pure true else (host.malloc span >>= write)) k).1 ≡ replies k
      by_length true = refl
      by_length false =
          let got = host.malloc span k in
          poke_alloc-replies task _ span _ bytes got.0 got.1 ∙ laws.malloc_keeps span k

  write_status-replies :
      (parent child : Proc) (k : K) → replies (write_status host parent child k).1 ≡ replies k
  unfolding write_status
  write_status-replies parent child k = by_addr (parent.wait_status_addr == 0)
    where
      by_addr :
          (b : Bool)
          → replies
              ((if b
                  then pure false
                  else poke host parent.task parent.wait_status_addr
                      (word_bytes (exit_word child.status)))
                k).1
            ≡ replies k
      by_addr true = refl
      by_addr false = poke-replies parent.task parent.wait_status_addr _ k

  return_pid-replies :
      (parent child : Proc) (k : K) → replies (return_pid host parent child k).1 ≡ replies k
  unfolding return_pid
  return_pid-replies parent child k = by_state (host.thread_get_state parent.thread k)
    where
      by_state :
          (o : Option Regs)
          → replies
              (elim o as (λ _. Bool × K) [
                | none ↦ (false, k)
                | some st ↦ host.thread_set_state parent.thread (wait_regs child.pid st) k
              ]).1
            ≡ replies k
      by_state none = refl
      by_state (some st) = laws.state_keeps parent.thread _ k

  wake-replies :
      (parent child : Proc) (k : K)
      → replies (wake host parent child k).1 ≡ parent.wait_reply ∷ replies k
  unfolding wake
  wake-replies parent child k =
      let a = write_status host parent child k in
      let b = return_pid host parent child a.1 in
      ground (
        arith,
        laws.send parent.wait_reply b.1,
        return_pid-replies parent child a.1,
        write_status-replies parent child k,
      )

  close_each-replies : (hs : List ℕ) (k : K) → replies (close_each host hs k) ≡ replies k
  unfolding close_each
  close_each-replies [] k = refl
  close_each-replies (h ∷ hs) k = close_each-replies hs (host.close h k).1 ∙ laws.close_keeps h k

  pub bury-replies :
      (p status : ℕ) (s : Server K) → replies (bury host p status s).1.kernel ≡ replies s.kernel
  unfolding bury
  bury-replies p status s =
      let dead = (set_proc p (λ r. record r { alive = false; status = status }) s).1 in
      let t = (fd_closeall host p dead).1 in
      let a = (host.thread_terminate (t.procs p).thread t.kernel).1 in
      laws.task_keeps _ a
      ∙ laws.thread_keeps _ t.kernel
      ∙ ap replies (fd_closeall_lem host p dead).0
      ∙ close_each-replies (held (dead.procs p).fd max_fd 0) s.kernel

  pub wait_complete-replies :
      (q p : ℕ) (t : Server K)
      → replies (wait_complete host q p t).1.kernel ≡ (t.procs q).wait_reply ∷ replies t.kernel
  unfolding wait_complete
  wait_complete-replies q p t = wake-replies (t.procs q) (t.procs p) t.kernel
