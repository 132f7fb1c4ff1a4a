-- ===== src/Syscall/Io/Keeps.antt =====
-- linux-personality/oryxlinux.c: read, write, readv, writev and nanosleep keep every property of the
-- state that survives a change of the kernel's state and the time while the lock is free.
use oryx_hurd.Base.{
  ℕ, zero, suc, ◌+◌, ◌*◌, ◌%◌, ◌^◌, Bool, true, false, Option, none, some, List, [], ◌∷◌, ℤ, pos,
  negsuc, neg, St, pure, ◌>>=◌, ◌==◌, if◌then◌else◌, min, max, ltb,
}
use oryx_hurd.Host.{Host, Outcome, ok, fail}
use oryx_hurd.Server.{Server, me, lift, unlocked}
use oryx_hurd.Memory.{peek}
use oryx_hurd.Fd.{hfd}
use oryx_hurd.Errno.{HostErrno, linux_einval}
use oryx_hurd.Syscall.Clock.{sys_nanosleep}
use oryx_hurd.Syscall.Io.{
  Progress, stop, more, after_transfer, max_io, word_at, linux_enomem, write_bytes, sys_write,
  read_done, sys_read, writev_loop, sys_writev, readv_loop,
}

module _ {K : Type 0} (P : Server K → Type 0) where
  pub branch-holds :
      {A : Type 0} (b : Bool) (f g : St (Server K) A) (s : Server K)
      → P (f s).1
      → P (g s).1
      → P ((if b then f else g) s).1
  branch-holds true f g s left right = left
  branch-holds false f g s left right = right

  pub option-holds :
      {A B : Type 0} (o : Option B) (x : A × Server K) (f : B → A × Server K)
      → P x.1
      → ((b : B) → P (f b).1)
      → P (elim o as (λ _. A × Server K) [ none ↦ x | some b ↦ f b ]).1
  option-holds none x f left right = left
  option-holds (some b) x f left right = right b

  pub pick-holds :
      {A : Type 0} (b : Bool) (x y : A × Server K) → P x.1 → P y.1 → P (if b then x else y).1
  pick-holds true x y left right = left
  pick-holds false x y left right = right

  cases-holds :
      {A : Type 0} (b : Bool) (x y : A × Server K)
      → P x.1
      → P y.1
      → P (elim b as (λ _. A × Server K) [ true ↦ x | false ↦ y ]).1
  cases-holds true x y left right = left
  cases-holds false x y left right = right

  progress-holds :
      (p : Progress) (f : ℤ → ℤ × Server K) (g : ℕ → ℤ × Server K)
      → ((v : ℤ) → P (f v).1)
      → ((t : ℕ) → P (g t).1)
      → P (elim p as (λ _. ℤ × Server K) [ stop v ↦ f v | more t ↦ g t ]).1
  progress-holds (stop v) f g left right = left v
  progress-holds (more t) f g left right = right t

module _ {K : Type 0} (others : Server K → Server K) (P : Server K → Type 0)
    (quiet_kernel : (s : Server K) (k : K) → P s → P (record s { kernel = k }))
    (through : (A : Type 0) (f : St K A) (s : Server K) → P s → P (unlocked others f s).1) where
  module _ (host : Host K) (names : HostErrno) where
    write_bytes-holds :
        (fd : ℤ) (o : Option (List ℕ)) (s : Server K)
        → P s
        → P (write_bytes host names others fd o s).1
    unfolding write_bytes
    write_bytes-holds fd none s sound = sound
    write_bytes-holds fd (some bytes) s sound = through _ (host.write fd bytes) s sound

    pub sys_write-holds :
        (fd : ℤ) (buf len : ℕ) (s : Server K) → P s → P (sys_write host names others fd buf len s).1
    unfolding sys_write
    sys_write-holds (negsuc n) buf len s sound = sound
    sys_write-holds (pos fd) buf len s sound =
        let size = min len max_io in
        let got = lift (host.malloc (max size 1)) s in
        let t = got.1 in
        let calm = quiet_kernel s t.kernel sound in
        branch-holds P got.0
          (λ t. write_bytes host names others (pos fd) (peek host (me t).task buf size t.kernel) t)
          (pure (neg linux_enomem)) t (write_bytes-holds (pos fd) _ t calm) calm

    read_done-holds :
        (buf : ℕ) (r : Outcome (List ℕ)) (s : Server K)
        → P s
        → P (read_done host names others buf r s).1
    unfolding read_done
    read_done-holds buf (fail e) s sound = sound
    read_done-holds buf (ok []) s sound = sound
    read_done-holds buf (ok (b ∷ bytes)) s sound = quiet_kernel s _ sound

    pub sys_read-holds :
        (fd : ℤ) (buf len : ℕ) (s : Server K) → P s → P (sys_read host names others fd buf len s).1
    unfolding sys_read
    sys_read-holds (negsuc n) buf len s sound = sound
    sys_read-holds (pos fd) buf len s sound =
        let size = min len max_io in
        let got = lift (host.malloc (max size 1)) s in
        let t = got.1 in
        let calm = quiet_kernel s t.kernel sound in
        let r = unlocked others (host.read (pos fd) size) t in
        branch-holds P got.0
          (unlocked others (host.read (pos fd) size) >>= λ r. read_done host names others buf r)
          (pure (neg linux_enomem)) t
          (read_done-holds buf r.0 r.1 (through _ (host.read (pos fd) size) t calm)) calm

    writev_loop-holds :
        (fd : ℤ) (vec k i total : ℕ) (s : Server K)
        → P s
        → P (writev_loop host names others fd vec k i total s).1
    unfolding writev_loop
    writev_loop-holds fd vec zero i total s sound = sound
    writev_loop-holds fd vec (suc k) i total s sound =
        option-holds P (peek host (me s).task ((vec + i * 8) % 2 ^ 32) 8 s.kernel) _ _ sound (λ iov.
          cases-holds P (word_at iov 4 == 0) _ _ (writev_loop-holds fd vec k (suc i) total s sound)
            (let r = sys_write host names others fd (word_at iov 0) (word_at iov 4) s in
              let after = sys_write-holds fd (word_at iov 0) (word_at iov 4) s sound in
              progress-holds P (after_transfer total (word_at iov 4) r.0) _ _ (λ v. after)
                (λ t. writev_loop-holds fd vec k (suc i) t r.1 after)))

    pub sys_writev-holds :
        (fd : ℤ) (vec cnt : ℕ) (s : Server K)
        → P s
        → P (sys_writev host names others fd vec cnt s).1
    unfolding sys_writev
    sys_writev-holds fd vec cnt s sound =
        pick-holds P (ltb 1024 cnt) (neg linux_einval, s) _ sound
          (writev_loop-holds fd vec cnt 0 0 s sound)

    pub readv_loop-holds :
        (gfd vec k i total : ℕ) (s : Server K)
        → P s
        → P (readv_loop host names others gfd vec k i total s).1
    unfolding readv_loop
    readv_loop-holds gfd vec zero i total s sound = sound
    readv_loop-holds gfd vec (suc k) i total s sound =
        option-holds P (peek host (me s).task ((vec + i * 8) % 2 ^ 32) 8 s.kernel) _ _ sound (λ iov.
          let r = sys_read host names others (hfd (me s) gfd) (word_at iov 0) (word_at iov 4) s in
          let after = sys_read-holds (hfd (me s) gfd) (word_at iov 0) (word_at iov 4) s sound in
          progress-holds P (after_transfer total (word_at iov 4) r.0) _ _ (λ v. after)
            (λ t. readv_loop-holds gfd vec k (suc i) t r.1 after))

    pub sys_nanosleep-holds :
        (addr : ℕ) (s : Server K) → P s → P (sys_nanosleep host names others addr s).1
    unfolding sys_nanosleep
    sys_nanosleep-holds addr s sound =
        option-holds P (peek host (me s).task addr 8 s.kernel) _ _ sound
          (λ ts. through _ (host.nanosleep (word_at ts 0) (word_at ts 4)) s sound)
