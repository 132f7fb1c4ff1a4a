-- ===== src/Fd/Alloc.antt =====
-- gfd_alloc gives the lowest free descriptor, as Linux promises.
use oryx_hurd.Base.{
  ℕ, ◌<◌, ◌≡◌, refl, ◌⊎◌, inl, inr, true, false, Option, none, some, ℤ, pos, negsuc, is_neg, update,
  first_index, first_index-holds, first_index-least, first_index-none,
}
use oryx_hurd.Host.{Host}
use oryx_hurd.Server.{Server, max_fd, me}
use oryx_hurd.Fd.{gfd_alloc, gfd_place, set_fd}

module _ {K : Type 0} (host : Host K) (h : ℕ) where
  -- Entry `i` was the lowest free one, and only it and the result changed.
  abbrev pub Placed : Server K → ℤ × Server K → ℕ → Type 0
  Placed s r i =
      (i < max_fd)
      × (is_neg ((me s).fd i) ≡ true)
      × ((m : ℕ) → m < i → is_neg ((me s).fd m) ≡ false)
      × (r.0 ≡ pos i)
      × (r.1 ≡ record s { procs = update s.procs s.cur (set_fd i (pos h) (me s)) })

  -- The table was full: the host descriptor is closed and nothing else changes.
  abbrev pub Full : Server K → ℤ × Server K → Type 0
  Full s r =
      ((m : ℕ) → m < max_fd → is_neg ((me s).fd m) ≡ false)
      × (r.0 ≡ negsuc 0)
      × (r.1 ≡ record s { kernel = (host.close h s.kernel).1 })

  place_lem :
      (s : Server K) (o : Option ℕ)
      → first_index (λ i. is_neg ((me s).fd i)) max_fd ≡ o
      → let r = gfd_place host h o s in ((i : ℕ) × Placed s r i) ⊎ Full s r
  unfolding gfd_place
  place_lem s none e = inr ((λ m small. first_index-none _ max_fd m e small), refl, refl)
  place_lem s (some i) e =
      let found = first_index-holds (λ i. is_neg ((me s).fd i)) max_fd i e in
      inl (i, (found.1, found.0, (λ m lt. first_index-least _ max_fd i m e lt), refl, refl))

  -- A host descriptor goes to the lowest free entry of the caller's table and to no other, and
  -- the result is that entry; with every entry taken it is closed on the host, and the result is -1.
  pub gfd_alloc_lem :
      (s : Server K) → let r = gfd_alloc host (pos h) s in ((i : ℕ) × Placed s r i) ⊎ Full s r
  unfolding gfd_alloc
  gfd_alloc_lem s = place_lem s _ refl
