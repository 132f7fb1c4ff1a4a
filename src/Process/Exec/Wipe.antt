-- ===== src/Process/Exec/Wipe.antt =====
-- linux-personality/oryxlinux.c: wipe_address_space ends.
use oryx_hurd.Base.{
  ℕ, zero, suc, ◌+◌, ◌*◌, ◌%◌, ◌^◌, ◌≤◌, ◌<◌, ◌≡◌, refl, Bool, true, false, Option, none, some, St,
  if◌then◌else◌, arith,
}
use oryx_hurd.Host.{Host}
use oryx_hurd.Memory.{page_size}
use oryx_hurd.Process.Exec.{drop_object, wipe_region, wipe_loop, wipe_address_space}

-- vm_region gives the first mapping that ends above the address; a mapping ends at the end of a page
-- below the end of the address space. One that vm_deallocate has removed is not found again: the
-- next one ends above it.
pub record RegionLaws {K : Type 0} (host : Host K) : Type 0 where
  pub region_place :
      (task addr at size obj : ℕ) (k : K)
      → host.vm_region task addr k ≡ some (at, size, obj)
      → (addr < at + size) × ((at + size) % page_size ≡ 0) × (at + size < 2 ^ 32)
  pub region_gone :
      (task at size at' size' obj : ℕ) (k : K)
      → let r = host.vm_deallocate task at size k in
        r.0 ≡ true → host.vm_region task at r.1 ≡ some (at', size', obj) → at + size < at' + size'

module _ {K : Type 0} {host : Host K} (laws : RegionLaws host) (task : ℕ) where
  -- The first mapping from `addr` on ends above `lo`, which is the end of a page.
  abbrev pub From : (addr lo : ℕ) → K → Type 0
  From addr lo k =
      (lo % page_size ≡ 0)
      × ((at size obj : ℕ) → host.vm_region task addr k ≡ some (at, size, obj) → lo < at + size)

  wipe_region-more :
      (rest more : ℕ → St K (Unit {0})) (addr lo : ℕ) (o : Option (ℕ × ℕ × ℕ)) (k : K)
      → host.vm_region task addr k ≡ o
      → From addr lo k
      → ((next lo' : ℕ) (k' : K)
          → lo + page_size ≤ lo'
          → From next lo' k'
          → more next k' ≡ rest next k')
      → wipe_region host more task o k ≡ wipe_region host rest task o k
  unfolding wipe_region
  wipe_region-more rest more addr lo none k e from ih = refl
  wipe_region-more rest more addr lo (some (at, size, obj)) k e from ih =
      branch (host.vm_deallocate task at size dropped).0 refl
    where
      dropped : K
      dropped = (drop_object host obj k).1

      after : K
      after = (host.vm_deallocate task at size dropped).1

      branch :
          (b : Bool)
          → (host.vm_deallocate task at size dropped).0 ≡ b
          → more (if b then at else (at + size) % 2 ^ 32) after
            ≡ rest (if b then at else (at + size) % 2 ^ 32) after
      branch true done =
          ih at (at + size) after
            (omega (arith, from, from.1 at size obj e, laws.region_place task addr at size obj k e))
            (
              (laws.region_place task addr at size obj k e).1,
              (λ at' size' obj' f. laws.region_gone task at size at' size' obj' dropped done f),
            )
      branch false kept =
          let place = laws.region_place task addr at size obj k e in
          ih ((at + size) % 2 ^ 32) (at + size) after
            (omega (arith, from, from.1 at size obj e, place))
            (
              place.1,
              (λ at' size' obj' f. omega (
                arith,
                place,
                laws.region_place task ((at + size) % 2 ^ 32) at' size' obj' after f,
              )),
            )

  wipe_loop-more :
      (fuel addr lo : ℕ) (k : K)
      → From addr lo k
      → 2 ^ 32 ≤ fuel * page_size + lo
      → wipe_loop host (suc fuel) task addr k ≡ wipe_loop host fuel task addr k
  unfolding wipe_loop wipe_region
  wipe_loop-more zero addr lo k from enough = nothing (host.vm_region task addr k) refl
    where
      nothing :
          (o : Option (ℕ × ℕ × ℕ))
          → host.vm_region task addr k ≡ o
          → wipe_region host (λ at. wipe_loop host zero task at) task o k ≡ (tt, k)
      nothing none e = refl
      nothing (some (at, size, obj)) e =
          absurd (omega (arith, from.1 at size obj e, laws.region_place task addr at size obj k e))
  wipe_loop-more (suc fuel) addr lo k from enough =
      wipe_region-more (λ at. wipe_loop host fuel task at) (λ at. wipe_loop host (suc fuel) task at)
        addr lo _ k refl from
        (λ next lo' k' grow from'. wipe_loop-more fuel next lo' k' from' (omega arith))

  -- Where vm_region and vm_deallocate do what they say, the rounds that wipe_address_space is
  -- given, one for each page of the address space, give the result that one more round gives.
  pub wipe_address_space-enough :
      (k : K) → wipe_loop host (suc (2 ^ 20)) task 0 k ≡ wipe_address_space host task k
  unfolding wipe_address_space
  wipe_address_space-enough k =
      wipe_loop-more (2 ^ 20) 0 0 k
        (refl, (λ at size obj e. (laws.region_place task 0 at size obj k e).0)) (omega arith)
