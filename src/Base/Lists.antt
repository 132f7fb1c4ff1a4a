-- ===== src/Base/Lists.antt =====
-- Reading a list of bytes that was cut and joined.
use Prim.Native.Nat.{ℕ, zero, suc, ◌+◌, ◌-◌, ◌≤◌, min}
use mathlib.Core.Path.{◌≡◌, refl, ap}
use mathlib.Core.List.{List, [], ◌∷◌, ◌++◌}
use native.Mathlib.Omega.{arith}
use oryx_hurd.Base.Tests.{ltb, if◌then◌else◌, length, get_or, take, drop, replicate}

pub length-take {ℓ} : {A : Type ℓ} (n : ℕ) (xs : List A) → length (take n xs) ≡ min n (length xs)
length-take zero xs = omega arith
length-take (suc n) [] = omega arith
length-take (suc n) (x ∷ xs) = omega (arith, length-take n xs)

pub length-drop {ℓ} : {A : Type ℓ} (n : ℕ) (xs : List A) → length (drop n xs) ≡ length xs - n
length-drop zero xs = omega arith
length-drop (suc n) [] = omega arith
length-drop (suc n) (x ∷ xs) = omega (arith, length-drop n xs)

pub get_or-take :
    (n : ℕ) (xs : List ℕ) (i d : ℕ)
    → get_or (take n xs) i d ≡ (if ltb i n then get_or xs i d else d)
get_or-take zero xs i d = ground arith
get_or-take (suc n) [] i d = ground arith
get_or-take (suc n) (x ∷ xs) zero d = ground arith
get_or-take (suc n) (x ∷ xs) (suc i) d = ground (arith, get_or-take n xs i d)

pub get_or-drop : (n : ℕ) (xs : List ℕ) (i d : ℕ) → get_or (drop n xs) i d ≡ get_or xs (n + i) d
get_or-drop zero xs i d = ap (λ k. get_or xs k d) (omega arith)
get_or-drop (suc n) [] i d = refl
get_or-drop (suc n) (x ∷ xs) i d = ground (arith, get_or-drop n xs i d)

pub get_or-append :
    (xs ys : List ℕ) (i d : ℕ)
    → get_or (xs ++ ys) i d
      ≡ (if ltb i (length xs) then get_or xs i d else get_or ys (i - length xs) d)
get_or-append [] ys i d = ground arith
get_or-append (x ∷ xs) ys zero d = ground arith
get_or-append (x ∷ xs) ys (suc i) d = ground (arith, get_or-append xs ys i d)

pub get_or-replicate : (n i d : ℕ) → get_or (replicate n d) i d ≡ d
get_or-replicate zero i d = refl
get_or-replicate (suc n) zero d = refl
get_or-replicate (suc n) (suc i) d = get_or-replicate n i d

pub get_or-beyond : (xs : List ℕ) (i d : ℕ) → length xs ≤ i → get_or xs i d ≡ d
get_or-beyond [] i d h = refl
get_or-beyond (x ∷ xs) zero d h = absurd (omega arith)
get_or-beyond (x ∷ xs) (suc i) d h = get_or-beyond xs i d (omega arith)
