-- ===== src/Base/Search.antt =====
-- `for (i = 0; i < n; i++) if (p(i)) return i;`, which the process and descriptor tables use.
use Prim.Native.Nat.{ℕ, zero, suc, ◌+◌, ◌≤◌, ◌<◌}
use mathlib.Core.Path.{◌≡◌}
use mathlib.Core.Logic.{◌⊎◌, inl, inr}
use mathlib.Core.Bool.{Bool, true, false}
use mathlib.Core.Option.{Option, none, some}
use native.Mathlib.Omega.{arith}

unfoldable pub first_from : (ℕ → Bool) → (k i : ℕ) → Option ℕ
first_from p zero i = none
first_from p (suc k) i = elim (p i) [ true ↦ some i | false ↦ first_from p k (suc i) ]

unfoldable pub first_index : (ℕ → Bool) → ℕ → Option ℕ
unfolding first_from
first_index p n = first_from p n 0

pub first_from-holds :
    (p : ℕ → Bool) (k i j : ℕ) → first_from p k i ≡ some j → (p j ≡ true) × (i ≤ j) × (j < i + k)
unfolding first_from
first_from-holds p zero i j e = ground arith
first_from-holds p (suc k) i j e = ground (arith, first_from-holds p k (suc i) j)

pub eq-or-lt : (i m : ℕ) → i ≤ m → (i ≡ m) ⊎ (suc i ≤ m)
eq-or-lt i m h = grind arith

pub first_from-least :
    (p : ℕ → Bool) (k i j m : ℕ) → first_from p k i ≡ some j → i ≤ m → m < j → p m ≡ false
unfolding first_from
first_from-least p zero i j m e lo hi = ground arith
first_from-least p (suc k) i j m e lo hi = elim (eq-or-lt i m lo) [
  | inl same ↦ rw (← same) (ground arith)
  | inr later ↦ ground (arith, first_from-least p k (suc i) j m)
]

pub first_from-none :
    (p : ℕ → Bool) (k i m : ℕ) → first_from p k i ≡ none → i ≤ m → m < i + k → p m ≡ false
unfolding first_from
first_from-none p zero i m e lo hi = absurd (omega arith)
first_from-none p (suc k) i m e lo hi = elim (eq-or-lt i m lo) [
  | inl same ↦ rw (← same) (ground arith)
  | inr later ↦ ground (arith, first_from-none p k (suc i) m)
]

pub first_index-holds : (p : ℕ → Bool) (n j : ℕ) → first_index p n ≡ some j → (p j ≡ true) × (j < n)
unfolding first_index
first_index-holds p n j e = ground (arith, first_from-holds p n 0 j)

pub first_index-least : (p : ℕ → Bool) (n j m : ℕ) → first_index p n ≡ some j → m < j → p m ≡ false
unfolding first_index
first_index-least p n j m e h = ground (arith, first_from-least p n 0 j m)

pub first_index-none : (p : ℕ → Bool) (n m : ℕ) → first_index p n ≡ none → m < n → p m ≡ false
unfolding first_index
first_index-none p n m e h = ground (arith, first_from-none p n 0 m)
