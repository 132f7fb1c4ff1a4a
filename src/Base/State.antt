-- ===== src/Base/State.antt =====
-- Explicit state passing: a command reads and changes a state and has a result.

abbrev pub St : Type 0 → Type 0 → Type 0
St S A = S → A × S

module _ {S : Type 0} where
  abbrev pub pure : {A : Type 0} → A → St S A
  pure a s = (a, s)

  infixl 5 ◌>>=◌ ◌>>◌
  abbrev pub ◌>>=◌ : {A B : Type 0} → St S A → (A → St S B) → St S B
  ◌>>=◌ m f s = let r = m s in f r.0 r.1

  abbrev pub ◌>>◌ : {A B : Type 0} → St S A → St S B → St S B
  ◌>>◌ m k s = let r = m s in k r.1

  abbrev pub modify : (S → S) → St S (Unit {0})
  modify f s = (tt, f s)

  abbrev pub gets : {A : Type 0} → (S → A) → St S A
  gets f s = (f s, s)
