-- ===== src/Prelude/State.antt =====
-- The state monad: a method of a C++ object is a function from the state to its result and the
-- new state.
use mathlib.Core.Bool.{Bool, true, false}

abbrev pub St : Type 0 → Type 0 → Type 0
St S A = S → A × S

module _ {S : Type 0} where
  abbrev pub pure : {A : Type 0} → A → St S A
  pure a s = (a, s)

  infixl 5 ◌>>=◌ ◌>>◌
  abbrev pub ◌>>=◌ : {A B : Type 0} → St S A → (A → St S B) → St S B
  ◌>>=◌ m f s = let (a, s') = m s in f a s'

  abbrev pub ◌>>◌ : {A B : Type 0} → St S A → St S B → St S B
  ◌>>◌ m k s = let (a, s') = m s in k s'

  -- `a && b` on calls: the second is made only if the first gives true.
  infixr 35 ◌and_then◌
  abbrev pub ◌and_then◌ : St S Bool → St S Bool → St S Bool
  ◌and_then◌ m k s = let (b, s') = m s in elim b [ true ↦ k s' | false ↦ (false, s') ]

  -- A statement under an `if`.
  abbrev pub when : Bool → St S (Unit {0}) → St S (Unit {0})
  when true m s = m s
  when false m s = (tt, s)
