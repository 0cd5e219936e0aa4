-- ===== src/Prelude/Partial.antt =====
-- The state monad with a way not to return: `none` is a loop that has used up its fuel, or an
-- access outside of an object.
use mathlib.Core.Option.{Option, none, some}
use bg96_driver.Prelude.State.{St}

abbrev pub Partial : Type 0 → Type 0 → Type 0
Partial S A = S → Option (A × S)

module _ {S : Type 0} where
  abbrev pub return : {A : Type 0} → A → Partial S A
  return a s = some (a, s)

  -- A call that always returns.
  abbrev pub call : {A : Type 0} → St S A → Partial S A
  call m s = some (m s)

  infixl 5 ◌>>=◌ ◌>>◌
  abbrev pub ◌>>=◌ : {A B : Type 0} → Partial S A → (A → Partial S B) → Partial S B
  ◌>>=◌ m f s = elim (m s) [ none ↦ none | some (a, s') ↦ f a s' ]

  abbrev pub ◌>>◌ : {A B : Type 0} → Partial S A → Partial S B → Partial S B
  ◌>>◌ m k = m >>= λ _. k
