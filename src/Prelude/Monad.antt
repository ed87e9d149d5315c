-- ===== src/Prelude/Monad.antt =====
-- Rust's `Result`, and the state monad of methods that take `&mut self` and return a `Result`.
use mathlib.Core.Option.{Option, none, some}

pub data Result {ℓ κ} (A : Type ℓ) (E : Type κ) : Type (ℓ ⊔ κ) where
  ok : A → Result A E
  err : E → Result A E

module _ {ℓ κ} {A : Type ℓ} {E : Type κ} where
  abbrev pub and_then {μ} : {B : Type μ} → Result A E → (A → Result B E) → Result B E
  and_then (ok a) f = f a
  and_then (err e) f = err e

  abbrev pub map_err {μ} : {F : Type μ} → Result A E → (E → F) → Result A F
  map_err (ok a) f = ok a
  map_err (err e) f = err (f e)

  abbrev pub ok_or : Option A → E → Result A E
  ok_or none e = err e
  ok_or (some a) e = ok a

-- The state that a failing call leaves is not kept: no caller looks at it again.
abbrev pub M : Type 0 → Type 0 → Type 0 → Type 0
M E S A = S → Result (A × S) E

unfoldable pub pure : {E S A : Type 0} → A → M E S A
pure a s = ok (a, s)

infixl 5 ◌>>=◌ ◌>>◌
unfoldable pub ◌>>=◌ : {E S A B : Type 0} → M E S A → (A → M E S B) → M E S B
◌>>=◌ m f s = elim (m s) [ ok (a, s') ↦ f a s' | err e ↦ err e ]

abbrev pub ◌>>◌ : {E S B : Type 0} → M E S (Unit {0}) → M E S B → M E S B
m >> k = m >>= λ _. k
