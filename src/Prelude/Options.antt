-- ===== src/Prelude/Options.antt =====
-- Options as the source's `Option` methods use them.
use mathlib.Core.Bool.{Bool, true, false}
use mathlib.Core.Option.{Option, none, some}

module _ {ℓ} {A : Type ℓ} where
  abbrev pub is_some : Option A → Bool
  is_some none = false
  is_some (some a) = true

  abbrev pub is_none : Option A → Bool
  is_none none = true
  is_none (some a) = false

  -- `is_some_and`
  abbrev pub is_some_and : (A → Bool) → Option A → Bool
  is_some_and p none = false
  is_some_and p (some a) = p a

  -- `get_or_insert_with`, and `unwrap_or` as the option it leaves.
  abbrev pub or_some : Option A → A → Option A
  or_some none d = some d
  or_some (some a) d = some a

  -- `unwrap_or_else`
  abbrev pub or_else : Option A → A → A
  or_else none d = d
  or_else (some a) d = a

infixl 5 ◌>>=◌
abbrev pub ◌>>=◌ {ℓ κ} : {A : Type ℓ} {B : Type κ} → Option A → (A → Option B) → Option B
none >>= f = none
some a >>= f = f a
