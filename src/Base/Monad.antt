-- ===== src/Base/Monad.antt =====
-- A service call: it reads and writes the state, and returns or throws. What was written before a
-- throw stays written, unless the call stands in a transaction.
use mathlib.Core.Path.{◌≡◌, refl}
use mathlib.Core.Logic.{◌⊎◌, inl, inr}
use mathlib.Core.Bool.{Bool, true, false}
use mathlib.Core.Option.{Option, none, some}

pub data Result (E A : Type 0) : Type 0 where
  ok : A → Result E A
  err : E → Result E A

abbrev pub Service : Type 0 → Type 0 → Type 0 → Type 0
Service S E A = S → Result E A × S

module _ {S E A : Type 0} where
  abbrev pub pure : A → Service S E A
  pure a s = (ok a, s)

  abbrev pub throw : E → Service S E A
  throw e s = (err e, s)

  abbrev pub gets : (S → A) → Service S E A
  gets f s = (ok (f s), s)

  abbrev pub or_throw : Option A → E → Service S E A
  or_throw none e = throw e
  or_throw (some a) e = pure a

infixl 5 ◌>>=◌ ◌>>◌
abbrev pub ◌>>=◌ : {S E A B : Type 0} → Service S E A → (A → Service S E B) → Service S E B
◌>>=◌ m f s = let (r, s') = m s in elim r [ ok a ↦ f a s' | err e ↦ throw e s' ]

abbrev pub ◌>>◌ : {S E A B : Type 0} → Service S E A → Service S E B → Service S E B
m >> k = m >>= λ _. k

-- `if (!test) throw e;`
abbrev pub require : {S E : Type 0} → Bool → E → Service S E (Unit {0})
require true e s = (ok tt, s)
require false e s = (err e, s)

-- `if (test) { ... }` with no else
abbrev pub when : {S E : Type 0} → Bool → Service S E (Unit {0}) → Service S E (Unit {0})
when true m = m
when false m = pure tt

abbrev pub modify : {S E : Type 0} → (S → S) → Service S E (Unit {0})
modify f s = (ok tt, f s)

-- `dataSource.transaction(...)`: a throw undoes what `undo before after` says, the database.
abbrev pub transaction : {S E A : Type 0} → (S → S → S) → Service S E A → Service S E A
transaction undo m s =
    let (r, s') = m s in elim r [ ok a ↦ (ok a, s') | err e ↦ (err e, undo s s') ]

abbrev pub is_ok : {E A : Type 0} → Result E A → Bool
is_ok (ok a) = true
is_ok (err e) = false

pub Result-cases :
    {E A : Type 0} (r : Result E A) → ((a : A) × (r ≡ ok a)) ⊎ ((e : E) × (r ≡ err e))
Result-cases (ok a) = inl (a, refl)
Result-cases (err e) = inr (e, refl)
