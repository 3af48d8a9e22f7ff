-- ===== src/Base/Table.antt =====
-- A database table as the list of its rows, with the repository calls that the services use:
-- `findOne`, `find`, `count`, `update` and `delete` with a `where` clause, `save` and `insert`.
use Prim.Native.Nat.{ℕ, suc}
use mathlib.Core.Path.{◌≡◌, refl}
use mathlib.Core.Logic.{inl, inr}
use mathlib.Core.Bool.{Bool, true, false, ◌&&◌}
use mathlib.Core.Option.{Option, none, some}
use mathlib.Core.List.{List, [], ◌∷◌, ◌++◌}
use native.Mathlib.Omega.{arith}
use budget_backend.Base.Tests.{if◌then◌else◌, Bool-cases}

module _ {ℓ} {R : Type ℓ} where
  -- `findOne({ where })`
  abbrev pub find_one : (R → Bool) → List R → Option R
  find_one p [] = none
  find_one p (r ∷ rs) = if p r then some r else find_one p rs

  -- `find({ where })`, also Array.filter
  abbrev pub find_all : (R → Bool) → List R → List R
  find_all p [] = []
  find_all p (r ∷ rs) = if p r then r ∷ find_all p rs else find_all p rs

  -- `update({ where }, changes)`, and `save` of a row that is stored already
  abbrev pub update_where : (R → Bool) → (R → R) → List R → List R
  update_where p f [] = []
  update_where p f (r ∷ rs) = (if p r then f r else r) ∷ update_where p f rs

  -- `delete({ where })`
  abbrev pub delete_where : (R → Bool) → List R → List R
  delete_where p [] = []
  delete_where p (r ∷ rs) = if p r then delete_where p rs else r ∷ delete_where p rs

  abbrev pub length : List R → ℕ
  length [] = 0
  length (r ∷ rs) = suc (length rs)

  -- `SELECT COUNT(*) ... WHERE`
  abbrev pub count_where : (R → Bool) → List R → ℕ
  count_where p [] = 0
  count_where p (r ∷ rs) = if p r then suc (count_where p rs) else count_where p rs

  -- Array.some and Array.every
  abbrev pub any : (R → Bool) → List R → Bool
  any p [] = false
  any p (r ∷ rs) = if p r then true else any p rs

  abbrev pub every : (R → Bool) → List R → Bool
  every p [] = true
  every p (r ∷ rs) = p r && every p rs

  abbrev pub or_else : Option R → Option R → Option R
  or_else none o = o
  or_else (some r) o = some r

  abbrev pub map_option : (R → R) → Option R → Option R
  map_option f none = none
  map_option f (some r) = some (f r)

module _ {ℓ} {R : Type ℓ} where
  -- A row that is found passes the test.
  pub find_one_sound : (p : R → Bool) (rs : List R) {r : R} → find_one p rs ≡ some r → p r ≡ true
  find_one_sound p [] e = cc
  find_one_sound p (x ∷ rs) e = elim (Bool-cases (p x)) [
    | inl hit ↦ ground (arith, find_one_sound p rs)
    | inr miss ↦ find_one_sound p rs (rw miss at e)
  ]

  -- An update that keeps the rows' standing under `p` shows through `find_one p`.
  pub find_one-update_where :
      (p q : R → Bool) (f : R → R) (rs : List R)
      → ((r : R) → q r ≡ true → p (f r) ≡ p r)
      → find_one p (update_where q f rs) ≡ map_option (λ r. if q r then f r else r) (find_one p rs)
  find_one-update_where p q f [] h = refl
  find_one-update_where p q f (r ∷ rs) h = ground (arith, h r, find_one-update_where p q f rs h)

  pub find_one-append :
      (p : R → Bool) (rs ts : List R)
      → find_one p (rs ++ ts) ≡ or_else (find_one p rs) (find_one p ts)
  find_one-append p [] ts = refl
  find_one-append p (r ∷ rs) ts = ground (arith, find_one-append p rs ts)

  -- A deletion of rows that `p` does not look for does not show through `find_one p`.
  pub find_one-delete_where :
      (p q : R → Bool) (rs : List R)
      → ((r : R) → q r ≡ true → p r ≡ false)
      → find_one p (delete_where q rs) ≡ find_one p rs
  find_one-delete_where p q [] h = refl
  find_one-delete_where p q (r ∷ rs) h = ground (arith, h r, find_one-delete_where p q rs h)

  pub find_one-delete_where_self :
      (p : R → Bool) (rs : List R) → find_one p (delete_where p rs) ≡ none
  find_one-delete_where_self p [] = refl
  find_one-delete_where_self p (r ∷ rs) = ground (arith, find_one-delete_where_self p rs)

  -- The row that is saved under a key is found under it.
  pub find_one-save :
      (p : R → Bool) (rs : List R) (x : R) {r : R}
      → find_one p rs ≡ some r
      → p x ≡ true
      → find_one p (update_where p (λ _. x) rs) ≡ some x
  find_one-save p [] x found h = cc
  find_one-save p (r ∷ rs) x {r = o} found h = ground (arith, find_one-save p rs x {r = o})
