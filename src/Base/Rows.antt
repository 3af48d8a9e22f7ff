-- ===== src/Base/Rows.antt =====
-- A test that every row of a table passes, under the writes of a repository.
use mathlib.Core.Path.{◌≡◌, refl}
use mathlib.Core.Logic.{inl, inr}
use mathlib.Core.Bool.{Bool, true}
use mathlib.Core.Option.{some}
use mathlib.Core.List.{List, [], ◌∷◌, ◌++◌}
use native.Mathlib.Omega.{arith}
use budget_backend.Base.Tests.{Bool-cases}
use budget_backend.Base.Table.{every, find_one, update_where, delete_where}

module _ {ℓ} {R : Type ℓ} (p : R → Bool) where
  pub every-insert :
      (rs : List R) (x : R) → every p rs ≡ true → p x ≡ true → every p (rs ++ (x ∷ [])) ≡ true
  every-insert [] x h hx = ground arith
  every-insert (r ∷ rs) x h hx = let rest = every-insert rs x (ground arith) hx in ground arith

  pub every-update_where :
      (q : R → Bool) (f : R → R) (rs : List R)
      → every p rs ≡ true
      → ((r : R) → p r ≡ true → p (f r) ≡ true)
      → every p (update_where q f rs) ≡ true
  every-update_where q f [] h keep = refl
  every-update_where q f (r ∷ rs) h keep =
      let rest = every-update_where q f rs (ground arith) keep in
      let one = keep r (ground arith) in
      elim (Bool-cases (q r)) [ inl hit ↦ ground arith | inr miss ↦ ground arith ]

  pub every-delete_where :
      (q : R → Bool) (rs : List R) → every p rs ≡ true → every p (delete_where q rs) ≡ true
  every-delete_where q [] h = refl
  every-delete_where q (r ∷ rs) h =
      let rest = every-delete_where q rs (ground arith) in ground arith

  pub every-find_one :
      (q : R → Bool) (rs : List R) {r : R} → every p rs ≡ true → find_one q rs ≡ some r → p r ≡ true
  every-find_one q [] h found = cc
  every-find_one q (x ∷ rs) {r = r} h found = elim (Bool-cases (q x)) [
    | inl hit ↦ ground arith
    | inr miss ↦ every-find_one q rs {r = r} (ground arith) (ground arith)
  ]
