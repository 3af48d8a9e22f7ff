-- ===== src/VersionService/Creation.antt =====
-- The creation of a version and the scenario that it brings along (`create`, hook Q9).
use budget_backend.Base.{
  suc, ℕ, none, some, Bool, true, false, ◌≡◌, ◌⊎◌, inl, inr, List, [], ◌∷◌, ◌++◌, refl, arith,
  find_one, any, count_where, is_ok, Bool-cases, ◌==◌,
}
use budget_backend.Entities.{Db, AuthUser}
use budget_backend.Entities.Version.{DimVersion, DimScenario}
use budget_backend.VersionService.{
  CreateVersionDto, create, version_has_code, scenario_has_code, scenario_has_exercice, code_median,
  scenario_median,
}

count-any :
    (p : DimScenario → Bool) (xs : List DimScenario)
    → (count_where p xs == 0) ≡ false
    → any p xs ≡ true
count-any p [] h = cc
count-any p (x ∷ xs) h = ground (arith, count-any p xs)

find-any :
    (p : DimScenario → Bool) (xs : List DimScenario) → (find_one p xs ≡ none) ⊎ (any p xs ≡ true)
find-any p [] = inl refl
find-any p (x ∷ xs) = ground (arith, find-any p xs)

any-append :
    (p : DimScenario → Bool) (xs : List DimScenario) (x : DimScenario)
    → p x ≡ true
    → any p (xs ++ (x ∷ [])) ≡ true
any-append p [] x h = rw h
any-append p (y ∷ xs) x h = ground (arith, any-append p xs x)

module _ (now : ℕ) (utilisateur : AuthUser) (dto : CreateVersionDto) (db : Db) where
  create_fails :
      {v : DimVersion}
      → find_one (version_has_code dto.code_version) db.versions ≡ some v
      → is_ok (create now utilisateur dto db).0 ≡ false
  unfolding create
  create_fails found = ground arith

  -- The creation of a version whose code is free succeeds. Afterwards its fiscal year has a
  -- scenario, or a scenario with the year's default code stood there before.
  pub create-scenario :
      find_one (version_has_code dto.code_version) db.versions ≡ none
      → let (r, db') = create now utilisateur dto db in
        (is_ok r ≡ true)
        × ((any (scenario_has_exercice dto.exercice_fiscal) db'.scenarios ≡ true)
            ⊎ (any (scenario_has_code (code_median dto.exercice_fiscal)) db.scenarios ≡ true))
  unfolding create
  create-scenario free =
      elim (Bool-cases
        (count_where (scenario_has_exercice dto.exercice_fiscal) db.scenarios == 0)) [
          | inl none_yet ↦
              elim (find-any (scenario_has_code (code_median dto.exercice_fiscal)) db.scenarios) [
                | inl free_code ↦ (
                  ground arith,
                  ground (
                    arith,
                    any-append (scenario_has_exercice dto.exercice_fiscal) db.scenarios
                        (scenario_median now utilisateur (suc db.prochain_id) dto),
                  ),
                )
                | inr taken ↦ (ground arith, inr taken)
              ]
          | inr some_yet ↦ (
            ground arith,
            ground (
              arith,
              count-any (scenario_has_exercice dto.exercice_fiscal) db.scenarios some_yet,
            ),
          )
        ]
