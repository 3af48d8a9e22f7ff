-- ===== src/Budget/SaisieUnitaire.antt =====
-- The lock of a submitted or validated centre does not hold for single lines: fait-budget.service.ts
-- tests the version alone.
use budget_backend.Base.{
  ℕ, ◌≡◌, none, some, Bool, true, false, arith, ok, is_ok, find_one, find_one-delete_where_self,
  Result-cases, inl, inr,
}
use budget_backend.Entities.{Db, AuthUser}
use budget_backend.Entities.Version.{DimVersion, StatutVersion, version_has_id}
use budget_backend.Entities.Centre.{CrStatut, StatutCr}
use budget_backend.Entities.Ligne.{LigneBudget, ligne_has_id}
use budget_backend.Interfaces.{PermissionsService, PerimetreService}
use budget_backend.CrWorkflow.Helpers.{assert_cr_modifiable, find_statut, is_autorise}
use budget_backend.Budget.Referentiels.{Referentiels}
use budget_backend.Budget.Rapport.{GrilleEntree}
use budget_backend.Budget.Lignes.{CreateFaitBudgetDto, supprimer_ligne, delete_ligne}
use budget_backend.Budget.Grille.{centre_a_saisir, save_grille_saisie}
use budget_backend.Budget.Verrou.{centre_a_saisir-reads}

module _ (permissions : PermissionsService) (perimetre : PerimetreService) (ref : Referentiels)
    (fks : CreateFaitBudgetDto → Bool) (now : ℕ) (user : AuthUser) (db : Db) where
  save_grille_saisie-verrouille :
      (dto : GrilleEntree) (s : CrStatut)
      → find_statut dto.version_id dto.cr_id db ≡ some s
      → s.statut ≡ StatutCr.valide
      → is_ok (save_grille_saisie permissions perimetre ref now dto user db).0 ≡ false
  unfolding save_grille_saisie assert_cr_modifiable
  save_grille_saisie-verrouille dto s found at =
      let reads = centre_a_saisir-reads permissions perimetre ref now dto user db in
      elim (Result-cases (centre_a_saisir perimetre dto user db).0) [
        | inr (x, failed) ↦ ground (arith, failed)
        | inl (cr, checked) ↦ ground (arith, reads, checked, found, at)
      ]

  -- While the version is open, a line of a centre whose input is VALIDE is deleted by its number, by a
  -- user who has the centre in his perimeter; the grid of that centre is refused to him.
  pub delete_ligne-verrouille :
      (id : ℕ) (dto : GrilleEntree) {l : LigneBudget} {v : DimVersion} {s : CrStatut}
      → find_one (ligne_has_id id) db.lignes ≡ some l
      → find_one (version_has_id l.fk_version) db.versions ≡ some v
      → v.statut ≡ StatutVersion.ouvert
      → is_autorise (perimetre.cr_autorises_pour_user user.user_id) l.fk_centre ≡ true
      → dto.version_id ≡ l.fk_version
      → dto.cr_id ≡ l.fk_centre
      → find_statut l.fk_version l.fk_centre db ≡ some s
      → s.statut ≡ StatutCr.valide
      → ((delete_ligne perimetre ref.comptes fks now id user db).0 ≡ ok tt)
        × (find_one
              (ligne_has_id id)
              (delete_ligne perimetre ref.comptes fks now id user db).1.lignes
            ≡ none)
        × (is_ok (save_grille_saisie permissions perimetre ref now dto user db).0 ≡ false)
  unfolding delete_ligne supprimer_ligne
  delete_ligne-verrouille id dto {s = s} found v_found ouverte permitted same_v same_c status at =
      let gone = find_one-delete_where_self (ligne_has_id id) db.lignes in
      let locked = save_grille_saisie-verrouille dto s (rw (same_v, same_c) status) at in
      (ground arith, ground (arith, gone), locked)
