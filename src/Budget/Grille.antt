-- ===== src/Budget/Grille.antt =====
-- budget-saisie.service.ts, `saveGrilleSaisie`: a grid of cells, each an account, a line of business
-- and a month, saved in one transaction. A cell that is refused is reported and the others are saved.
use budget_backend.Base.{
  ℕ, suc, String, Option, none, some, Bool, true, false, not, List, [], ◌∷◌, ◌==◌, ◌&&◌, pure,
  require, or_throw, modify, ◌>>=◌, ◌>>◌, find_one, update_where, delete_where, any, length, ℤ,
  Result, ok, err, if◌then◌else◌,
}
use budget_backend.Entities.{
  AuthUser, Call, in_transaction, find_version, log, saisie_interdite, cr_inactif,
  scenario_introuvable, scenario_archive, fk_inexistante, date_invalide, depassement_numerique,
}
use budget_backend.Entities.Version.{is_ouvert, actif, archive, StatutScenario}
use budget_backend.Entities.Centre.{DimCentre}
use budget_backend.Entities.Ligne.{LigneBudget, ligne_has_id, is_encours_tie}
use budget_backend.Entities.Journal.{TypeAction, Cible, Payload}
use budget_backend.Interfaces.{PermissionsService, budget_saisir, PerimetreService}
use budget_backend.CrWorkflow.Helpers.{assert_cr_autorise, assert_cr_modifiable}
use budget_backend.Budget.Referentiels.{
  Referentiels, DimCompte, DimTemps, compte_has_id, temps_has_date,
}
use budget_backend.Budget.Lignes.{insert_ligne}
use budget_backend.Budget.Rapport.{
  CelluleEntree, LigneEntree, GrilleEntree, CodeErreur, Issue, Rapport, rapport_vide, compter,
  inseree, modifiee, supprimee, ignoree, refusee, compte_inconnu, temps_inconnu, temps_pas_premier,
  compte_non_porteur, encours_tie_incomplet,
}
use budget_backend.Budget.Cellule.{
  FkDefauts, resoudre_fk_defauts, mode_of, is_vide, montant_de, figure_de, is_inchange,
  is_stockable, avec_cellule, cellule_is_of,
}

-- A line whose account is unknown: each of its cells is refused.
unfoldable pub refuser_cellules : ℕ → List CelluleEntree → Rapport → Rapport
refuser_cellules index [] r = r
refuser_cellules index (cell ∷ cells) r =
    refuser_cellules index cells (compter index cell.mois (refusee compte_inconnu) r)

module _ (ref : Referentiels) (dto : GrilleEntree) (cr : DimCentre) (now : ℕ) (email : String) where
  abbrev pub ligne_inseree : ℕ → LigneEntree → ℕ → CelluleEntree → ℤ → FkDefauts → LigneBudget
  ligne_inseree id ligne temps cell m d = record {
    id = id;
    fk_temps = temps;
    fk_compte = ligne.compte_id;
    fk_structure = d.fk_structure;
    fk_centre = dto.cr_id;
    fk_ligne_metier = ligne.ligne_metier_id;
    fk_produit = d.fk_produit;
    fk_segment = d.fk_segment;
    fk_devise = d.fk_devise;
    fk_version = dto.version_id;
    fk_scenario = dto.scenario_id;
    montant_devise = m;
    montant_fcfa = m;
    taux_change_applique = 100000000;
    mode_saisie = mode_of cell;
    encours_moyen = figure_de (mode_of cell) cell.encours_moyen;
    tie = figure_de (mode_of cell) cell.tie;
    commentaire = cell.commentaire;
    date_creation = now;
    utilisateur_creation = email;
    date_modification = none;
    utilisateur_modification = none;
  }

  -- The insertion; the database refuses an amount too large and an unknown line of business.
  abbrev pub inserer :
      LigneEntree → ℕ → CelluleEntree → ℤ → Result CodeErreur FkDefauts → Call Issue
  inserer ligne temps cell m (err code) = pure (refusee code)
  inserer ligne temps cell m (ok d) = do
    require (is_stockable cell m) depassement_numerique
    require (any (λ id. id == ligne.ligne_metier_id) ref.lignes_metier) fk_inexistante
    (λ db. insert_ligne (ligne_inseree db.prochain_id ligne temps cell m d) db)
    pure inseree

  abbrev pub supprimer : Option LigneBudget → Call Issue
  supprimer none = pure ignoree
  supprimer (some e) =
      modify (λ db. record db { lignes = delete_where (ligne_has_id e.id) db.lignes })
      >> pure supprimee

  abbrev pub modifier : CelluleEntree → ℤ → LigneBudget → Call Issue
  modifier cell m e =
      if is_inchange cell m e
      then pure ignoree
      else require (is_stockable cell m) depassement_numerique
        >> modify (λ db. record db {
          lignes = update_where (ligne_has_id e.id) (avec_cellule now email cell m) db.lignes;
        })
        >> pure modifiee

  abbrev pub enregistrer :
      LigneEntree → ℕ → CelluleEntree → Option ℤ → Option LigneBudget → Call Issue
  enregistrer ligne temps cell none existant = pure (refusee encours_tie_incomplet)
  enregistrer ligne temps cell (some m) (some e) = modifier cell m e
  enregistrer ligne temps cell (some m) none =
      inserer ligne temps cell m (resoudre_fk_defauts ref cr.fk_structure)

  -- One cell, its month found or not
  unfoldable pub ecrire_cellule :
      DimCompte → LigneEntree → CelluleEntree → Option DimTemps → Call Issue
  ecrire_cellule compte ligne cell none db = pure (refusee temps_inconnu) db
  ecrire_cellule compte ligne cell (some t) db =
      if not (t.jour == 1)
      then pure (refusee temps_pas_premier) db
      else if is_encours_tie (mode_of cell) && not compte.est_porteur_interets
      then pure (refusee compte_non_porteur) db
      else if is_vide cell
      then supprimer (find_one (cellule_is_of dto ligne t.id) db.lignes) db
      else enregistrer ligne t.id cell
          (montant_de (mode_of cell) cell.montant cell.encours_moyen cell.tie)
          (find_one (cellule_is_of dto ligne t.id) db.lignes) db

  -- The loop over the cells of a line. The query for the month throws where there is no such day.
  unfoldable pub ecrire_cellules :
      ℕ → DimCompte → LigneEntree → List CelluleEntree → Rapport → Call Rapport
  ecrire_cellules index compte ligne [] r = pure r
  ecrire_cellules index compte ligne (cell ∷ cells) r = do
    jour ← (λ db. or_throw cell.mois date_invalide db)
    issue ← ecrire_cellule compte ligne cell (find_one (temps_has_date jour) ref.temps)
    ecrire_cellules index compte ligne cells (compter index cell.mois issue r)

  unfoldable pub ecrire_ligne : ℕ → LigneEntree → Rapport → Option DimCompte → Call Rapport
  ecrire_ligne index ligne r none = pure (refuser_cellules index ligne.cellules r)
  ecrire_ligne index ligne r (some compte) = ecrire_cellules index compte ligne ligne.cellules r

  -- The loop over the lines
  unfoldable pub ecrire_lignes : ℕ → List LigneEntree → Rapport → Call Rapport
  ecrire_lignes index [] r = pure r
  ecrire_lignes index (l ∷ ls) r = do
    r' ← ecrire_ligne index l r (find_one (compte_has_id l.compte_id) ref.comptes)
    ecrire_lignes (suc index) ls r'

abbrev is_archive : StatutScenario → Bool
is_archive actif = false
is_archive archive = true

-- The checks before the transaction; they give the centre.
unfoldable pub centre_a_saisir : PerimetreService → GrilleEntree → AuthUser → Call DimCentre
unfolding find_version
centre_a_saisir perimetre dto user = do
  assert_cr_autorise perimetre dto.cr_id user
  version ← find_version dto.version_id
  require (is_ouvert version.statut) (saisie_interdite version.statut)
  cr ← (λ db. or_throw (find_one (λ c. c.id == dto.cr_id) db.centres) cr_inactif db)
  require (cr.version_courante && cr.est_actif) cr_inactif
  scenario ← (λ db.
      or_throw (find_one (λ s. s.id == dto.scenario_id) db.scenarios) scenario_introuvable db)
  require (not (is_archive scenario.statut)) scenario_archive
  pure cr

-- `saveGrilleSaisie`
unfoldable pub save_grille_saisie :
    PermissionsService
    → PerimetreService
    → Referentiels
    → ℕ
    → GrilleEntree
    → AuthUser
    → Call Rapport
unfolding log
save_grille_saisie permissions perimetre ref now dto user = do
  cr ← centre_a_saisir perimetre dto user
  r ← in_transaction (do
    assert_cr_modifiable dto.version_id dto.cr_id
    ecrire_lignes ref dto cr now user.email 0 dto.lignes rapport_vide)
  log user TypeAction.import_budget (Cible.fait_budget dto.version_id dto.scenario_id dto.cr_id) (
      Payload.saisie_grille r.total_cellules r.inserees r.modifiees r.supprimees r.ignorees
        (length r.erreurs) (permissions.delegation_context_pour user.user_id budget_saisir))
  pure r
