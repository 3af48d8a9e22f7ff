-- ===== src/Tests/Budget.antt =====
-- A grid of three cells, runs of the calls on budget lines, and the theorems at them.
use budget_backend.Base.{
  ℕ, ◌≡◌, refl, none, some, true, false, [], ◌∷◌, ok, err, is_ok, pos, ◌↔◌, find_one, every,
}
use budget_backend.Entities.{Db, find_version, date_invalide, depassement_numerique}
use budget_backend.Entities.Version.{DimScenario, StatutVersion, DimVersion, central, actif}
use budget_backend.Entities.Centre.{StatutCr, DimCentre}
use budget_backend.Entities.Ligne.{ModeSaisie, ligne_has_id}
use budget_backend.CrWorkflow.Helpers.{assert_cr_modifiable}
use budget_backend.Budget.Referentiels.{Referentiels, DimCompte, DimTemps}
use budget_backend.Budget.Montants.{mensualiser_montant}
use budget_backend.Budget.Lignes.{UpdateFaitBudgetDto, delete_ligne}
use budget_backend.Budget.Rapport.{
  CelluleEntree, LigneEntree, GrilleEntree, Rapport, temps_pas_premier, inseree, ignoree,
}
use budget_backend.Budget.Cellule.{resoudre_fk_defauts, is_stockable}
use budget_backend.Budget.Grille.{
  save_grille_saisie, centre_a_saisir, ecrire_lignes, ecrire_ligne, ecrire_cellules, ecrire_cellule,
}
use budget_backend.Budget.Acceptation.{is_ligne_entrable}
use budget_backend.Budget.Comptage.{IsCompte, save_grille_saisie-IsCompte}
use budget_backend.Budget.Verrou.{IsSaisissable, save_grille_saisie_iff_IsSaisissable}
use budget_backend.Budget.Saisies.{
  saisie_patch, saisie_grille, Contexte, run_saisies, run_saisies-are_coherentes,
}
use budget_backend.Budget.Coherence.{are_coherentes}
use budget_backend.Budget.Reprise.{ecrire_cellule-ignoree}
use budget_backend.Budget.Doubles.{
  un, ecart, double, of_decimal, fois, fois_10000, sur_12, math_round,
}
use budget_backend.Budget.SaisieUnitaire.{delete_ligne-verrouille}
use budget_backend.Tests.Fixtures.{
  db_in, statut_10, user_7, permissions, perimetre, version_in, ligne_12, centre_10,
}

abbrev scenario_2 : DimScenario
scenario_2 = record {
  id = 2;
  code_scenario = "CENTRAL_2027";
  libelle = "Central 2027";
  type_scenario = central;
  statut = actif;
  commentaire = none;
  exercice_fiscal = some 2027;
  date_creation = 1;
  utilisateur_creation = "admin@bsic.ne";
}

abbrev base : StatutCr → Db
base statut = record (db_in StatutVersion.ouvert statut) { scenarios = scenario_2 ∷ [] }

-- Account 42 bears interest; June and July begin on the days 600 and 630.
abbrev ref : Referentiels
ref = record {
  comptes = record { id = 42; est_porteur_interets = true } ∷ [];
  temps =
      record { id = 6; date = 600; jour = 1; mois = 6; annee = 2027 }
      ∷ record { id = 7; date = 630; jour = 1; mois = 7; annee = 2027 }
      ∷ record { id = 8; date = 631; jour = 2; mois = 7; annee = 2027 }
      ∷ [];
  devises = record { id = 1; code_iso = "XOF" } ∷ [];
  produits =
      record {
        id = 1;
        code_produit = "PRODUIT_TRANSVERSE";
        rang_code = 1;
        niveau = 1;
        version_courante = true;
        est_actif = true;
      }
      ∷ [];
  segments = record { id = 1; rang_code = 1; version_courante = true; est_actif = true } ∷ [];
  lignes_metier = 5 ∷ [];
}

abbrev cellule : ℕ → ℕ → CelluleEntree
cellule mois montant = record {
  mois = some mois;
  montant = pos montant;
  mode_saisie = none;
  encours_moyen = none;
  tie = none;
  commentaire = none;
}

-- June deleted, July entered by its outstanding amount at 8.5 %, a day that begins no month
abbrev grille : GrilleEntree
grille = record {
  version_id = 1;
  scenario_id = 2;
  cr_id = 10;
  lignes =
      record {
        compte_id = 42;
        ligne_metier_id = 5;
        cellules =
            cellule 600 0
            ∷ record (cellule 630 0) {
              mode_saisie = some ModeSaisie.encours_tie;
              encours_moyen = some 12000000;
              tie = some 850;
            }
            ∷ cellule 631 70000
            ∷ [];
      }
      ∷ [];
}

abbrev rapport : Rapport
rapport = record {
  total_cellules = 3;
  inserees = 1;
  modifiees = 0;
  supprimees = 1;
  ignorees = 0;
  erreurs = record { ligne_index = 0; mois = some 631; code = temps_pas_premier } ∷ [];
}

grille_saved :
    (save_grille_saisie permissions perimetre ref 100 grille user_7 (base StatutCr.en_saisie)).0
    ≡ ok rapport
unfolding save_grille_saisie centre_a_saisir ecrire_lignes ecrire_ligne ecrire_cellules
    ecrire_cellule resoudre_fk_defauts find_version assert_cr_modifiable mensualiser_montant
    is_stockable un ecart double of_decimal fois fois_10000 sur_12 math_round
grille_saved = refl

save_grille_saisie-IsCompte_example : IsCompte 3 rapport
save_grille_saisie-IsCompte_example =
    save_grille_saisie-IsCompte permissions perimetre ref 100 grille user_7
      (base StatutCr.en_saisie) {r = rapport} grille_saved

grille_entrable : every (is_ligne_entrable ref) grille.lignes ≡ true
unfolding is_stockable mensualiser_montant un ecart double of_decimal fois fois_10000 sur_12
    math_round
grille_entrable = refl

save_grille_saisie_iff_IsSaisissable_example :
    (is_ok
        (save_grille_saisie permissions perimetre ref 100 grille user_7 (base StatutCr.en_saisie)).0
      ≡ true)
    ↔ ((v : DimVersion) × (c : DimCentre) × (s : DimScenario) × IsSaisissable permissions perimetre
          ref 100 grille user_7
          (base StatutCr.en_saisie)
          v
          c
          s)
save_grille_saisie_iff_IsSaisissable_example =
    save_grille_saisie_iff_IsSaisissable permissions perimetre ref 100 grille user_7
      (base StatutCr.en_saisie) grille_entrable

-- A month that is no day, and an amount that numeric(20,4) does not hold
abbrev grille_de : CelluleEntree → GrilleEntree
grille_de c = record grille {
  lignes = record { compte_id = 42; ligne_metier_id = 5; cellules = c ∷ [] } ∷ [];
}

grille_refusee :
    ((save_grille_saisie permissions perimetre ref 100
        (grille_de (record (cellule 600 1) { mois = none }))
        user_7
        (base StatutCr.en_saisie)).0
      ≡ err date_invalide)
    × ((save_grille_saisie permissions perimetre ref 100
          (grille_de (cellule 600 100_000_000_000_000_000_000))
          user_7
          (base StatutCr.en_saisie)).0
        ≡ err depassement_numerique)
unfolding save_grille_saisie centre_a_saisir ecrire_lignes ecrire_ligne ecrire_cellules
    ecrire_cellule resoudre_fk_defauts find_version assert_cr_modifiable is_stockable
grille_refusee = (refl, refl)

abbrev contexte : Contexte
contexte = record {
  permissions = permissions;
  perimetre = perimetre;
  ref = ref;
  fks_connues = λ dto. true;
  now = 100;
  user = user_7;
}

-- The line of June is put in mode ENCOURS_TIE; its amount is then the figures'.
abbrev bascule_juin : UpdateFaitBudgetDto
bascule_juin = record {
  has_fk = false;
  montant_devise = none;
  montant_fcfa = none;
  taux_change_applique = none;
  mode_saisie = some ModeSaisie.encours_tie;
  encours_moyen = some (some 12000000);
  tie = some (some 850);
  commentaire = none;
}

run_saisies-are_coherentes_example :
    are_coherentes (
      run_saisies
        ((contexte, saisie_patch 12 bascule_juin) ∷ (contexte, saisie_grille grille) ∷ [])
        (base StatutCr.en_saisie))
    ≡ true
run_saisies-are_coherentes_example =
    run_saisies-are_coherentes
      ((contexte, saisie_patch 12 bascule_juin) ∷ (contexte, saisie_grille grille) ∷ [])
      (base StatutCr.en_saisie) refl

-- 1 200 at 8.5 % are 8.5 a month. 1 234 at 0.03 % are 0.03085, which JavaScript rounds down, since
-- its product is a little less.
mensualites :
    (mensualiser_montant 12000000 850 ≡ 85000)
    × (mensualiser_montant 12340000 3 ≡ 308)
    × (mensualiser_montant 0 850 ≡ 0)
unfolding mensualiser_montant un ecart double of_decimal fois fois_10000 sur_12 math_round
mensualites = (refl, refl, refl)

delete_ligne-verrouille_example :
    ((delete_ligne perimetre ref.comptes contexte.fks_connues 100 12 user_7
        (base StatutCr.valide)).0
      ≡ ok tt)
    × (find_one
          (ligne_has_id 12)
          (delete_ligne perimetre ref.comptes contexte.fks_connues 100 12 user_7
            (base StatutCr.valide)).1.lignes
        ≡ none)
    × (is_ok
          (save_grille_saisie permissions perimetre ref 100 grille user_7 (base StatutCr.valide)).0
        ≡ false)
delete_ligne-verrouille_example =
    delete_ligne-verrouille permissions perimetre ref contexte.fks_connues 100 user_7
      (base StatutCr.valide) 12 grille {l = ligne_12} {v = version_in 1 StatutVersion.ouvert}
      {s = statut_10 StatutCr.valide} refl refl refl refl refl refl refl refl

abbrev cellule_juillet : CelluleEntree
cellule_juillet = record (cellule 630 0) {
  mode_saisie = some ModeSaisie.encours_tie;
  encours_moyen = some 12000000;
  tie = some 850;
}

abbrev ligne_42 : LigneEntree
ligne_42 = record { compte_id = 42; ligne_metier_id = 5; cellules = cellule_juillet ∷ [] }

abbrev compte_42 : DimCompte
compte_42 = record { id = 42; est_porteur_interets = true }

abbrev juillet : DimTemps
juillet = record { id = 7; date = 630; jour = 1; mois = 7; annee = 2027 }

juillet_inseree :
    (ecrire_cellule ref grille centre_10 100 "saisisseur@bsic.ne" compte_42 ligne_42 cellule_juillet
      (some juillet)
      (base StatutCr.en_saisie)).0
    ≡ ok inseree
unfolding ecrire_cellule resoudre_fk_defauts mensualiser_montant is_stockable un ecart double
    of_decimal fois fois_10000 sur_12 math_round
juillet_inseree = refl

ecrire_cellule-ignoree_example :
    ecrire_cellule ref grille centre_10 200 "autre@bsic.ne" compte_42 ligne_42 cellule_juillet
      (some juillet)
      (ecrire_cellule ref grille centre_10 100 "saisisseur@bsic.ne" compte_42 ligne_42
        cellule_juillet
        (some juillet)
        (base StatutCr.en_saisie)).1
    ≡ (
      ok ignoree,
      (ecrire_cellule ref grille centre_10 100 "saisisseur@bsic.ne" compte_42 ligne_42
          cellule_juillet
          (some juillet)
          (base StatutCr.en_saisie)).1,
    )
ecrire_cellule-ignoree_example =
    ecrire_cellule-ignoree ref grille centre_10 compte_42 ligne_42 cellule_juillet juillet 100 200
      "saisisseur@bsic.ne" "autre@bsic.ne" (base StatutCr.en_saisie) {issue = inseree} refl
      juillet_inseree
