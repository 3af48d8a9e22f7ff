-- ===== src/Tests/Cycles.antt =====
-- The budget cycle on concrete requests.
use budget_backend.Base.{
  ℕ, none, some, true, ◌≡◌, refl, ◌↔◌, ◌⊎◌, [], ◌∷◌, arith, find_one, is_ok, any,
}
use budget_backend.Entities.Version.{
  DimVersion, ouvert, pre_valide, valide, gele, version_has_id, budget_initial,
}
use budget_backend.Entities.Centre.{StatutCr, en_saisie, is_valide}
use budget_backend.VersionWorkflow.{
  soumettre, valider, publier, soumettre_version, valider_version, publier_version,
}
use budget_backend.VersionWorkflow.Transitions.{
  IsAllowed, HasMoved, executer, executer_iff_IsAllowed, executer-HasMoved,
}
use budget_backend.VersionService.{
  CreateVersionDto, create, scenario_has_exercice, scenario_has_code, code_median,
}
use budget_backend.VersionService.Creation.{create-scenario}
use budget_backend.CrWorkflow.Helpers.{bascule}
use budget_backend.CrWorkflow.Transitions.{valider_cr}
use budget_backend.CrWorkflow.Snapshot.{initialiser_snapshot}
use budget_backend.Cycle.Requests.{version_transition, cr_valider, cr_rouvrir, Request, run}
use budget_backend.Cycle.SnapshotGraph.{is_attendu, bascule_iff}
use budget_backend.Cycle.StatutGraph.{statut_at}
use budget_backend.Cycle.PreValidation.{IsCoherent}
use budget_backend.Cycle.Coherence.{run-IsCoherent}
use budget_backend.Cycle.LateSnapshot.{late_snapshot_breaks}
use budget_backend.Tests.Fixtures.{
  version_in, db_in, user_7, frozen, permissions, perimetre, roles, request,
}

-- The way from a draft to the publication.
abbrev submit : Request
submit = request (version_transition soumettre 1 none "")

abbrev validate_all : Request
validate_all = request (version_transition valider 1 none "")

abbrev publish : Request
publish = request (version_transition publier 1 none "")

-- Version 1 as the three requests leave it.
abbrev published : DimVersion
published = record (version_in 1 gele) {
  date_gel = some 100;
  utilisateur_gel = some "validateur@bsic.ne";
  date_soumission = some 100;
  utilisateur_soumission = some "validateur@bsic.ne";
  date_validation = some 100;
  utilisateur_validation = some "validateur@bsic.ne";
}

run_to_publication :
    find_one
      (version_has_id 1)
      (run (submit ∷ validate_all ∷ publish ∷ []) (db_in ouvert en_saisie)).versions
    ≡ some published
unfolding soumettre_version valider_version publier_version
run_to_publication = refl

-- The last expected centre is validated, the committee is asked, and the centre is reopened first.
abbrev approve : Request
approve = request (cr_valider 1 "CR_AGENCE" none)

abbrev reopen : Request
reopen = request (cr_rouvrir 1 "CR_AGENCE" "erreur")

pre_validated :
    is_ok (valider_cr perimetre 100 1 "CR_AGENCE" none user_7 (db_in ouvert StatutCr.soumis)).0
    ≡ true
unfolding valider_cr bascule
pre_validated = refl

executer_iff_IsAllowed_example :
    (is_ok (executer permissions 100 1 none "" user_7 valider (db_in ouvert en_saisie)).0 ≡ true)
    ↔ ((v : DimVersion) × IsAllowed 1 valider (db_in ouvert en_saisie) v)
executer_iff_IsAllowed_example =
    executer_iff_IsAllowed permissions 100 1 none "" user_7 valider (db_in ouvert en_saisie)

executer-HasMoved_example :
    HasMoved permissions 100 1 none "" user_7 publier
      (db_in valide StatutCr.valide)
      (version_in 1 valide)
      frozen
      (executer permissions 100 1 none "" user_7 publier (db_in valide StatutCr.valide)).1
executer-HasMoved_example =
    executer-HasMoved permissions 100 1 none "" user_7 publier (db_in valide StatutCr.valide)
      (version_in 1 valide) frozen refl (unfold publier_version in refl)

IsCoherent-start : IsCoherent (db_in ouvert StatutCr.soumis)
IsCoherent-start k cr phase there = ground arith

run-IsCoherent_example : IsCoherent (run (approve ∷ reopen ∷ []) (db_in ouvert StatutCr.soumis))
run-IsCoherent_example =
    run-IsCoherent (approve ∷ reopen ∷ []) (db_in ouvert StatutCr.soumis) (tt, (tt, tt))
      IsCoherent-start

bascule_iff_example : (bascule (version_in 1 ouvert) (db_in ouvert StatutCr.valide) ≡ true) ↔ (
    (ouvert ≡ ouvert)
    × ((cr : ℕ) × (is_attendu 1 cr (db_in ouvert StatutCr.valide).attendus ≡ true))
    × ((cr : ℕ)
        → is_attendu 1 cr (db_in ouvert StatutCr.valide).attendus ≡ true
        → is_valide (statut_at 1 cr (db_in ouvert StatutCr.valide).statuts) ≡ true))
bascule_iff_example = bascule_iff (version_in 1 ouvert) (db_in ouvert StatutCr.valide)

late_snapshot_breaks_example :
    ¬ IsCoherent
      (initialiser_snapshot perimetre roles 1 user_7 (db_in pre_valide StatutCr.valide)).1
late_snapshot_breaks_example =
    late_snapshot_breaks submit (db_in pre_valide StatutCr.valide) 1 11 refl refl refl refl refl

abbrev dto : CreateVersionDto
dto = record {
  code_version = "BUDGET_2028";
  libelle = "Budget 2028";
  type_version = budget_initial;
  exercice_fiscal = 2028;
  commentaire = none;
}

create-scenario_example :
    let (r, db') = create 100 user_7 dto (db_in ouvert en_saisie) in
    (is_ok r ≡ true)
    × ((any (scenario_has_exercice 2028) db'.scenarios ≡ true)
        ⊎ (any (scenario_has_code (code_median 2028)) [] ≡ true))
create-scenario_example = create-scenario 100 user_7 dto (db_in ouvert en_saisie) refl
