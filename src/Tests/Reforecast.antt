-- ===== src/Tests/Reforecast.antt =====
-- Launches of a reforecast, alone and among the requests of the two workflows.
use budget_backend.Base.{
  decimal, ℕ, ◌≡◌, ◌⊎◌, refl, none, some, true, List, [], ◌∷◌, arith, is_ok, pos, ◌==◌, ◌&&◌,
  count_where, find_one,
}
use budget_backend.Entities.{Db, find_version, log}
use budget_backend.Entities.Version.{
  DimVersion, version_has_id, StatutVersion, MethodeExtrapolation, central, actif,
}
use budget_backend.Entities.Centre.{StatutCr}
use budget_backend.Reforecast.Versions.{
  Realise, LancerReforecastDto, nouvelle_version, is_active, marquer_obsoletes, marquer_obsolete,
}
use budget_backend.Reforecast.Lancement.{
  lancer, remplacer, reforecasts_a_remplacer, insert_reforecast, generer_lignes, insert_lignes,
  lignes_generees,
}
use budget_backend.Reforecast.Marques.{HasUniqueActif}
use budget_backend.Reforecast.Unicite.{Lancement, run_lancements, run_lancements-HasUniqueActif}
use budget_backend.Reforecast.Obsolescence.{DevientObsolete}
use budget_backend.VersionWorkflow.{publier, rejeter}
use budget_backend.Cycle.Graph.{Reste}
use budget_backend.Cycle.Requests.{version_transition}
use budget_backend.Cycle.Publication.{
  Evenement, requete, lancement, survient, run_evenements, Change, survient-Change,
  run_evenements-gele,
}
use budget_backend.Tests.Fixtures.{db_in, version_in, user_7, request}

abbrev base : Db
base = record (db_in StatutVersion.gele StatutCr.valide) {
  scenarios =
      record {
        id = 2;
        code_scenario = "CENTRAL_2027";
        libelle = "Central 2027";
        type_scenario = central;
        statut = actif;
        commentaire = none;
        exercice_fiscal = some 2027;
        date_creation = 1;
        utilisateur_creation = "admin@bsic.ne";
      }
      ∷ [];
}

-- June 2027 with one validated actual
abbrev realise : Realise
realise = record {
  temps = record { id = 6; date = 600; jour = 1; mois = 6; annee = 2027 } ∷ [];
  realises =
      record {
        fk_centre_responsabilite = 10;
        fk_compte = 42;
        fk_ligne_metier = 5;
        fk_devise = 1;
        fk_temps = 6;
        est_valide = true;
        montant = pos 300000;
      }
      ∷ [];
  tiers_de_somme = λ ms. pos 0;
}

abbrev dto : LancerReforecastDto
dto = record {
  fk_version_source = 1;
  fk_scenario_source = 2;
  trimestre_consolide = 2;
  annee_consolide = 2027;
  methode_extrapolation = MethodeExtrapolation.budget_initial;
  libelle_nouveau_version = "Reforecast T2";
  commentaire = none;
}

abbrev un_lancement : ℕ → Lancement
un_lancement now = record { realise = realise; now = now; dto = dto; user = user_7 }

-- Both launches succeed, and the second replaces the first.
second_launch :
    is_ok (lancer realise 200 dto user_7 (run_lancements (un_lancement 100 ∷ []) base)).0 ≡ true
unfolding decimal lancer remplacer reforecasts_a_remplacer insert_reforecast generer_lignes
    insert_lignes lignes_generees marquer_obsoletes marquer_obsolete find_version log
second_launch = refl

run_lancements-HasUniqueActif_example :
    HasUniqueActif (run_lancements (un_lancement 100 ∷ un_lancement 200 ∷ []) base)
run_lancements-HasUniqueActif_example =
    run_lancements-HasUniqueActif (un_lancement 100 ∷ un_lancement 200 ∷ []) base
      (λ k. ground arith)

-- The database with a published reforecast of the same key
abbrev publiee : DimVersion
publiee = record (nouvelle_version 2 50 user_7 dto) { statut = StatutVersion.gele }

abbrev base_publiee : Db
base_publiee = record base {
  versions = version_in 1 StatutVersion.gele ∷ publiee ∷ [];
  prochain_id = 1000;
}

abbrev histoire : List Evenement
histoire =
    requete (request (version_transition publier 2 none ""))
    ∷ lancement (un_lancement 100)
    ∷ requete (request (version_transition rejeter 2 none "late"))
    ∷ []

run_evenements-gele_example :
    (w : DimVersion) × (find_one (version_has_id 2) (run_evenements histoire base_publiee).versions
      ≡ some w)
    × (w.statut ≡ StatutVersion.gele)
    × (Reste publiee w ⊎ DevientObsolete publiee w)
run_evenements-gele_example = run_evenements-gele histoire base_publiee 2 refl refl

survient-Change_example :
    Change
      (find_one (version_has_id 2) base_publiee.versions)
      (find_one (version_has_id 2) (survient (lancement (un_lancement 100)) base_publiee).versions)
survient-Change_example = survient-Change (lancement (un_lancement 100)) base_publiee 2

-- The launch makes it obsolete.
devient_obsolete :
    count_where
      (λ v. v.id == 2 && is_active v.statut_publication)
      (survient (lancement (un_lancement 100)) base_publiee).versions
    ≡ 0
unfolding decimal lancer remplacer reforecasts_a_remplacer insert_reforecast generer_lignes
    insert_lignes lignes_generees marquer_obsoletes marquer_obsolete find_version log
devient_obsolete = refl
