-- ===== src/Tests/Fixtures.antt =====
-- Versions, centres and a database for the tests.
use budget_backend.Base.{ℕ, none, some, true, [], ◌∷◌, pos}
use budget_backend.Entities.Ligne.{LigneBudget, ModeSaisie}
use budget_backend.Entities.{Db, AuthUser}
use budget_backend.Entities.Version.{DimVersion, StatutVersion, budget_initial, active}
use budget_backend.Entities.Centre.{DimCentre, CrStatut, StatutCr}
use budget_backend.CrWorkflow.Helpers.{nouveau_statut}
use budget_backend.CrWorkflow.Snapshot.{nouvel_attendu}
use budget_backend.Interfaces.{PermissionsService, PerimetreService, RoleDirectory}
use budget_backend.Cycle.Requests.{Operation, Request}

abbrev pub version_in : ℕ → StatutVersion → DimVersion
version_in id statut = record {
  id = id;
  code_version = "BUDGET_2027";
  libelle = "Budget 2027";
  type_version = budget_initial;
  exercice_fiscal = 2027;
  statut = statut;
  date_gel = none;
  utilisateur_gel = none;
  commentaire = none;
  commentaire_soumission = none;
  commentaire_validation = none;
  commentaire_rejet = none;
  commentaire_publication = none;
  date_soumission = none;
  utilisateur_soumission = none;
  date_validation = none;
  utilisateur_validation = none;
  date_rejet = none;
  utilisateur_rejet = none;
  date_creation = 1;
  utilisateur_creation = "admin@bsic.ne";
  date_modification = none;
  utilisateur_modification = none;
  fk_version_source = none;
  fk_scenario_source = none;
  trimestre_consolide = none;
  annee_consolide = none;
  methode_extrapolation = none;
  statut_publication = active;
  date_obsolescence = none;
  fk_version_remplacante = none;
}

abbrev pub centre_10 : DimCentre
centre_10 = record {
  id = 10;
  code_cr = "CR_AGENCE";
  version_courante = true;
  est_actif = true;
  fk_structure = 3;
}

abbrev pub statut_10 : StatutCr → CrStatut
statut_10 statut = record (nouveau_statut 5 1 10) { statut = statut; fk_validateur = some 7 }

-- June, account 42, line of business 5
abbrev pub ligne_12 : LigneBudget
ligne_12 = record {
  id = 12;
  fk_temps = 6;
  fk_compte = 42;
  fk_structure = 3;
  fk_centre = 10;
  fk_ligne_metier = 5;
  fk_produit = 1;
  fk_segment = 1;
  fk_devise = 1;
  fk_version = 1;
  fk_scenario = 2;
  montant_devise = pos 250000;
  montant_fcfa = pos 250000;
  taux_change_applique = 100000000;
  mode_saisie = ModeSaisie.montant;
  encours_moyen = none;
  tie = none;
  commentaire = none;
  date_creation = 1;
  utilisateur_creation = "saisisseur@bsic.ne";
  date_modification = none;
  utilisateur_modification = none;
}

-- One version, one expected centre with a line, and the centre's status.
abbrev pub db_in : StatutVersion → StatutCr → Db
db_in statut statut_cr = record {
  versions = version_in 1 statut ∷ [];
  scenarios = [];
  centres = centre_10 ∷ [];
  statuts = statut_10 statut_cr ∷ [];
  attendus = nouvel_attendu 6 1 10 ∷ [];
  lignes = ligne_12 ∷ [];
  audit = [];
  events = [];
  prochain_id = 20;
}

abbrev pub user_7 : AuthUser
user_7 = record { user_id = 7; email = "validateur@bsic.ne" }

abbrev pub permissions : PermissionsService
permissions = record { delegation_context_pour = λ u p. none }

-- User 8 may act on the centres 10 and 11, every other user on all.
abbrev pub perimetre : PerimetreService
perimetre = record { cr_autorises_pour_user = λ u. none; perimetre_effectif = λ u. 10 ∷ 11 ∷ [] }

abbrev pub roles : RoleDirectory
roles = record { saisisseurs_actifs = 8 ∷ [] }

abbrev pub request : Operation → Request
request o = record {
  operation = o;
  user = user_7;
  now = 100;
  permissions = permissions;
  perimetre = perimetre;
  roles = roles;
}

abbrev pub frozen : DimVersion
frozen = record (version_in 1 StatutVersion.gele) {
  date_gel = some 100;
  utilisateur_gel = some "validateur@bsic.ne";
}
