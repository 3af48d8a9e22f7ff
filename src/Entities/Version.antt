-- ===== src/Entities/Version.antt =====
-- dim_version and dim_scenario (referentiels/version/entities, referentiels/scenario/entities).
-- Identifiers (bigint, strings at run time) and dates are numbers, `T | null` is an option.
use budget_backend.Base.{ℕ, String, Option, Bool, true, false, ◌==◌}

pub data TypeVersion : Type 0 where
  budget_initial reforecast_1 reforecast_2 atterrissage reforecast : TypeVersion

pub data StatutVersion : Type 0 where
  ouvert soumis pre_valide soumis_comite valide gele : StatutVersion

pub data StatutPublication : Type 0 where
  active obsolete : StatutPublication

pub data MethodeExtrapolation : Type 0 where
  moyenne_trimestre budget_initial manuelle : MethodeExtrapolation

pub record DimVersion : Type 0 where
  pub id : ℕ
  pub code_version : String
  pub libelle : String
  pub type_version : TypeVersion
  pub exercice_fiscal : ℕ
  pub statut : StatutVersion
  pub date_gel : Option ℕ
  pub utilisateur_gel : Option String
  pub commentaire : Option String
  pub commentaire_soumission : Option String
  pub commentaire_validation : Option String
  pub commentaire_rejet : Option String
  pub commentaire_publication : Option String
  pub date_soumission : Option ℕ
  pub utilisateur_soumission : Option String
  pub date_validation : Option ℕ
  pub utilisateur_validation : Option String
  pub date_rejet : Option ℕ
  pub utilisateur_rejet : Option String
  pub date_creation : ℕ
  pub utilisateur_creation : String
  pub date_modification : Option ℕ
  pub utilisateur_modification : Option String
  pub fk_version_source : Option ℕ
  pub fk_scenario_source : Option ℕ
  pub trimestre_consolide : Option ℕ
  pub annee_consolide : Option ℕ
  pub methode_extrapolation : Option MethodeExtrapolation
  pub statut_publication : StatutPublication
  pub date_obsolescence : Option ℕ
  pub fk_version_remplacante : Option ℕ

pub data TypeScenario : Type 0 where
  central optimiste pessimiste alternatif : TypeScenario

pub data StatutScenario : Type 0 where
  actif archive : StatutScenario

pub record DimScenario : Type 0 where
  pub id : ℕ
  pub code_scenario : String
  pub libelle : String
  pub type_scenario : TypeScenario
  pub statut : StatutScenario
  pub commentaire : Option String
  pub exercice_fiscal : Option ℕ
  pub date_creation : ℕ
  pub utilisateur_creation : String

-- `where: { id }`
abbrev pub version_has_id : ℕ → DimVersion → Bool
version_has_id k v = v.id == k

abbrev pub is_ouvert : StatutVersion → Bool
is_ouvert ouvert = true
is_ouvert _ = false

abbrev pub is_soumis : StatutVersion → Bool
is_soumis soumis = true
is_soumis _ = false

abbrev pub is_pre_valide : StatutVersion → Bool
is_pre_valide pre_valide = true
is_pre_valide _ = false

abbrev pub is_soumis_comite : StatutVersion → Bool
is_soumis_comite soumis_comite = true
is_soumis_comite _ = false

abbrev pub is_valide : StatutVersion → Bool
is_valide valide = true
is_valide _ = false

abbrev pub is_gele : StatutVersion → Bool
is_gele gele = true
is_gele _ = false
