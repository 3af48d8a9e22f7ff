-- ===== src/Entities/Centre.antt =====
-- The responsibility centres (CR) of a version: dim_centre_responsabilite, the status of each
-- centre's input (fait_budget_cr_statut), the snapshot of the centres expected
-- (dim_version_cr_attendu).
use budget_backend.Base.{ℕ, String, Option, Bool, true, false, ◌==◌, ◌&&◌, str_eq}

pub data StatutCr : Type 0 where
  en_saisie soumis valide : StatutCr

pub data SourceCrAttendu : Type 0 where
  auto manuel : SourceCrAttendu

pub record DimCentre : Type 0 where
  pub id : ℕ
  pub code_cr : String
  pub version_courante : Bool
  pub est_actif : Bool
  pub fk_structure : ℕ

pub record CrStatut : Type 0 where
  pub id : ℕ
  pub fk_version : ℕ
  pub fk_cr : ℕ
  pub statut : StatutCr
  pub date_soumission : Option ℕ
  pub date_validation : Option ℕ
  pub date_reouverture : Option ℕ
  pub fk_saisisseur : Option ℕ
  pub fk_validateur : Option ℕ
  pub motif_rejet : Option String
  pub motif_reouverture : Option String
  pub date_modification : Option ℕ
  pub fk_user_modif : Option ℕ

pub record CrAttendu : Type 0 where
  pub id : ℕ
  pub fk_version : ℕ
  pub fk_cr : ℕ
  pub source : SourceCrAttendu
  pub actif : Bool
  pub motif_retrait : Option String
  pub date_modification : Option ℕ
  pub utilisateur_modification : Option String

-- `where: { codeCr, versionCourante: true, estActif: true }`
abbrev pub is_centre_courant : String → DimCentre → Bool
is_centre_courant code c = str_eq c.code_cr code && c.version_courante && c.est_actif

-- `where: { fkVersion, fkCr }`
abbrev pub statut_is_of : ℕ → ℕ → CrStatut → Bool
statut_is_of version cr s = s.fk_version == version && s.fk_cr == cr

abbrev pub attendu_is_of : ℕ → ℕ → CrAttendu → Bool
attendu_is_of version cr a = a.fk_version == version && a.fk_cr == cr

abbrev pub is_en_saisie : StatutCr → Bool
is_en_saisie en_saisie = true
is_en_saisie _ = false

abbrev pub is_soumis : StatutCr → Bool
is_soumis soumis = true
is_soumis _ = false

abbrev pub is_valide : StatutCr → Bool
is_valide valide = true
is_valide _ = false
