-- ===== src/VersionService.antt =====
-- referentiels/version/version.service.ts: creation of a version, with the scenario that it brings
-- along (hook Q9), and the edits that only an open version allows. The lookups are
-- `Entities.find_version` and `find_by_code`; `findAll` is a paged query and is left out.
pub mod Creation
use budget_backend.Base.{
  ℕ, String, concat, decimal, suc, ◌+◌, Option, none, some, Bool, true, false, not, List, [], ◌∷◌,
  ◌++◌, pure, throw, gets, or_throw, require, when, modify, ◌>>=◌, ◌>>◌, find_one, update_where,
  delete_where, count_where, ◌==◌, str_eq, ◌&&◌, ◌||◌, any, if◌then◌else◌,
}
use budget_backend.Entities.{
  Db, Erreur, statut_version, code_version_existe, version_introuvable, version_referencee,
  AuthUser, Call, in_transaction, find_version, log,
}
use budget_backend.Entities.Version.{
  DimVersion, ouvert, TypeVersion, active, DimScenario, central, actif, version_has_id, is_ouvert,
}
use budget_backend.Entities.Journal.{TypeAction, Cible, Payload}

pub record CreateVersionDto : Type 0 where
  pub code_version : String
  pub libelle : String
  pub type_version : TypeVersion
  pub exercice_fiscal : ℕ
  pub commentaire : Option String

-- `none` is a field that the request leaves out
pub record UpdateVersionDto : Type 0 where
  pub libelle : Option String
  pub type_version : Option TypeVersion
  pub exercice_fiscal : Option ℕ
  pub commentaire : Option String

-- `where: { codeVersion }`
abbrev pub version_has_code : String → DimVersion → Bool
version_has_code code v = str_eq v.code_version code

abbrev pub scenario_has_code : String → DimScenario → Bool
scenario_has_code code s = str_eq s.code_scenario code

abbrev pub is_exercice : ℕ → Option ℕ → Bool
is_exercice n none = false
is_exercice n (some m) = m == n

abbrev pub scenario_has_exercice : ℕ → DimScenario → Bool
scenario_has_exercice n s = is_exercice n s.exercice_fiscal

-- `findByCode`
unfoldable pub find_by_code : String → Call DimVersion
find_by_code code db =
    or_throw (find_one (version_has_code code) db.versions) version_introuvable db

-- `MEDIAN_${exercice}`
unfoldable pub code_median : ℕ → String
code_median exercice = concat "MEDIAN_" (decimal exercice)

abbrev is_absent {ℓ} : {A : Type ℓ} → Option A → Bool
is_absent none = true
is_absent (some _) = false

-- `assertOuvert`
abbrev pub assert_ouvert : DimVersion → Call (Unit {0})
assert_ouvert v = require (is_ouvert v.statut) (statut_version v.statut)

module _ (now : ℕ) (utilisateur : AuthUser) where
  -- `versionRepo.save(versionRepo.create({ ... }))`
  insert_version : CreateVersionDto → Call DimVersion
  insert_version dto db =
      let created : DimVersion = record {
        id = db.prochain_id;
        code_version = dto.code_version;
        libelle = dto.libelle;
        type_version = dto.type_version;
        exercice_fiscal = dto.exercice_fiscal;
        statut = ouvert;
        date_gel = none;
        utilisateur_gel = none;
        commentaire = dto.commentaire;
        commentaire_soumission = none;
        commentaire_validation = none;
        commentaire_rejet = none;
        commentaire_publication = none;
        date_soumission = none;
        utilisateur_soumission = none;
        date_validation = none;
        utilisateur_validation = none;
        date_rejet = none;
        utilisateur_rejet = none;
        date_creation = now;
        utilisateur_creation = utilisateur.email;
        date_modification = none;
        utilisateur_modification = none;
        fk_version_source = none;
        fk_scenario_source = none;
        trimestre_consolide = none;
        annee_consolide = none;
        methode_extrapolation = none;
        statut_publication = active;
        date_obsolescence = none;
        fk_version_remplacante = none;
      } in
      (modify (λ d. record d {
        versions = d.versions ++ (created ∷ []);
        prochain_id = suc d.prochain_id;
      })
          >> pure created)
        db

  abbrev pub scenario_median : ℕ → CreateVersionDto → DimScenario
  scenario_median id dto = record {
    id = id;
    code_scenario = code_median dto.exercice_fiscal;
    libelle = concat "Scénario médian " (decimal dto.exercice_fiscal);
    type_scenario = central;
    statut = actif;
    commentaire = some (
        concat "Créé automatiquement à la création de la version "
          (concat dto.code_version " (hook Q9, Lot 3.2)."));
    exercice_fiscal = some dto.exercice_fiscal;
    date_creation = now;
    utilisateur_creation = utilisateur.email;
  }

  insert_scenario_median : CreateVersionDto → Call (Unit {0})
  insert_scenario_median dto = modify (λ d. record d {
    scenarios = d.scenarios ++ (scenario_median d.prochain_id dto ∷ []);
    prochain_id = suc d.prochain_id;
  })

  -- Step 2 of `create`: the code of the scenario that was created, if one was.
  hook_q9 : CreateVersionDto → Call (Option String)
  unfolding insert_scenario_median log
  hook_q9 dto = do
    scenarios_for_exercice ←
        gets (λ db. count_where (scenario_has_exercice dto.exercice_fiscal) db.scenarios)
    let code_auto = code_median dto.exercice_fiscal
    exists ← gets (λ db. find_one (scenario_has_code code_auto) db.scenarios)
    if scenarios_for_exercice == 0 && is_absent exists
        then (do
          insert_scenario_median dto
          log utilisateur TypeAction.auto_create_scenario (Cible.dim_scenario code_auto)
              (Payload.scenario_auto code_auto dto.exercice_fiscal dto.code_version)
          pure (some code_auto))
        else pure none

  unfoldable pub create : CreateVersionDto → Call (DimVersion × Option String)
  unfolding insert_version hook_q9
  create dto = in_transaction (do
    existing ← gets (λ db. find_one (version_has_code dto.code_version) db.versions)
    require (is_absent existing) code_version_existe
    created ← insert_version dto
    scenario_auto_cree_code ← hook_q9 dto
    pure (created, scenario_auto_cree_code))

  -- `if (dto.x !== undefined) current.x = dto.x`
  abbrev or_current {ℓ} : {A : Type ℓ} → Option A → A → A
  or_current none a = a
  or_current (some b) a = b

  unfoldable pub update : ℕ → UpdateVersionDto → Call DimVersion
  unfolding find_version
  update id dto = do
    current ← find_version id
    assert_ouvert current
    let saved : DimVersion = record current {
      libelle = or_current dto.libelle current.libelle;
      type_version = or_current dto.type_version current.type_version;
      exercice_fiscal = or_current dto.exercice_fiscal current.exercice_fiscal;
      commentaire = elim dto.commentaire [ none ↦ current.commentaire | some c ↦ some c ];
      date_modification = some now;
      utilisateur_modification = some utilisateur.email;
    }
    modify (λ db. record db {
      versions = update_where (version_has_id current.id) (λ _. saved) db.versions;
    })
    pure saved

abbrev est_de : ℕ → Option ℕ → Bool
est_de id none = false
est_de id (some v) = v == id

-- The foreign keys that keep a version, in the tables of `Db`: of budget lines, statuses, expected
-- centres, and the source of another version. That of a document is left out.
unfoldable pub is_referencee : ℕ → Db → Bool
is_referencee id db =
    any (λ l. l.fk_version == id) db.lignes
    || any (λ s. s.fk_version == id) db.statuts
    || any (λ a. a.fk_version == id) db.attendus
    || any (λ v. not (v.id == id) && est_de id v.fk_version_source) db.versions

-- fk_dim_version_remplacante is ON DELETE SET NULL.
abbrev pub est_remplacee_par : ℕ → DimVersion → Bool
est_remplacee_par id v = est_de id v.fk_version_remplacante

abbrev pub sans_remplacante : DimVersion → DimVersion
sans_remplacante v = record v { fk_version_remplacante = none }

-- `false` if there is no such version. The database refuses to delete a version that a row refers to.
unfoldable pub soft_delete : ℕ → Call Bool
soft_delete id db = elim (find_one (version_has_id id) db.versions) [
  | none ↦ pure false db
  | some current ↦
      (do
        assert_ouvert current
        libre ← gets (λ d. not (is_referencee id d))
        require libre version_referencee
        modify (λ d. record d {
          versions =
              delete_where (version_has_id id)
                (update_where (est_remplacee_par id) sans_remplacante d.versions);
        })
        pure true)
        db
]
