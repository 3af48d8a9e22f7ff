-- ===== src/CrWorkflow/Helpers.antt =====
-- cr-workflow.service.ts: resolution, guards, the automatic pre-validation, and the input lock.
-- A status row is stored under its pair (fk_version, fk_cr), which is a unique index.
use budget_backend.Base.{
  ℕ, suc, String, Option, none, some, Bool, true, not, List, [], ◌∷◌, ◌++◌, map, pure, or_throw,
  require, when, modify, ◌>>◌, find_one, find_all, update_where, length, count_where, any, ◌==◌,
  ◌&&◌,
}
use budget_backend.Entities.{
  Db, cr_introuvable, hors_perimetre, cr_verrouille, AuthUser, Call, log, emit,
}
use budget_backend.Entities.Version.{
  DimVersion, StatutVersion, pre_valide, version_has_id, is_ouvert,
}
use budget_backend.Entities.Centre.{
  DimCentre, CrStatut, StatutCr, en_saisie, CrAttendu, is_centre_courant, statut_is_of,
  is_en_saisie, is_valide,
}
use budget_backend.Entities.Ligne.{ligne_is_of}
use budget_backend.Entities.Journal.{TypeAction, Cible, Payload, Event, BudgetEvent, CrEvent}
use budget_backend.Interfaces.{PerimetreService}

-- `resolveCr`
abbrev pub resolve_cr : String → Call DimCentre
resolve_cr code db = or_throw (find_one (is_centre_courant code) db.centres) cr_introuvable db

-- `crs !== null && !crs.includes(crId)`, negated
abbrev pub is_autorise : Option (List ℕ) → ℕ → Bool
is_autorise none id = true
is_autorise (some crs) id = any (λ c. c == id) crs

-- `assertCrAutorise`
abbrev pub assert_cr_autorise : PerimetreService → ℕ → AuthUser → Call (Unit {0})
assert_cr_autorise perimetre cr user =
    require (is_autorise (perimetre.cr_autorises_pour_user user.user_id) cr) hors_perimetre

-- `findStatut`
abbrev pub find_statut : ℕ → ℕ → Db → Option CrStatut
find_statut version cr db = find_one (statut_is_of version cr) db.statuts

-- `SELECT COUNT(*) FROM fait_budget WHERE fk_version = $1 AND fk_centre = $2`
abbrev pub nb_lignes_cr : ℕ → ℕ → Db → ℕ
nb_lignes_cr version cr db = count_where (ligne_is_of version cr) db.lignes

abbrev pub statut_of : Option CrStatut → Option StatutCr
statut_of none = none
statut_of (some s) = some s.statut

-- A status row as `repo.create` and `repo.insert` make it: EN_SAISIE, all else empty.
abbrev pub nouveau_statut : ℕ → ℕ → ℕ → CrStatut
nouveau_statut id version cr = record {
  id = id;
  fk_version = version;
  fk_cr = cr;
  statut = en_saisie;
  date_soumission = none;
  date_validation = none;
  date_reouverture = none;
  fk_saisisseur = none;
  fk_validateur = none;
  motif_rejet = none;
  motif_reouverture = none;
  date_modification = none;
  fk_user_modif = none;
}

-- `repo.save` of a row that is not stored yet, `repo.insert`
abbrev pub insert_statut : CrStatut → Call CrStatut
insert_statut s =
    modify (λ db. record db { statuts = db.statuts ++ (s ∷ []); prochain_id = suc db.prochain_id })
    >> pure s

-- `repo.save` of a row that is stored
abbrev pub update_statut : CrStatut → Call CrStatut
update_statut s =
    modify (λ db. record db {
      statuts = update_where (statut_is_of s.fk_version s.fk_cr) (λ _. s) db.statuts;
    })
    >> pure s

-- `m.getRepository(DimVersion).update({ id }, { statut, dateModification, ... })`
abbrev pub update_version : ℕ → StatutVersion → ℕ → AuthUser → Call (Unit {0})
update_version id statut now user = modify (λ db. record db {
  versions =
      update_where (version_has_id id)
        (λ v. record v {
          statut = statut;
          date_modification = some now;
          utilisateur_modification = some user.email;
        })
        db.versions;
})

abbrev pub statut_or_en_saisie : Option CrStatut → StatutCr
statut_or_en_saisie none = en_saisie
statut_or_en_saisie (some s) = s.statut

abbrev pub is_actif_of : ℕ → CrAttendu → Bool
is_actif_of version a = a.fk_version == version && a.actif

-- The rows of the query of `compterSnapshot`: the status of each expected centre. The LEFT JOIN is
-- a lookup, since its key is unique.
abbrev pub statuts_attendus : ℕ → Db → List StatutCr
statuts_attendus version db =
    map (λ a. statut_or_en_saisie (find_statut a.fk_version a.fk_cr db))
      (find_all (is_actif_of version) db.attendus)

-- `compterSnapshot`: the total, and the number VALIDE
unfoldable pub compter_snapshot : ℕ → Db → ℕ × ℕ
compter_snapshot version db =
    let rows = statuts_attendus version db in (length rows, count_where is_valide rows)

-- The condition under which `basculerVersionSiTousValides` acts.
unfoldable pub bascule : DimVersion → Db → Bool
unfolding compter_snapshot
bascule version db =
    let (total, valides) = compter_snapshot version.id db in
    is_ouvert version.statut && (not (total == 0) && valides == total)

-- `basculerVersionSiTousValides`: OUVERT → PRE_VALIDE if all expected centres are VALIDE
unfoldable pub basculer_version_si_tous_valides : ℕ → DimVersion → AuthUser → Call (Unit {0})
unfolding log emit
basculer_version_si_tous_valides now version user db =
    let counts = compter_snapshot version.id db in
    when (bascule version db)
      (do
        update_version version.id pre_valide now user
        log user TypeAction.pre_valider_version (Cible.dim_version version.id)
            (Payload.pre_validation version.code_version counts.1 counts.0)
        emit (
            Event.budget BudgetEvent.version_pre_validated version.id version.code_version
              user.email user.user_id none))
      db

-- `assertCrModifiable`, called before a budget line is written
unfoldable pub assert_cr_modifiable : ℕ → ℕ → Call (Unit {0})
assert_cr_modifiable version cr db = elim (find_statut version cr db) [
  | none ↦ (insert_statut (nouveau_statut db.prochain_id version cr) >> pure tt) db
  | some s ↦ require (is_en_saisie s.statut) (cr_verrouille s.statut) db
]

-- `emit` of the service
abbrev pub emit_cr :
    CrEvent → DimVersion → DimCentre → AuthUser → Option String → Option String → Call (Unit {0})
emit_cr event version cr user motif commentaire = emit (
    Event.cr event version.id version.code_version cr.code_cr cr.id user.email user.user_id motif
      commentaire)
