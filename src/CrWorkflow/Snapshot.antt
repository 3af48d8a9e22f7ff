-- ===== src/CrWorkflow/Snapshot.antt =====
-- cr-workflow.service.ts: the snapshot of the centres that a version expects.
use budget_backend.Base.{
  set_add_all, ℕ, suc, String, Option, none, some, Bool, true, false, List, [], ◌∷◌, ◌++◌, pure,
  throw, require, modify, ◌>>=◌, ◌>>◌, find_one, update_where, length, ◌&&◌, ltb, if◌then◌else◌,
}
use budget_backend.Entities.{
  Db, absent_du_snapshot, cr_non_retirable_lignes, cr_non_retirable_statut, version_non_ouverte,
  AuthUser, Call, in_transaction, find_version, log,
}
use budget_backend.Entities.Version.{is_ouvert}
use budget_backend.Entities.Centre.{CrAttendu, auto, attendu_is_of, is_en_saisie}
use budget_backend.Entities.Journal.{TypeAction, Cible, Payload}
use budget_backend.Interfaces.{PerimetreService, RoleDirectory}
use budget_backend.CrWorkflow.Helpers.{
  resolve_cr, find_statut, nb_lignes_cr, basculer_version_si_tous_valides,
}

-- The loop over the users: the union of their perimeters.
abbrev pub union_perimetres : PerimetreService → List ℕ → List ℕ → List ℕ
union_perimetres perimetre [] set = set
union_perimetres perimetre (u ∷ users) set =
    union_perimetres perimetre users (set_add_all (perimetre.perimetre_effectif u) set)

abbrev pub nouvel_attendu : ℕ → ℕ → ℕ → CrAttendu
nouvel_attendu id version cr = record {
  id = id;
  fk_version = version;
  fk_cr = cr;
  source = auto;
  actif = true;
  motif_retrait = none;
  date_modification = none;
  utilisateur_modification = none;
}

abbrev pub is_none {ℓ} : {A : Type ℓ} → Option A → Bool
is_none none = true
is_none (some a) = false

-- The loop over the set: inserts the centres that are missing, and counts them.
unfoldable pub inserer_manquants : ℕ → List ℕ → Db → Db × ℕ
inserer_manquants version [] db = (db, 0)
inserer_manquants version (cr ∷ crs) db =
    let missing = is_none (find_one (attendu_is_of version cr) db.attendus) in
    let added : Db = record db {
      attendus = db.attendus ++ (nouvel_attendu db.prochain_id version cr ∷ []);
      prochain_id = suc db.prochain_id;
    } in
    let rest = inserer_manquants version crs (if missing then added else db) in
    (rest.0, if missing then suc rest.1 else rest.1)

-- Returns the number of centres added and the size of the set.
unfoldable pub initialiser_snapshot : PerimetreService → RoleDirectory → ℕ → AuthUser → Call (ℕ × ℕ)
unfolding find_version log
initialiser_snapshot perimetre roles version_id user = do
  version ← find_version version_id
  let cr_set = union_perimetres perimetre roles.saisisseurs_actifs []
  in_transaction (do
    ajoutes ← (λ db. let (db', n) = inserer_manquants version_id cr_set db in pure n db')
    log user TypeAction.init_snapshot_cr (Cible.dim_version version_id)
        (Payload.snapshot version.code_version (length cr_set) ajoutes)
    pure (ajoutes, length cr_set))

-- `where: { fkVersion, fkCr, actif }`
abbrev pub attendu_is : Bool → ℕ → ℕ → CrAttendu → Bool
attendu_is true version cr a = attendu_is_of version cr a && a.actif
attendu_is false version cr a = attendu_is_of version cr a && (if a.actif then false else true)

abbrev pub require_attendu : Bool → ℕ → ℕ → Call CrAttendu
require_attendu actif version cr db = elim (find_one (attendu_is actif version cr) db.attendus) [
  | none ↦ throw absent_du_snapshot db
  | some row ↦ pure row db
]

-- `repo.save(row)`; the pair (fk_version, fk_cr) is a unique index
abbrev pub update_attendu : CrAttendu → Call (Unit {0})
update_attendu a = modify (λ db. record db {
  attendus = update_where (attendu_is_of a.fk_version a.fk_cr) (λ _. a) db.attendus;
})

-- The guards that `forcer` lifts.
abbrev pub assert_retirable : ℕ → ℕ → Call (Unit {0})
assert_retirable version cr db =
    let nb = nb_lignes_cr version cr db in
    (require (if ltb 0 nb then false else true) (cr_non_retirable_lignes nb) >> (λ d.
        elim (find_statut version cr d) [
          | none ↦ pure tt d
          | some s ↦ require (is_en_saisie s.statut) (cr_non_retirable_statut s.statut) d
        ]))
      db

-- Takes a centre out of the snapshot; returns the row.
unfoldable pub retirer_cr_snapshot : ℕ → ℕ → String → String → AuthUser → Bool → Call CrAttendu
unfolding find_version log basculer_version_si_tous_valides
retirer_cr_snapshot now version_id code motif user forcer = do
  version ← find_version version_id
  cr ← resolve_cr code
  in_transaction (do
    row ← require_attendu true version_id cr.id
    (if forcer then pure tt else assert_retirable version_id cr.id)
    let saved : CrAttendu = record row {
      actif = false;
      motif_retrait = some motif;
      date_modification = some now;
      utilisateur_modification = some user.email;
    }
    update_attendu saved
    log user TypeAction.retirer_cr_snapshot (Cible.dim_version_cr_attendu row.id)
        (Payload.retrait version.code_version cr.code_cr motif forcer)
    basculer_version_si_tous_valides now version user
    pure saved)

-- Puts a centre back, while the version is open; returns the row.
unfoldable pub reintegrer_cr_snapshot : ℕ → ℕ → String → AuthUser → Call CrAttendu
unfolding find_version log
reintegrer_cr_snapshot now version_id code user = do
  version ← find_version version_id
  require (is_ouvert version.statut) (version_non_ouverte version.statut)
  cr ← resolve_cr code
  in_transaction (do
    row ← require_attendu false version_id cr.id
    let saved : CrAttendu = record row {
      actif = true;
      motif_retrait = none;
      date_modification = some now;
      utilisateur_modification = some user.email;
    }
    update_attendu saved
    log user TypeAction.cr_reintegre_snapshot (Cible.dim_version_cr_attendu row.id)
        (Payload.reintegration version.code_version cr.code_cr)
    pure saved)
