-- ===== src/Cycle/Untouched.antt =====
-- The tables that each call leaves alone.
use budget_backend.Base.{
  ℕ, String, Option, ◌≡◌, refl, List, [], ◌∷◌, arith, find_one, Bool-cases, inl, inr,
}
use budget_backend.Entities.{Db, AuthUser}
use budget_backend.Entities.Centre.{attendu_is_of}
use budget_backend.Interfaces.{PermissionsService, PerimetreService, RoleDirectory}
use budget_backend.VersionWorkflow.{
  Transition, soumettre, soumettre_version, valider_version, rejeter_version, publier_version,
}
use budget_backend.VersionWorkflow.Transitions.{executer}
use budget_backend.VersionService.{CreateVersionDto, UpdateVersionDto, create, update, soft_delete}
use budget_backend.CrWorkflow.Helpers.{bascule, assert_cr_modifiable}
use budget_backend.CrWorkflow.Transitions.{soumettre_cr, valider_cr, rejeter_cr, rouvrir_cr}
use budget_backend.CrWorkflow.Comite.{soumettre_comite, approuver_comite, demander_revision}
use budget_backend.CrWorkflow.Snapshot.{
  initialiser_snapshot, inserer_manquants, is_none, union_perimetres,
}

-- The snapshot and the statuses are as they were.
abbrev pub Untouched : Db → Db → Type 0
Untouched db db' = (db'.attendus ≡ db.attendus) × (db'.statuts ≡ db.statuts)

inserer_manquants-statuts :
    (version : ℕ) (crs : List ℕ) (db : Db)
    → (inserer_manquants version crs db).0.statuts ≡ db.statuts
unfolding inserer_manquants
inserer_manquants-statuts version [] db = refl
inserer_manquants-statuts version (cr ∷ crs) db =
    elim (Bool-cases (is_none (find_one (attendu_is_of version cr) db.attendus))) [
      | inl missing ↦ rw missing (inserer_manquants-statuts version crs _)
      | inr present ↦ rw present (inserer_manquants-statuts version crs db)
    ]

module _ (now : ℕ) (user : AuthUser) (db : Db) where
  pub executer-Untouched :
      (permissions : PermissionsService) (id : ℕ) (c : Option String) (m : String) (t : Transition)
      → Untouched db (executer permissions now id c m user t db).1
  unfolding soumettre_version valider_version rejeter_version publier_version
  executer-Untouched p id c m soumettre = (ground arith, ground arith)
  executer-Untouched p id c m _ = (ground arith, ground arith)

  pub create-Untouched : (dto : CreateVersionDto) → Untouched db (create now user dto db).1
  unfolding create
  create-Untouched dto = (ground arith, ground arith)

  pub update-Untouched :
      (id : ℕ) (dto : UpdateVersionDto) → Untouched db (update now user id dto db).1
  unfolding update
  update-Untouched id dto = (ground arith, ground arith)

  pub soft_delete-Untouched : (id : ℕ) → Untouched db (soft_delete id db).1
  unfolding soft_delete
  soft_delete-Untouched id = (ground arith, ground arith)

  pub soumettre_comite-Untouched :
      (id : ℕ) (c : Option String) → Untouched db (soumettre_comite now id c user db).1
  unfolding soumettre_comite
  soumettre_comite-Untouched id c = (ground arith, ground arith)

  pub approuver_comite-Untouched :
      (id : ℕ) (c : Option String) → Untouched db (approuver_comite now id c user db).1
  unfolding approuver_comite
  approuver_comite-Untouched id c = (ground arith, ground arith)

  pub soumettre_cr-attendus :
      (perimetre : PerimetreService) (id : ℕ) (code : String) (c : Option String)
      → (soumettre_cr perimetre now id code c user db).1.attendus ≡ db.attendus
  unfolding soumettre_cr
  soumettre_cr-attendus p id code c = ground arith

  pub valider_cr-attendus :
      (perimetre : PerimetreService) (id : ℕ) (code : String) (c : Option String)
      → (valider_cr perimetre now id code c user db).1.attendus ≡ db.attendus
  unfolding valider_cr bascule
  valider_cr-attendus p id code c = ground arith

  pub rejeter_cr-attendus :
      (perimetre : PerimetreService) (id : ℕ) (code : String) (m : String)
      → (rejeter_cr perimetre now id code m user db).1.attendus ≡ db.attendus
  unfolding rejeter_cr
  rejeter_cr-attendus p id code m = ground arith

  pub rouvrir_cr-attendus :
      (perimetre : PerimetreService) (id : ℕ) (code : String) (m : String)
      → (rouvrir_cr perimetre now id code m user db).1.attendus ≡ db.attendus
  unfolding rouvrir_cr
  rouvrir_cr-attendus p id code m = ground arith

  pub demander_revision-attendus :
      (id : ℕ) (code m : String)
      → (demander_revision now id code m user db).1.attendus ≡ db.attendus
  unfolding demander_revision
  demander_revision-attendus id code m = ground arith

  pub assert_cr_modifiable-attendus :
      (id cr : ℕ) → (assert_cr_modifiable id cr db).1.attendus ≡ db.attendus
  unfolding assert_cr_modifiable
  assert_cr_modifiable-attendus id cr = ground arith

  pub initialiser_snapshot-statuts :
      (perimetre : PerimetreService) (roles : RoleDirectory) (id : ℕ)
      → (initialiser_snapshot perimetre roles id user db).1.statuts ≡ db.statuts
  unfolding initialiser_snapshot
  initialiser_snapshot-statuts perimetre roles id = ground (
    arith,
    inserer_manquants-statuts id (union_perimetres perimetre roles.saisisseurs_actifs []) db,
  )
