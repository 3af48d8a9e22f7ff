-- ===== src/Cycle/VersionWrites.antt =====
-- What each service call writes to the table of versions.
use budget_backend.Base.{
  ℕ, String, Option, none, some, true, false, ◌≡◌, refl, inl, inr, arith, find_one, find_one_sound,
  Option-cases, Result-cases, is_ok,
}
use budget_backend.Entities.{Db, AuthUser}
use budget_backend.Entities.Version.{DimVersion, version_has_id}
use budget_backend.Interfaces.{PermissionsService}
use budget_backend.VersionWorkflow.{
  Transition, soumettre, soumettre_version, valider_version, rejeter_version, publier_version,
}
use budget_backend.VersionWorkflow.Transitions.{executer, executer-HasMoved, source, target}
use budget_backend.VersionService.{CreateVersionDto, UpdateVersionDto, create, update, soft_delete}
use budget_backend.CrWorkflow.Comite.{soumettre_comite, approuver_comite}
use budget_backend.Cycle.Graph.{VersionEffect, unchanged, saved, added, removed, is_manual}

source-edge : (t : Transition) → is_manual (source t) (target t) ≡ true
source-edge soumettre = refl
source-edge _ = refl

module _ (now : ℕ) (user : AuthUser) (db : Db) where
  module _ (permissions : PermissionsService) (id : ℕ) (commentaire : Option String)
      (motif : String) where
    executer_error :
        (t : Transition)
        → is_ok (executer permissions now id commentaire motif user t db).0 ≡ false
        → (executer permissions now id commentaire motif user t db).1.versions ≡ db.versions
    unfolding soumettre_version valider_version rejeter_version publier_version
    executer_error soumettre e = ground arith
    executer_error _ e = ground arith

    executer_missing :
        (t : Transition)
        → find_one (version_has_id id) db.versions ≡ none
        → (executer permissions now id commentaire motif user t db).1.versions ≡ db.versions
    unfolding soumettre_version valider_version rejeter_version publier_version
    executer_missing soumettre e = ground arith
    executer_missing _ e = ground arith

    executer_source :
        (t : Transition) (v : DimVersion)
        → find_one (version_has_id id) db.versions ≡ some v
        → is_ok (executer permissions now id commentaire motif user t db).0 ≡ true
        → v.statut ≡ source t
    unfolding soumettre_version valider_version rejeter_version publier_version
    executer_source soumettre v found e = ground arith
    executer_source _ v found e = ground arith

    pub executer-effect :
        (t : Transition)
        → VersionEffect is_manual db.versions
            (executer permissions now id commentaire motif user t db).1.versions
    executer-effect t = elim (Option-cases (find_one (version_has_id id) db.versions)) [
      | inl missing ↦ unchanged (executer_missing t missing)
      | inr (v, found) ↦
          elim (Result-cases (executer permissions now id commentaire motif user t db).0) [
            | inl (v', done) ↦
                let m =
                  executer-HasMoved permissions now id commentaire motif user t db v v' found
                    done in
                let same : v.id ≡ id =
                  ground (arith, find_one_sound (version_has_id id) db.versions found) in
                let from : v.statut ≡ source t = executer_source t v found (rw done) in
                saved id v v' found (cc (m.same_id)) (rw (from, m.at_target) (source-edge t))
                  (rw same at (m.stored))
            | inr (x, failed) ↦ unchanged (executer_error t (rw failed))
          ]
    ]

  pub soumettre_comite-effect :
      (id : ℕ) (c : Option String)
      → VersionEffect is_manual db.versions (soumettre_comite now id c user db).1.versions
  unfolding soumettre_comite
  soumettre_comite-effect id c = elim (Option-cases (find_one (version_has_id id) db.versions)) [
    | inl missing ↦ unchanged (ground arith)
    | inr (v, found) ↦
        let same = find_one_sound (version_has_id id) db.versions found in
        elim (Result-cases (soumettre_comite now id c user db).0) [
          | inl (v', done) ↦ saved id v v' found (ground arith) (ground arith) (ground arith)
          | inr (x, failed) ↦ unchanged (ground arith)
        ]
  ]

  pub approuver_comite-effect :
      (id : ℕ) (c : Option String)
      → VersionEffect is_manual db.versions (approuver_comite now id c user db).1.versions
  unfolding approuver_comite
  approuver_comite-effect id c = elim (Option-cases (find_one (version_has_id id) db.versions)) [
    | inl missing ↦ unchanged (ground arith)
    | inr (v, found) ↦
        let same = find_one_sound (version_has_id id) db.versions found in
        elim (Result-cases (approuver_comite now id c user db).0) [
          | inl (v', done) ↦ saved id v v' found (ground arith) (ground arith) (ground arith)
          | inr (x, failed) ↦ unchanged (ground arith)
        ]
  ]

  pub update-effect :
      (id : ℕ) (dto : UpdateVersionDto)
      → VersionEffect is_manual db.versions (update now user id dto db).1.versions
  unfolding update
  update-effect id dto = elim (Option-cases (find_one (version_has_id id) db.versions)) [
    | inl missing ↦ unchanged (ground arith)
    | inr (v, found) ↦
        let same = find_one_sound (version_has_id id) db.versions found in
        elim (Result-cases (update now user id dto db).0) [
          | inl (v', done) ↦ saved id v v' found (ground arith) (ground arith) (ground arith)
          | inr (x, failed) ↦ unchanged (ground arith)
        ]
  ]

  pub create-effect :
      (dto : CreateVersionDto)
      → VersionEffect is_manual db.versions (create now user dto db).1.versions
  unfolding create
  create-effect dto = elim (Result-cases (create now user dto db).0) [
    | inl ((v, code), done) ↦ added v (ground arith) (ground arith)
    | inr (x, failed) ↦ unchanged (ground arith)
  ]

  pub soft_delete-effect :
      (id : ℕ) → VersionEffect is_manual db.versions (soft_delete id db).1.versions
  unfolding soft_delete
  soft_delete-effect id = elim (Option-cases (find_one (version_has_id id) db.versions)) [
    | inl missing ↦ unchanged (ground arith)
    | inr (v, found) ↦
        let same = find_one_sound (version_has_id id) db.versions found in
        elim (Result-cases (soft_delete id db).0) [
          | inl (b, done) ↦ removed id v found (ground arith) (ground arith)
          | inr (x, failed) ↦ unchanged (ground arith)
        ]
  ]
