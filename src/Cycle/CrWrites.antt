-- ===== src/Cycle/CrWrites.antt =====
-- What each call of the centre workflow writes to the table of versions.
use budget_backend.Base.{
  ℕ, String, Option, none, some, Bool, true, ◌≡◌, refl, inl, inr, List, [], ◌∷◌, arith, find_one,
  update_where, find_one_sound, Bool-cases, Option-cases, ◌⊎◌,
}
use budget_backend.Entities.{Db, AuthUser}
use budget_backend.Entities.Version.{
  DimVersion, StatutVersion, ouvert, pre_valide, soumis_comite, version_has_id,
}
use budget_backend.Interfaces.{PerimetreService, RoleDirectory}
use budget_backend.CrWorkflow.Helpers.{bascule, assert_cr_modifiable}
use budget_backend.CrWorkflow.Transitions.{soumettre_cr, valider_cr, rejeter_cr, rouvrir_cr}
use budget_backend.CrWorkflow.Comite.{demander_revision}
use budget_backend.CrWorkflow.Snapshot.{
  initialiser_snapshot, retirer_cr_snapshot, reintegrer_cr_snapshot, inserer_manquants, is_none,
  union_perimetres,
}
use budget_backend.Entities.Centre.{attendu_is_of}
use budget_backend.Cycle.Graph.{VersionEffect, unchanged, moved, with_statut, is_edge, is_manual}

-- A call that leaves the versions alone, or moves the one that it found along an edge.
effect_of_move :
    (edge : StatutVersion → StatutVersion → Bool) (id k : ℕ) (v : DimVersion)
    (from to : StatutVersion) (now : ℕ) (user : AuthUser) {vs vs' : List DimVersion}
    → find_one (version_has_id id) vs ≡ some v
    → k ≡ id
    → edge from to ≡ true
    → (vs' ≡ vs)
      ⊎ ((v.statut ≡ from) × (vs' ≡ update_where (version_has_id k) (with_statut to now user) vs))
    → VersionEffect edge vs vs'
effect_of_move edge id k v from to now user found same along (inl e) = unchanged e
effect_of_move edge id k v from to now user found same along (inr (at, e)) =
    moved id v to now user found (rw at along) (rw same at e)

inserer_manquants-versions :
    (version : ℕ) (crs : List ℕ) (db : Db)
    → (inserer_manquants version crs db).0.versions ≡ db.versions
unfolding inserer_manquants
inserer_manquants-versions version [] db = refl
inserer_manquants-versions version (cr ∷ crs) db =
    elim (Bool-cases (is_none (find_one (attendu_is_of version cr) db.attendus))) [
      | inl missing ↦ rw missing (inserer_manquants-versions version crs _)
      | inr present ↦ rw present (inserer_manquants-versions version crs db)
    ]

module _ (now : ℕ) (user : AuthUser) (db : Db) where
  module _ (perimetre : PerimetreService) (id : ℕ) (code : String) where
    pub soumettre_cr-versions :
        (c : Option String)
        → (soumettre_cr perimetre now id code c user db).1.versions ≡ db.versions
    unfolding soumettre_cr
    soumettre_cr-versions c = ground arith

    pub rejeter_cr-versions :
        (m : String) → (rejeter_cr perimetre now id code m user db).1.versions ≡ db.versions
    unfolding rejeter_cr
    rejeter_cr-versions m = ground arith

    valider_cr-versions :
        (c : Option String) (v : DimVersion)
        → find_one (version_has_id id) db.versions ≡ some v
        → ((valider_cr perimetre now id code c user db).1.versions ≡ db.versions)
          ⊎ ((v.statut ≡ ouvert)
              × ((valider_cr perimetre now id code c user db).1.versions
                  ≡ update_where
                      (version_has_id v.id)
                      (with_statut pre_valide now user)
                      db.versions))
    unfolding valider_cr bascule
    valider_cr-versions c v found = ground arith

    rouvrir_cr-versions :
        (m : String) (v : DimVersion)
        → find_one (version_has_id id) db.versions ≡ some v
        → ((rouvrir_cr perimetre now id code m user db).1.versions ≡ db.versions)
          ⊎ ((v.statut ≡ pre_valide)
              × ((rouvrir_cr perimetre now id code m user db).1.versions
                  ≡ update_where (version_has_id id) (with_statut ouvert now user) db.versions))
    unfolding rouvrir_cr
    rouvrir_cr-versions m v found = ground arith

    demander_revision-versions :
        (m : String) (v : DimVersion)
        → find_one (version_has_id id) db.versions ≡ some v
        → ((demander_revision now id code m user db).1.versions ≡ db.versions)
          ⊎ ((v.statut ≡ soumis_comite)
              × ((demander_revision now id code m user db).1.versions
                  ≡ update_where (version_has_id id) (with_statut ouvert now user) db.versions))
    unfolding demander_revision
    demander_revision-versions m v found = ground arith

    retirer_cr_snapshot-versions :
        (m : String) (forcer : Bool) (v : DimVersion)
        → find_one (version_has_id id) db.versions ≡ some v
        → ((retirer_cr_snapshot now id code m user forcer db).1.versions ≡ db.versions)
          ⊎ ((v.statut ≡ ouvert)
              × ((retirer_cr_snapshot now id code m user forcer db).1.versions
                  ≡ update_where
                      (version_has_id v.id)
                      (with_statut pre_valide now user)
                      db.versions))
    unfolding retirer_cr_snapshot bascule
    retirer_cr_snapshot-versions m forcer v found = ground arith

    pub valider_cr-missing :
        (c : Option String)
        → find_one (version_has_id id) db.versions ≡ none
        → (valider_cr perimetre now id code c user db).1.versions ≡ db.versions
    unfolding valider_cr
    valider_cr-missing c missing = ground arith

    pub retirer_cr_snapshot-missing :
        (m : String) (forcer : Bool)
        → find_one (version_has_id id) db.versions ≡ none
        → (retirer_cr_snapshot now id code m user forcer db).1 ≡ db
    unfolding retirer_cr_snapshot
    retirer_cr_snapshot-missing m forcer missing = ground arith

    pub valider_cr-effect :
        (c : Option String)
        → VersionEffect is_edge db.versions (valider_cr perimetre now id code c user db).1.versions
    unfolding valider_cr
    valider_cr-effect c = elim (Option-cases (find_one (version_has_id id) db.versions)) [
      | inl missing ↦ unchanged (ground arith)
      | inr (v, found) ↦
          let by_id : v.id ≡ id =
            ground (arith, find_one_sound (version_has_id id) db.versions found) in
          effect_of_move is_edge id v.id v ouvert pre_valide now user found by_id refl
            (valider_cr-versions c v found)
    ]

    pub rouvrir_cr-effect :
        (m : String)
        → VersionEffect is_manual db.versions
            (rouvrir_cr perimetre now id code m user db).1.versions
    unfolding rouvrir_cr
    rouvrir_cr-effect m = elim (Option-cases (find_one (version_has_id id) db.versions)) [
      | inl missing ↦ unchanged (ground arith)
      | inr (v, found) ↦
          let by_id : v.id ≡ id =
            ground (arith, find_one_sound (version_has_id id) db.versions found) in
          effect_of_move is_manual id id v pre_valide ouvert now user found refl refl
            (rouvrir_cr-versions m v found)
    ]

    pub demander_revision-effect :
        (m : String)
        → VersionEffect is_manual db.versions (demander_revision now id code m user db).1.versions
    unfolding demander_revision
    demander_revision-effect m = elim (Option-cases (find_one (version_has_id id) db.versions)) [
      | inl missing ↦ unchanged (ground arith)
      | inr (v, found) ↦
          let by_id : v.id ≡ id =
            ground (arith, find_one_sound (version_has_id id) db.versions found) in
          effect_of_move is_manual id id v soumis_comite ouvert now user found refl refl
            (demander_revision-versions m v found)
    ]

    pub retirer_cr_snapshot-effect :
        (m : String) (forcer : Bool)
        → VersionEffect is_edge db.versions
            (retirer_cr_snapshot now id code m user forcer db).1.versions
    unfolding retirer_cr_snapshot
    retirer_cr_snapshot-effect m forcer =
        elim (Option-cases (find_one (version_has_id id) db.versions)) [
          | inl missing ↦ unchanged (ground arith)
          | inr (v, found) ↦
              let by_id : v.id ≡ id =
                ground (arith, find_one_sound (version_has_id id) db.versions found) in
              effect_of_move is_edge id v.id v ouvert pre_valide now user found by_id refl
                (retirer_cr_snapshot-versions m forcer v found)
        ]

    pub reintegrer_cr_snapshot-versions :
        (reintegrer_cr_snapshot now id code user db).1.versions ≡ db.versions
    unfolding reintegrer_cr_snapshot
    reintegrer_cr_snapshot-versions = ground arith

    pub initialiser_snapshot-versions :
        (roles : RoleDirectory)
        → (initialiser_snapshot perimetre roles id user db).1.versions ≡ db.versions
    unfolding initialiser_snapshot
    initialiser_snapshot-versions roles = ground (
      arith,
      inserer_manquants-versions id (union_perimetres perimetre roles.saisisseurs_actifs []) db,
    )

  pub assert_cr_modifiable-versions :
      (id cr : ℕ) → (assert_cr_modifiable id cr db).1.versions ≡ db.versions
  unfolding assert_cr_modifiable
  assert_cr_modifiable-versions id cr = ground arith
