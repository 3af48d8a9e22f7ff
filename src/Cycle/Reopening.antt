-- ===== src/Cycle/Reopening.antt =====
-- The calls that move a version and a centre together: pre-validation, reopening, revision, and the
-- changes of the snapshot.
use budget_backend.Base.{
  ℕ, String, Option, some, Bool, true, false, ◌≡◌, ◌⊎◌, inl, inr, List, [], ◌∷◌, arith, find_one,
  find_one_sound, update_where, Bool-cases, Option-cases, Result-cases,
}
use budget_backend.Entities.{Db, AuthUser}
use budget_backend.Entities.Version.{DimVersion, ouvert, pre_valide, version_has_id}
use budget_backend.Entities.Centre.{attendu_is_of, is_centre_courant}
use budget_backend.Interfaces.{PerimetreService, RoleDirectory}
use budget_backend.CrWorkflow.Helpers.{bascule}
use budget_backend.CrWorkflow.Transitions.{valider_cr, rouvrir_cr}
use budget_backend.CrWorkflow.Comite.{demander_revision}
use budget_backend.CrWorkflow.Snapshot.{
  retirer_cr_snapshot, reintegrer_cr_snapshot, initialiser_snapshot, inserer_manquants, attendu_is,
  is_none, union_perimetres, nouvel_attendu,
}
use budget_backend.Cycle.Graph.{with_statut, find_move}
use budget_backend.Cycle.SnapshotGraph.{is_attendu, any-update_where, any-append}
use budget_backend.Cycle.PreValidation.{comite_at}

module _ (now : ℕ) (user : AuthUser) (db : Db) (id : ℕ) (code : String) where
  pub valider_cr-bascule :
      (perimetre : PerimetreService) (c : Option String) (v : DimVersion)
      → find_one (version_has_id id) db.versions ≡ some v
      → let db' = (valider_cr perimetre now id code c user db).1 in
        (db'.versions ≡ db.versions)
        ⊎ ((bascule v db' ≡ true)
            × (db'.versions
                ≡ update_where (version_has_id v.id) (with_statut pre_valide now user) db.versions))
  unfolding valider_cr bascule
  valider_cr-bascule perimetre c v found = ground arith

  pub retirer_cr_snapshot-bascule :
      (m : String) (forcer : Bool) (v : DimVersion)
      → find_one (version_has_id id) db.versions ≡ some v
      → let db' = (retirer_cr_snapshot now id code m user forcer db).1 in
        (db'.versions ≡ db.versions)
        ⊎ ((bascule v db' ≡ true)
            × (db'.versions
                ≡ update_where (version_has_id v.id) (with_statut pre_valide now user) db.versions))
  unfolding retirer_cr_snapshot bascule
  retirer_cr_snapshot-bascule m forcer v found = ground arith

  pub rouvrir_cr-reopens :
      (perimetre : PerimetreService) (m : String)
      → let db' = (rouvrir_cr perimetre now id code m user db).1 in
        (db'.statuts ≡ db.statuts) ⊎ (comite_at id db' ≡ false)
  unfolding rouvrir_cr
  rouvrir_cr-reopens perimetre m = elim (Option-cases (find_one (version_has_id id) db.versions)) [
    | inl missing ↦ inl (ground arith)
    | inr (v, found) ↦
        let keyed = find_one_sound (version_has_id id) db.versions found in
        ground (arith, find_move id id ouvert now user db.versions)
  ]

  pub demander_revision-reopens :
      (m : String)
      → let db' = (demander_revision now id code m user db).1 in
        (db'.statuts ≡ db.statuts) ⊎ (comite_at id db' ≡ false)
  unfolding demander_revision
  demander_revision-reopens m = elim (Option-cases (find_one (version_has_id id) db.versions)) [
    | inl missing ↦ inl (ground arith)
    | inr (v, found) ↦
        let keyed = find_one_sound (version_has_id id) db.versions found in
        ground (arith, find_move id id ouvert now user db.versions)
  ]

  -- A centre that is taken out brings none in.
  pub retirer_cr_snapshot-shrinks :
      (m : String) (forcer : Bool) (k cr : ℕ)
      → is_attendu k cr (retirer_cr_snapshot now id code m user forcer db).1.attendus ≡ true
      → is_attendu k cr db.attendus ≡ true
  unfolding retirer_cr_snapshot bascule
  retirer_cr_snapshot-shrinks m forcer k cr h =
      elim (Result-cases (retirer_cr_snapshot now id code m user forcer db).0) [
        | inl (a, done) ↦ ground (
          arith,
          any-update_where (attendu_is true k cr) (attendu_is_of a.fk_version a.fk_cr) a
              db.attendus,
        )
        | inr (x, failed) ↦ ground arith
      ]

  -- A centre is put back only while its version is open.
  pub reintegrer_cr_snapshot-adds :
      (k cr : ℕ)
      → is_attendu k cr (reintegrer_cr_snapshot now id code user db).1.attendus ≡ true
      → (is_attendu k cr db.attendus ≡ true) ⊎ ((k ≡ id) × (comite_at id db ≡ false))
  unfolding reintegrer_cr_snapshot
  reintegrer_cr_snapshot-adds k cr h =
      elim (Option-cases (find_one (version_has_id id) db.versions)) [
        | inl missing ↦ inl (ground arith)
        | inr (v, found) ↦ elim (Option-cases (find_one (is_centre_courant code) db.centres)) [
          | inl unknown ↦ inl (ground arith)
          | inr (centre, c_found) ↦
              elim (Option-cases (find_one (attendu_is false id centre.id) db.attendus)) [
                | inl absent ↦ inl (ground arith)
                | inr (old, o_found) ↦
                    let keys = find_one_sound (attendu_is false id centre.id) db.attendus o_found in
                    elim (Result-cases (reintegrer_cr_snapshot now id code user db).0) [
                      | inl (a, done) ↦ ground (
                        arith,
                        any-update_where (attendu_is true k cr) (attendu_is_of a.fk_version a.fk_cr)
                            a db.attendus,
                      )
                      | inr (x, failed) ↦ ground arith
                    ]
              ]
        ]
      ]

inserer_manquants-adds :
    (version k cr : ℕ) (crs : List ℕ) (db : Db)
    → is_attendu k cr (inserer_manquants version crs db).0.attendus ≡ true
    → (is_attendu k cr db.attendus ≡ true) ⊎ (k ≡ version)
unfolding inserer_manquants
inserer_manquants-adds version k cr [] db h = inl h
inserer_manquants-adds version k cr (c ∷ crs) db h =
    elim (Bool-cases (is_none (find_one (attendu_is_of version c) db.attendus))) [
      | inl missing ↦ ground (
        arith,
        inserer_manquants-adds version k cr crs _ (rw missing at h),
        any-append (attendu_is true k cr) db.attendus (nouvel_attendu db.prochain_id version c),
      )
      | inr present ↦ inserer_manquants-adds version k cr crs db (rw present at h)
    ]

-- The initialisation touches the snapshot of its own version alone.
pub initialiser_snapshot-adds :
    (perimetre : PerimetreService) (roles : RoleDirectory) (id : ℕ) (user : AuthUser) (db : Db)
    (k cr : ℕ)
    → is_attendu k cr (initialiser_snapshot perimetre roles id user db).1.attendus ≡ true
    → (is_attendu k cr db.attendus ≡ true) ⊎ (k ≡ id)
unfolding initialiser_snapshot
initialiser_snapshot-adds perimetre roles id user db k cr h = ground (
  arith,
  inserer_manquants-adds id k cr (union_perimetres perimetre roles.saisisseurs_actifs []) db,
)
