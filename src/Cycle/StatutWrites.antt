-- ===== src/Cycle/StatutWrites.antt =====
-- What each call of the centre workflow writes to the table of statuses.
use budget_backend.Base.{
  ℕ, String, Option, Bool, ◌≡◌, refl, inl, inr, arith, find_one, find_one_sound, Option-cases,
  Result-cases,
}
use budget_backend.Entities.{Db, AuthUser}
use budget_backend.Entities.Version.{version_has_id}
use budget_backend.Entities.Centre.{en_saisie, soumis, valide, statut_is_of, is_centre_courant}
use budget_backend.Interfaces.{PerimetreService}
use budget_backend.CrWorkflow.Helpers.{bascule, assert_cr_modifiable, nouveau_statut}
use budget_backend.CrWorkflow.Transitions.{soumettre_cr, valider_cr, rejeter_cr, rouvrir_cr}
use budget_backend.CrWorkflow.Comite.{demander_revision}
use budget_backend.CrWorkflow.Snapshot.{retirer_cr_snapshot, reintegrer_cr_snapshot}
use budget_backend.Cycle.StatutGraph.{StatutEffect, unchanged, changed, appended}

module _ (now : ℕ) (user : AuthUser) (db : Db) where
  module _ (perimetre : PerimetreService) (id : ℕ) (code : String) where
    pub soumettre_cr-statuts :
        (c : Option String)
        → StatutEffect id en_saisie soumis db.statuts
            (soumettre_cr perimetre now id code c user db).1.statuts
    unfolding soumettre_cr
    soumettre_cr-statuts c = elim (Option-cases (find_one (version_has_id id) db.versions)) [
      | inl missing ↦ unchanged (ground arith)
      | inr (v, v_found) ↦ elim (Option-cases (find_one (is_centre_courant code) db.centres)) [
        | inl unknown ↦ unchanged (ground arith)
        | inr (centre, c_found) ↦
            elim (Option-cases (find_one (statut_is_of id centre.id) db.statuts)) [
              | inl absent ↦ elim (Result-cases (soumettre_cr perimetre now id code c user db).0) [
                | inl (s, done) ↦
                    let key : s.fk_cr ≡ centre.id = ground arith in
                    appended s (rw key absent) (ground arith) refl (ground arith) (ground arith)
                | inr (x, failed) ↦ unchanged (ground arith)
              ]
              | inr (old, found) ↦
                  let keys = find_one_sound (statut_is_of id centre.id) db.statuts found in
                  elim (Result-cases (soumettre_cr perimetre now id code c user db).0) [
                    | inl (s, done) ↦
                        let key : s.fk_cr ≡ centre.id = ground arith in
                        changed old s (rw key found) (ground arith) (ground arith) (ground arith)
                          (ground arith)
                    | inr (x, failed) ↦ unchanged (ground arith)
                  ]
            ]
      ]
    ]

    pub valider_cr-statuts :
        (c : Option String)
        → StatutEffect id soumis valide db.statuts
            (valider_cr perimetre now id code c user db).1.statuts
    unfolding valider_cr bascule
    valider_cr-statuts c = elim (Option-cases (find_one (version_has_id id) db.versions)) [
      | inl missing ↦ unchanged (ground arith)
      | inr (v, v_found) ↦ elim (Option-cases (find_one (is_centre_courant code) db.centres)) [
        | inl unknown ↦ unchanged (ground arith)
        | inr (centre, c_found) ↦
            elim (Option-cases (find_one (statut_is_of id centre.id) db.statuts)) [
              | inl absent ↦ unchanged (ground arith)
              | inr (old, found) ↦
                  let keys = find_one_sound (statut_is_of id centre.id) db.statuts found in
                  elim (Result-cases (valider_cr perimetre now id code c user db).0) [
                    | inl (s, done) ↦
                        let key : s.fk_cr ≡ centre.id = ground arith in
                        changed old s (rw key found) (ground arith) (ground arith) (ground arith)
                          (ground arith)
                    | inr (x, failed) ↦ unchanged (ground arith)
                  ]
            ]
      ]
    ]

    pub rejeter_cr-statuts :
        (m : String)
        → StatutEffect id soumis en_saisie db.statuts
            (rejeter_cr perimetre now id code m user db).1.statuts
    unfolding rejeter_cr
    rejeter_cr-statuts m = elim (Option-cases (find_one (version_has_id id) db.versions)) [
      | inl missing ↦ unchanged (ground arith)
      | inr (v, v_found) ↦ elim (Option-cases (find_one (is_centre_courant code) db.centres)) [
        | inl unknown ↦ unchanged (ground arith)
        | inr (centre, c_found) ↦
            elim (Option-cases (find_one (statut_is_of id centre.id) db.statuts)) [
              | inl absent ↦ unchanged (ground arith)
              | inr (old, found) ↦
                  let keys = find_one_sound (statut_is_of id centre.id) db.statuts found in
                  elim (Result-cases (rejeter_cr perimetre now id code m user db).0) [
                    | inl (s, done) ↦
                        let key : s.fk_cr ≡ centre.id = ground arith in
                        changed old s (rw key found) (ground arith) (ground arith) (ground arith)
                          (ground arith)
                    | inr (x, failed) ↦ unchanged (ground arith)
                  ]
            ]
      ]
    ]

    pub rouvrir_cr-statuts :
        (m : String)
        → StatutEffect id valide en_saisie db.statuts
            (rouvrir_cr perimetre now id code m user db).1.statuts
    unfolding rouvrir_cr
    rouvrir_cr-statuts m = elim (Option-cases (find_one (version_has_id id) db.versions)) [
      | inl missing ↦ unchanged (ground arith)
      | inr (v, v_found) ↦ elim (Option-cases (find_one (is_centre_courant code) db.centres)) [
        | inl unknown ↦ unchanged (ground arith)
        | inr (centre, c_found) ↦
            elim (Option-cases (find_one (statut_is_of id centre.id) db.statuts)) [
              | inl absent ↦ unchanged (ground arith)
              | inr (old, found) ↦
                  let keys = find_one_sound (statut_is_of id centre.id) db.statuts found in
                  elim (Result-cases (rouvrir_cr perimetre now id code m user db).0) [
                    | inl (s, done) ↦
                        let key : s.fk_cr ≡ centre.id = ground arith in
                        changed old s (rw key found) (ground arith) (ground arith) (ground arith)
                          (ground arith)
                    | inr (x, failed) ↦ unchanged (ground arith)
                  ]
            ]
      ]
    ]

    pub demander_revision-statuts :
        (m : String)
        → StatutEffect id valide en_saisie db.statuts
            (demander_revision now id code m user db).1.statuts
    unfolding demander_revision
    demander_revision-statuts m = elim (Option-cases (find_one (version_has_id id) db.versions)) [
      | inl missing ↦ unchanged (ground arith)
      | inr (v, v_found) ↦ elim (Option-cases (find_one (is_centre_courant code) db.centres)) [
        | inl unknown ↦ unchanged (ground arith)
        | inr (centre, c_found) ↦
            elim (Option-cases (find_one (statut_is_of id centre.id) db.statuts)) [
              | inl absent ↦ unchanged (ground arith)
              | inr (old, found) ↦
                  let keys = find_one_sound (statut_is_of id centre.id) db.statuts found in
                  elim (Result-cases (demander_revision now id code m user db).0) [
                    | inl (s, done) ↦
                        let key : s.fk_cr ≡ centre.id = ground arith in
                        changed old s (rw key found) (ground arith) (ground arith) (ground arith)
                          (ground arith)
                    | inr (x, failed) ↦ unchanged (ground arith)
                  ]
            ]
      ]
    ]

    pub retirer_cr_snapshot-statuts :
        (m : String) (forcer : Bool)
        → (retirer_cr_snapshot now id code m user forcer db).1.statuts ≡ db.statuts
    unfolding retirer_cr_snapshot bascule
    retirer_cr_snapshot-statuts m forcer = ground arith

    pub reintegrer_cr_snapshot-statuts :
        (reintegrer_cr_snapshot now id code user db).1.statuts ≡ db.statuts
    unfolding reintegrer_cr_snapshot
    reintegrer_cr_snapshot-statuts = ground arith

  pub assert_cr_modifiable-statuts :
      (id cr : ℕ)
      → StatutEffect id en_saisie en_saisie db.statuts (assert_cr_modifiable id cr db).1.statuts
  unfolding assert_cr_modifiable
  assert_cr_modifiable-statuts id cr =
      elim (Option-cases (find_one (statut_is_of id cr) db.statuts)) [
        | inl absent ↦
            appended (nouveau_statut db.prochain_id id cr) absent refl refl refl (ground arith)
        | inr (s, found) ↦ unchanged (ground arith)
      ]
