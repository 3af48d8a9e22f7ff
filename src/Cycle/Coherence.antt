-- ===== src/Cycle/Coherence.antt =====
-- The pre-validation invariant under any request, and the one request that breaks it.
use budget_backend.Base.{
  ℕ, String, Bool, true, false, ◌≡◌, refl, inl, inr, List, [], ◌∷◌, find_one, Option-cases,
}
use budget_backend.Entities.{Db}
use budget_backend.Entities.Version.{version_has_id}
use budget_backend.Entities.Centre.{en_saisie, soumis, valide}
use budget_backend.CrWorkflow.Snapshot.{
  initialiser_snapshot, retirer_cr_snapshot, reintegrer_cr_snapshot,
}
use budget_backend.Cycle.Graph.{unchanged}
use budget_backend.Cycle.VersionWrites.{
  executer-effect, soumettre_comite-effect, approuver_comite-effect, update-effect, create-effect,
  soft_delete-effect,
}
use budget_backend.Cycle.CrWrites.{
  soumettre_cr-versions, rejeter_cr-versions, reintegrer_cr_snapshot-versions,
  initialiser_snapshot-versions, assert_cr_modifiable-versions, rouvrir_cr-effect,
  demander_revision-effect, valider_cr-missing, retirer_cr_snapshot-missing,
}
use budget_backend.Cycle.StatutWrites.{
  soumettre_cr-statuts, valider_cr-statuts, rejeter_cr-statuts, rouvrir_cr-statuts,
  demander_revision-statuts, retirer_cr_snapshot-statuts, reintegrer_cr_snapshot-statuts,
  assert_cr_modifiable-statuts,
}
use budget_backend.Cycle.Untouched.{
  executer-Untouched, create-Untouched, update-Untouched, soft_delete-Untouched,
  soumettre_comite-Untouched, approuver_comite-Untouched, soumettre_cr-attendus,
  valider_cr-attendus, rejeter_cr-attendus, rouvrir_cr-attendus, demander_revision-attendus,
  assert_cr_modifiable-attendus, initialiser_snapshot-statuts,
}
use budget_backend.Cycle.PreValidation.{
  comite_at, IsCoherent, Untouched-IsCoherent, stays_valide, StatutEffect-IsCoherent,
  reopened-IsCoherent, bascule-IsCoherent,
}
use budget_backend.Cycle.Reopening.{
  valider_cr-bascule, retirer_cr_snapshot-bascule, rouvrir_cr-reopens, demander_revision-reopens,
  retirer_cr_snapshot-shrinks, reintegrer_cr_snapshot-adds, initialiser_snapshot-adds,
}
use budget_backend.Cycle.Requests.{
  Operation, version_transition, version_create, version_update, version_delete, cr_soumettre,
  cr_valider, cr_rejeter, cr_rouvrir, comite_soumettre, comite_approuver, comite_revision,
  snapshot_initialiser, snapshot_retirer, snapshot_reintegrer, saisie_verrou, saisie_lignes,
  Request, perform, step, run,
}

-- All requests but an initialisation of the snapshot of a version in the committee phase.
abbrev pub IsOrderly : Operation → Db → Type 0
IsOrderly (snapshot_initialiser id) db = comite_at id db ≡ false
IsOrderly _ db = Unit {0}

initialiser-IsCoherent :
    (r : Request) (db : Db) (id : ℕ)
    → comite_at id db ≡ false
    → IsCoherent db
    → IsCoherent (initialiser_snapshot r.perimetre r.roles id r.user db).1
initialiser-IsCoherent r db id out inv k cr phase there =
    let same = initialiser_snapshot-versions r.now r.user db r.perimetre id "" r.roles in
    let phase_before : comite_at k db ≡ true = rw same at phase in
    elim (initialiser_snapshot-adds r.perimetre r.roles id r.user db k cr there) [
      | inl before ↦
          rw (initialiser_snapshot-statuts r.now r.user db r.perimetre r.roles id)
            (inv k cr phase_before before)
      | inr at_id ↦ let clash : comite_at id db ≡ true = rw at_id at phase_before in cc
    ]

retirer-IsCoherent :
    (r : Request) (db : Db) (id : ℕ) (code m : String) (f : Bool)
    → IsCoherent db
    → IsCoherent (retirer_cr_snapshot r.now id code m r.user f db).1
retirer-IsCoherent r db id code m f inv =
    elim (Option-cases (find_one (version_has_id id) db.versions)) [
      | inl missing ↦
          rw (retirer_cr_snapshot-missing r.now r.user db r.perimetre id code m f missing) inv
      | inr (v, found) ↦
          bascule-IsCoherent v r.now r.user db (retirer_cr_snapshot r.now id code m r.user f db).1
            (retirer_cr_snapshot-bascule r.now r.user db id code m f v found)
            (λ k cr h. rw (retirer_cr_snapshot-statuts r.now r.user db r.perimetre id code m f) h)
            (retirer_cr_snapshot-shrinks r.now r.user db id code m f) inv
    ]

reintegrer-IsCoherent :
    (r : Request) (db : Db) (id : ℕ) (code : String)
    → IsCoherent db
    → IsCoherent (reintegrer_cr_snapshot r.now id code r.user db).1
reintegrer-IsCoherent r db id code inv k cr phase there =
    let same = reintegrer_cr_snapshot-versions r.now r.user db r.perimetre id code in
    let phase_before : comite_at k db ≡ true = rw same at phase in
    elim (reintegrer_cr_snapshot-adds r.now r.user db id code k cr there) [
      | inl before ↦
          rw (reintegrer_cr_snapshot-statuts r.now r.user db r.perimetre id code)
            (inv k cr phase_before before)
      | inr (at_id, out) ↦ let clash : comite_at id db ≡ true = rw at_id at phase_before in cc
    ]

perform-IsCoherent :
    (o : Operation) (r : Request) (db : Db)
    → IsOrderly o db
    → IsCoherent db
    → IsCoherent (perform o r db)
perform-IsCoherent (version_transition t id c m) r db ok inv =
    Untouched-IsCoherent db (perform (version_transition t id c m) r db)
      (executer-effect r.now r.user db r.permissions id c m t)
      (executer-Untouched r.now r.user db r.permissions id c m t) inv
perform-IsCoherent (version_create dto) r db ok inv =
    Untouched-IsCoherent db (perform (version_create dto) r db) (create-effect r.now r.user db dto)
      (create-Untouched r.now r.user db dto) inv
perform-IsCoherent (version_update id dto) r db ok inv =
    Untouched-IsCoherent db (perform (version_update id dto) r db)
      (update-effect r.now r.user db id dto) (update-Untouched r.now r.user db id dto) inv
perform-IsCoherent (version_delete id) r db ok inv =
    Untouched-IsCoherent db (perform (version_delete id) r db)
      (soft_delete-effect r.now r.user db id) (soft_delete-Untouched r.now r.user db id) inv
perform-IsCoherent (cr_soumettre id code c) r db ok inv =
    StatutEffect-IsCoherent id en_saisie soumis db (perform (cr_soumettre id code c) r db)
      (unchanged (soumettre_cr-versions r.now r.user db r.perimetre id code c))
      (soumettre_cr-statuts r.now r.user db r.perimetre id code c) (inl refl)
      (soumettre_cr-attendus r.now r.user db r.perimetre id code c) inv
perform-IsCoherent (cr_valider id code c) r db ok inv =
    elim (Option-cases (find_one (version_has_id id) db.versions)) [
      | inl missing ↦
          StatutEffect-IsCoherent id soumis valide db (perform (cr_valider id code c) r db)
            (unchanged (valider_cr-missing r.now r.user db r.perimetre id code c missing))
            (valider_cr-statuts r.now r.user db r.perimetre id code c) (inl refl)
            (valider_cr-attendus r.now r.user db r.perimetre id code c) inv
      | inr (v, found) ↦
          bascule-IsCoherent v r.now r.user db (perform (cr_valider id code c) r db)
            (valider_cr-bascule r.now r.user db id code r.perimetre c v found)
            (λ k cr.
              stays_valide k cr id soumis valide db (perform (cr_valider id code c) r db)
                (valider_cr-statuts r.now r.user db r.perimetre id code c) (inl refl))
            (λ k cr h. rw (valider_cr-attendus r.now r.user db r.perimetre id code c) at h) inv
    ]
perform-IsCoherent (cr_rejeter id code m) r db ok inv =
    StatutEffect-IsCoherent id soumis en_saisie db (perform (cr_rejeter id code m) r db)
      (unchanged (rejeter_cr-versions r.now r.user db r.perimetre id code m))
      (rejeter_cr-statuts r.now r.user db r.perimetre id code m) (inl refl)
      (rejeter_cr-attendus r.now r.user db r.perimetre id code m) inv
perform-IsCoherent (cr_rouvrir id code m) r db ok inv =
    reopened-IsCoherent id valide en_saisie db (perform (cr_rouvrir id code m) r db)
      (rouvrir_cr-effect r.now r.user db r.perimetre id code m)
      (rouvrir_cr-statuts r.now r.user db r.perimetre id code m)
      (rouvrir_cr-reopens r.now r.user db id code r.perimetre m)
      (rouvrir_cr-attendus r.now r.user db r.perimetre id code m) inv
perform-IsCoherent (comite_soumettre id c) r db ok inv =
    Untouched-IsCoherent db (perform (comite_soumettre id c) r db)
      (soumettre_comite-effect r.now r.user db id c)
      (soumettre_comite-Untouched r.now r.user db id c) inv
perform-IsCoherent (comite_approuver id c) r db ok inv =
    Untouched-IsCoherent db (perform (comite_approuver id c) r db)
      (approuver_comite-effect r.now r.user db id c)
      (approuver_comite-Untouched r.now r.user db id c) inv
perform-IsCoherent (comite_revision id code m) r db ok inv =
    reopened-IsCoherent id valide en_saisie db (perform (comite_revision id code m) r db)
      (demander_revision-effect r.now r.user db r.perimetre id code m)
      (demander_revision-statuts r.now r.user db r.perimetre id code m)
      (demander_revision-reopens r.now r.user db id code m)
      (demander_revision-attendus r.now r.user db id code m) inv
perform-IsCoherent (snapshot_initialiser id) r db ok inv = initialiser-IsCoherent r db id ok inv
perform-IsCoherent (snapshot_retirer id code m f) r db ok inv =
    retirer-IsCoherent r db id code m f inv
perform-IsCoherent (snapshot_reintegrer id code) r db ok inv =
    reintegrer-IsCoherent r db id code inv
perform-IsCoherent (saisie_verrou id cr) r db ok inv =
    StatutEffect-IsCoherent id en_saisie en_saisie db (perform (saisie_verrou id cr) r db)
      (unchanged (assert_cr_modifiable-versions r.now r.user db id cr))
      (assert_cr_modifiable-statuts r.now r.user db id cr) (inl refl)
      (assert_cr_modifiable-attendus r.now r.user db id cr) inv
perform-IsCoherent (saisie_lignes lignes) r db ok inv = inv

-- Every request but an initialisation of the snapshot of a version in the committee phase keeps the
-- invariant: a version that is pre-validated or before the committee has every centre of its active
-- snapshot VALIDE.
pub step-IsCoherent :
    (r : Request) (db : Db) → IsOrderly r.operation db → IsCoherent db → IsCoherent (step r db)
step-IsCoherent r db ok inv = perform-IsCoherent r.operation r db ok inv

-- A history in which each request is orderly when it comes.
abbrev pub AllOrderly : List Request → Db → Type 0
AllOrderly [] db = Unit {0}
AllOrderly (r ∷ rs) db = IsOrderly r.operation db × AllOrderly rs (step r db)

-- A history of requests keeps the pre-validation invariant, if no request of it initialises the
-- snapshot of a version that is in the committee phase when the request comes.
pub run-IsCoherent :
    (rs : List Request) (db : Db) → AllOrderly rs db → IsCoherent db → IsCoherent (run rs db)
run-IsCoherent [] db ok inv = inv
run-IsCoherent (r ∷ rs) db (first, rest) inv =
    run-IsCoherent rs (step r db) rest (step-IsCoherent r db first inv)
