-- ===== src/Cycle/Life.antt =====
-- What any request of the two workflows makes of a version.
use budget_backend.Base.{ℕ, refl, find_one}
use budget_backend.Entities.{Db}
use budget_backend.Entities.Version.{version_has_id}
use budget_backend.Cycle.Graph.{Moves, unchanged, VersionEffect-Moves, is_edge, Moves-manual}
use budget_backend.Cycle.VersionWrites.{
  executer-effect, soumettre_comite-effect, approuver_comite-effect, update-effect, create-effect,
  soft_delete-effect,
}
use budget_backend.Cycle.CrWrites.{
  soumettre_cr-versions, rejeter_cr-versions, reintegrer_cr_snapshot-versions,
  initialiser_snapshot-versions, assert_cr_modifiable-versions, valider_cr-effect,
  rouvrir_cr-effect, demander_revision-effect, retirer_cr_snapshot-effect,
}
use budget_backend.Cycle.Requests.{
  Operation, version_transition, version_create, version_update, version_delete, cr_soumettre,
  cr_valider, cr_rejeter, cr_rouvrir, comite_soumettre, comite_approuver, comite_revision,
  snapshot_initialiser, snapshot_retirer, snapshot_reintegrer, saisie_verrou, saisie_lignes,
  Request, perform, step,
}

perform-Moves :
    (o : Operation) (r : Request) (db : Db) (k : ℕ)
    → Moves is_edge
        (find_one (version_has_id k) db.versions)
        (find_one (version_has_id k) (perform o r db).versions)
perform-Moves (version_transition t id c m) r db k =
    Moves-manual _ _
      (VersionEffect-Moves k (executer-effect r.now r.user db r.permissions id c m t))
perform-Moves (version_create dto) r db k =
    Moves-manual _ _ (VersionEffect-Moves k (create-effect r.now r.user db dto))
perform-Moves (version_update id dto) r db k =
    Moves-manual _ _ (VersionEffect-Moves k (update-effect r.now r.user db id dto))
perform-Moves (version_delete id) r db k =
    Moves-manual _ _ (VersionEffect-Moves k (soft_delete-effect r.now r.user db id))
perform-Moves (cr_soumettre id code c) r db k =
    VersionEffect-Moves k (unchanged (soumettre_cr-versions r.now r.user db r.perimetre id code c))
perform-Moves (cr_valider id code c) r db k =
    VersionEffect-Moves k (valider_cr-effect r.now r.user db r.perimetre id code c)
perform-Moves (cr_rejeter id code m) r db k =
    VersionEffect-Moves k (unchanged (rejeter_cr-versions r.now r.user db r.perimetre id code m))
perform-Moves (cr_rouvrir id code m) r db k =
    Moves-manual _ _
      (VersionEffect-Moves k (rouvrir_cr-effect r.now r.user db r.perimetre id code m))
perform-Moves (comite_soumettre id c) r db k =
    Moves-manual _ _ (VersionEffect-Moves k (soumettre_comite-effect r.now r.user db id c))
perform-Moves (comite_approuver id c) r db k =
    Moves-manual _ _ (VersionEffect-Moves k (approuver_comite-effect r.now r.user db id c))
perform-Moves (comite_revision id code m) r db k =
    Moves-manual _ _
      (VersionEffect-Moves k (demander_revision-effect r.now r.user db r.perimetre id code m))
perform-Moves (snapshot_initialiser id) r db k =
    VersionEffect-Moves k
      (unchanged (initialiser_snapshot-versions r.now r.user db r.perimetre id "" r.roles))
perform-Moves (snapshot_retirer id code m f) r db k =
    VersionEffect-Moves k (retirer_cr_snapshot-effect r.now r.user db r.perimetre id code m f)
perform-Moves (snapshot_reintegrer id code) r db k =
    VersionEffect-Moves k
      (unchanged (reintegrer_cr_snapshot-versions r.now r.user db r.perimetre id code))
perform-Moves (saisie_verrou id cr) r db k =
    VersionEffect-Moves k (unchanged (assert_cr_modifiable-versions r.now r.user db id cr))
perform-Moves (saisie_lignes lignes) r db k = VersionEffect-Moves k (unchanged refl)

-- Whatever request of the two workflows is made, the version under an identifier stays as it is
-- but perhaps for the number of its replacement, follows an edge of the diagram, or appears or
-- disappears as an open version.
pub step-Moves :
    (r : Request) (db : Db) (k : ℕ)
    → Moves is_edge
        (find_one (version_has_id k) db.versions)
        (find_one (version_has_id k) (step r db).versions)
step-Moves r db k = perform-Moves r.operation r db k
