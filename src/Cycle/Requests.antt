-- ===== src/Cycle/Requests.antt =====
-- A request, its effect on the database, and a history of requests.
use budget_backend.Base.{ℕ, String, Option, Bool, List, [], ◌∷◌}
use budget_backend.Entities.{Db, AuthUser}
use budget_backend.Entities.Ligne.{LigneBudget}
use budget_backend.Interfaces.{PermissionsService, PerimetreService, RoleDirectory}
use budget_backend.VersionWorkflow.{Transition}
use budget_backend.VersionWorkflow.Transitions.{executer}
use budget_backend.VersionService.{CreateVersionDto, UpdateVersionDto, create, update, soft_delete}
use budget_backend.CrWorkflow.Helpers.{assert_cr_modifiable}
use budget_backend.CrWorkflow.Transitions.{soumettre_cr, valider_cr, rejeter_cr, rouvrir_cr}
use budget_backend.CrWorkflow.Comite.{soumettre_comite, approuver_comite, demander_revision}
use budget_backend.CrWorkflow.Snapshot.{
  initialiser_snapshot, retirer_cr_snapshot, reintegrer_cr_snapshot,
}

pub data Operation : Type 0 where
  version_transition : Transition → ℕ → Option String → String → Operation
  version_create : CreateVersionDto → Operation
  version_update : ℕ → UpdateVersionDto → Operation
  version_delete : ℕ → Operation
  cr_soumettre cr_valider : ℕ → String → Option String → Operation
  cr_rejeter cr_rouvrir : ℕ → String → String → Operation
  comite_soumettre comite_approuver : ℕ → Option String → Operation
  comite_revision : ℕ → String → String → Operation
  snapshot_initialiser : ℕ → Operation
  snapshot_retirer : ℕ → String → String → Bool → Operation
  snapshot_reintegrer : ℕ → String → Operation
  -- the lock that stands before a write of budget lines, and the write itself, which may leave any
  -- lines
  saisie_verrou : ℕ → ℕ → Operation
  saisie_lignes : List LigneBudget → Operation

-- The user, the instant, and what the other services answer while the request runs.
pub record Request : Type 0 where
  pub operation : Operation
  pub user : AuthUser
  pub now : ℕ
  pub permissions : PermissionsService
  pub perimetre : PerimetreService
  pub roles : RoleDirectory

abbrev pub perform : Operation → Request → Db → Db
perform (version_transition t id c m) r db = (executer r.permissions r.now id c m r.user t db).1
perform (version_create dto) r db = (create r.now r.user dto db).1
perform (version_update id dto) r db = (update r.now r.user id dto db).1
perform (version_delete id) r db = (soft_delete id db).1
perform (cr_soumettre id code c) r db = (soumettre_cr r.perimetre r.now id code c r.user db).1
perform (cr_valider id code c) r db = (valider_cr r.perimetre r.now id code c r.user db).1
perform (cr_rejeter id code m) r db = (rejeter_cr r.perimetre r.now id code m r.user db).1
perform (cr_rouvrir id code m) r db = (rouvrir_cr r.perimetre r.now id code m r.user db).1
perform (comite_soumettre id c) r db = (soumettre_comite r.now id c r.user db).1
perform (comite_approuver id c) r db = (approuver_comite r.now id c r.user db).1
perform (comite_revision id code m) r db = (demander_revision r.now id code m r.user db).1
perform (snapshot_initialiser id) r db = (initialiser_snapshot r.perimetre r.roles id r.user db).1
perform (snapshot_retirer id code m f) r db = (retirer_cr_snapshot r.now id code m r.user f db).1
perform (snapshot_reintegrer id code) r db = (reintegrer_cr_snapshot r.now id code r.user db).1
perform (saisie_verrou id cr) r db = (assert_cr_modifiable id cr db).1
perform (saisie_lignes lignes) r db = record db { lignes = lignes }

abbrev pub step : Request → Db → Db
step r db = perform r.operation r db

-- A history, oldest request first.
abbrev pub run : List Request → Db → Db
run [] db = db
run (r ∷ rs) db = run rs (step r db)
