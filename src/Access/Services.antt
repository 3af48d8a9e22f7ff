-- ===== src/Access/Services.antt =====
-- auth/permissions.service.ts as the service that the version workflow asks
-- (referentiels/version/version-workflow.service.ts): the delegation in its audit lines.
use budget_backend.Base.{
  ℕ, String, ◌≡◌, Option, none, some, ok, [], ◌∷◌, ◌++◌, ◌&&◌, find_one, if◌then◌else◌, arith, refl,
}
use budget_backend.Entities.{Db, AuthUser}
use budget_backend.Entities.Version.{DimVersion, version_has_id}
use budget_backend.Entities.Journal.{AuditLog, Cible, Payload}
use budget_backend.Interfaces.{
  Permission, budget_soumettre, budget_valider, budget_publier, PermissionsService,
}
use budget_backend.VersionWorkflow.{Transition, soumettre, valider, rejeter, publier, code_audit}
use budget_backend.VersionWorkflow.Transitions.{
  executer, texte, source, target, permission_of, executer-HasMoved,
}
use budget_backend.Access.Store.{Store, is_delegation_active}
use budget_backend.Access.Permissions.{has_permission, au_moins_une, get_delegation_context_pour}
use budget_backend.Access.Contexte.{get_delegation_context_pour-find_one, prete, id_of}

-- The codes that the workflow passes
abbrev pub code_of : Permission → String
code_of Permission.budget_saisir = "BUDGET.SAISIR"
code_of budget_soumettre = "BUDGET.SOUMETTRE"
code_of budget_valider = "BUDGET.VALIDER"
code_of budget_publier = "BUDGET.PUBLIER"

-- The service over the tables of a day
abbrev pub permissions_service : ℕ → Store → PermissionsService
permissions_service today rights = record {
  delegation_context_pour =
      λ user p. get_delegation_context_pour today user (code_of p) today rights;
}

-- The delegation that a line should name
abbrev pub via_attendue : ℕ → Store → ℕ → String → Option ℕ
via_attendue today rights user code =
    if has_permission today user (code ∷ []) au_moins_une rights
    then none
    else id_of
        (find_one (λ d. is_delegation_active user today d && prete code d) rights.delegations)

-- The permission that a transition asks for, by its code
abbrev pub code_attendu : Transition → String
code_attendu soumettre = "BUDGET.SOUMETTRE"
code_attendu valider = "BUDGET.VALIDER"
code_attendu rejeter = "BUDGET.VALIDER"
code_attendu publier = "BUDGET.PUBLIER"

abbrev pub ligne_attendue :
    ℕ → Store → Option String → String → AuthUser → Transition → DimVersion → AuditLog
ligne_attendue today rights commentaire motif user t v = record {
  utilisateur = user.email;
  type_action = code_audit v.type_version t;
  cible = Cible.dim_version v.id;
  payload_apres =
      Payload.transition_version v.code_version (source t) (target t)
        (texte (permissions_service today rights) 0 v.id commentaire motif user t)
        (via_attendue today rights user.user_id (code_attendu t));
}

code_of-attendu : (t : Transition) → code_of (permission_of t) ≡ code_attendu t
code_of-attendu soumettre = refl
code_of-attendu valider = refl
code_of-attendu rejeter = refl
code_of-attendu publier = refl

-- A transition of the version workflow that goes through, with the permissions of the day's tables,
-- adds one audit line. Its permission is BUDGET.SOUMETTRE for a submission, BUDGET.VALIDER for a
-- validation or a rejection, BUDGET.PUBLIER for a publication: the line names no delegation where its
-- author holds this permission by a role, and otherwise the first active delegation received that
-- lends it.
pub executer-via_attendue :
    (today now id : ℕ) (rights : Store) (commentaire : Option String) (motif : String)
    (user : AuthUser) (t : Transition) (db : Db) (v v' : DimVersion)
    → find_one (version_has_id id) db.versions ≡ some v
    → (executer (permissions_service today rights) now id commentaire motif user t db).0 ≡ ok v'
    → (executer (permissions_service today rights) now id commentaire motif user t db).1.audit
      ≡ db.audit ++ (ligne_attendue today rights commentaire motif user t v ∷ [])
executer-via_attendue today now id rights commentaire motif user t db v v' found went =
    let named = code_of-attendu t in
    let moved =
      executer-HasMoved (permissions_service today rights) now id commentaire motif user t db v v'
        found went in
    ground (
      arith,
      moved.audited,
      named,
      get_delegation_context_pour-find_one today user.user_id (code_of (permission_of t)) today
          rights,
    )
