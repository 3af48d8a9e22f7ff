-- ===== src/Access/Requests.antt =====
-- The calls of the services of delegations, assignments and role permissions, as requests that follow
-- one another.
use budget_backend.Base.{ℕ, String, Option, Bool, List, [], ◌∷◌}
use budget_backend.Access.Store.{Store}
use budget_backend.Access.Calls.{Caller}
use budget_backend.Access.Delegations.{CreerDelegationDto, creer_delegation}
use budget_backend.Access.Extinction.{revoquer, expirer_automatiquement}
use budget_backend.Access.Rappel.{notifier_j3}
use budget_backend.Access.Affectations.{
  CreerAffectationPerimetreInput, creer_affectation, retirer_affectation,
}
use budget_backend.Access.RolePermissions.{ajouter_permission, retirer_permission}

pub data Requete : Type 0 where
  deleguer : CreerDelegationDto → Caller → Requete
  revoquer_delegation : (id : ℕ) (motif : String) → Caller → (is_admin : Bool) → Requete
  expirer : Requete
  rappeler_j3 : (dry_run : Bool) → Requete
  affecter : (user : ℕ) → CreerAffectationPerimetreInput → (auteur : String) → Requete
  retirer : (user id : ℕ) (auteur : String) → Requete
  ajouter_au_role : (role permission : ℕ) → Caller → Option String → Requete
  retirer_du_role : (role permission : ℕ) → Caller → Option String → Requete

-- A request, with the day and the instant at which it runs
pub record Demande : Type 0 where
  pub today : ℕ
  pub now : ℕ
  pub requete : Requete

-- The state that a request leaves, whether it returns or throws.
abbrev pub executer : ℕ → ℕ → Requete → Store → Store
executer today now (deleguer dto user) db = (creer_delegation today dto user db).1
executer today now (revoquer_delegation id motif user is_admin) db =
    (revoquer now id motif user is_admin db).1
executer today now expirer db = (expirer_automatiquement today now db).1
executer today now (rappeler_j3 dry_run) db = (notifier_j3 today dry_run now db).1
executer today now (affecter user dto auteur) db = (creer_affectation today user dto auteur db).1
executer today now (retirer user id auteur) db = (retirer_affectation now user id auteur db).1
executer today now (ajouter_au_role role permission user motif) db =
    (ajouter_permission role permission user motif db).1
executer today now (retirer_du_role role permission user motif) db =
    (retirer_permission role permission user motif db).1

abbrev pub run_acces : List Demande → Store → Store
run_acces [] db = db
run_acces (d ∷ ds) db = run_acces ds (executer d.today d.now d.requete db)
