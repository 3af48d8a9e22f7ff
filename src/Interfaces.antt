-- ===== src/Interfaces.antt =====
-- What the workflow services ask of other services: the delegation under which a user holds a
-- permission (auth/permissions.service.ts, `getDelegationContextPour`) and the centres that a user
-- may act on (budget/services/perimetre.service.ts). The modules Permissions and Perimetre of Access
-- compute these answers; the budget cycle takes any answers, which may differ from call to call.
use budget_backend.Base.{ℕ, Option, List}

pub data Permission : Type 0 where
  budget_saisir budget_soumettre budget_valider budget_publier : Permission

pub record PermissionsService : Type 0 where
  -- `null` for a permission that the user holds himself
  pub delegation_context_pour : ℕ → Permission → Option ℕ

pub record PerimetreService : Type 0 where
  -- `null` for an administrator: no restriction
  pub cr_autorises_pour_user : ℕ → Option (List ℕ)
  pub perimetre_effectif : ℕ → List ℕ

-- The active users with the role SAISISSEUR, as the query of `initialiserSnapshot` lists them.
pub record RoleDirectory : Type 0 where
  pub saisisseurs_actifs : List ℕ
