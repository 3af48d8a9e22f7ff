-- ===== src/Access/Permissions.antt =====
-- auth/permissions.service.ts: the permissions that a user holds through the roles, and those that a
-- delegation lends. The `via` of a permission is `natif`, or `par_delegation` with `delegation_id`.
use budget_backend.Base.{
  ℕ, String, Option, none, some, Bool, true, false, List, [], ◌∷◌, ◌++◌, map, ◌==◌, ◌&&◌, str_eq,
  find_one, find_all, any, every, if◌then◌else◌,
}
use budget_backend.Access.Store.{
  Role, Permission, RolePermission, PerimetreType, centre_responsabilite, UserRole,
  PermissionDelegable, saisie, soumission, validation, publication, Delegation, Store, user_has_id,
  is_null_or_before, is_null_or_after, is_delegation_active,
}

pub record EffectivePermission : Type 0 where
  pub code_permission : String
  pub module_code : String
  pub perimetre_type : PerimetreType
  pub perimetre_id : Option ℕ

pub data Via : Type 0 where
  natif : Via
  par_delegation : ℕ → Via

pub record EffectivePermissionWithContext : Type 0 where
  pub permission : EffectivePermission
  pub via : Via

pub data PermissionsMode : Type 0 where
  au_moins_une toutes : PermissionsMode

-- `DELEGATION_PERM_MAPPING`
abbrev pub delegation_perm_mapping : PermissionDelegable → String
delegation_perm_mapping saisie = "BUDGET.SAISIR"
delegation_perm_mapping soumission = "BUDGET.SOUMETTRE"
delegation_perm_mapping validation = "BUDGET.VALIDER"
delegation_perm_mapping publication = "BUDGET.PUBLIER"

abbrev pub role_has_id : ℕ → Role → Bool
role_has_id id r = r.id == id

abbrev pub permission_has_id : ℕ → Permission → Bool
permission_has_id id p = p.id == id

-- `role.est_actif`, through the inner join with the role
abbrev pub has_role_actif : List Role → UserRole → Bool
has_role_actif roles ur = elim (find_one (role_has_id ur.fk_role) roles) [
  | none ↦ false
  | some role ↦ role.est_actif
]

abbrev pub is_user_role_valide : ℕ → ℕ → UserRole → Bool
is_user_role_valide user today ur =
    (ur.fk_user == user)
    && ur.est_actif
    && is_null_or_before today ur.date_debut_validite
    && is_null_or_after today ur.date_fin_validite

abbrev pub or_global : Option PerimetreType → PerimetreType
or_global none = PerimetreType.global
or_global (some t) = t

-- The permissions of one row of bridge_user_role, for the rows of its role in bridge_role_permission
abbrev pub permissions_du_role :
    List Permission → UserRole → List RolePermission → List EffectivePermission
permissions_du_role ps ur [] = []
permissions_du_role ps ur (rp ∷ rps) = elim (find_one (permission_has_id rp.fk_permission) ps) [
  | none ↦ permissions_du_role ps ur rps
  | some p ↦
      record {
        code_permission = p.code_permission;
        module_code = p.module_code;
        perimetre_type = or_global ur.perimetre_type;
        perimetre_id = ur.perimetre_id;
      }
      ∷ permissions_du_role ps ur rps
]

abbrev pub is_of_role : ℕ → RolePermission → Bool
is_of_role role rp = rp.fk_role == role

abbrev pub permissions_des_roles : Store → List UserRole → List EffectivePermission
permissions_des_roles db [] = []
permissions_des_roles db (ur ∷ urs) =
    permissions_du_role db.permissions ur (find_all (is_of_role ur.fk_role) db.role_permissions)
    ++ permissions_des_roles db urs

unfoldable pub get_effective_permissions : ℕ → ℕ → Store → List EffectivePermission
get_effective_permissions today user db = elim (find_one (user_has_id user) db.users) [
  | none ↦ []
  | some u ↦
      if u.est_actif
      then permissions_des_roles db (
          find_all (λ ur. is_user_role_valide user today ur && has_role_actif db.roles ur)
            db.user_roles)
      else []
]

abbrev pub has_code : String → EffectivePermission → Bool
has_code code p = str_eq p.code_permission code

-- `possessed.has(code)`
abbrev pub possede : ℕ → ℕ → Store → String → Bool
possede today user db code = any (has_code code) (get_effective_permissions today user db)

abbrev pub has_permission : ℕ → ℕ → List String → PermissionsMode → Store → Bool
has_permission today user codes toutes db = every (possede today user db) codes
has_permission today user codes au_moins_une db = any (possede today user db) codes

abbrev pub native : EffectivePermission → EffectivePermissionWithContext
native p = record { permission = p; via = natif }

abbrev pub pretee : ℕ → PermissionDelegable → EffectivePermissionWithContext
pretee delegation verb = record {
  permission = record {
    code_permission = delegation_perm_mapping verb;
    module_code = "BUDGET";
    perimetre_type = centre_responsabilite;
    perimetre_id = none;
  };
  via = par_delegation delegation;
}

abbrev pub pretees : List Delegation → List EffectivePermissionWithContext
pretees [] = []
pretees (d ∷ ds) = map (pretee d.id) d.permissions ++ pretees ds

-- `dateRef` reaches the delegations only: the roles are those of `today`.
unfoldable pub get_permissions_effectives_avec_contexte :
    ℕ → ℕ → ℕ → Store → List EffectivePermissionWithContext
get_permissions_effectives_avec_contexte today user date_ref db =
    map native (get_effective_permissions today user db)
    ++ pretees (find_all (is_delegation_active user date_ref) db.delegations)

abbrev pub is_natif : Via → Bool
is_natif natif = true
is_natif (par_delegation d) = false

abbrev pub is_par_delegation : Via → Bool
is_par_delegation natif = false
is_par_delegation (par_delegation d) = true

abbrev pub context_has_code : String → EffectivePermissionWithContext → Bool
context_has_code code p = has_code code p.permission

-- `parDelegation?.delegation_id ?? null`
abbrev pub delegation_id_of : Option EffectivePermissionWithContext → Option ℕ
delegation_id_of none = none
delegation_id_of (some p) = elim p.via [ natif ↦ none | par_delegation d ↦ some d ]

abbrev pub contexte_de : String → List EffectivePermissionWithContext → Option ℕ
contexte_de code ctx =
    if any (λ p. context_has_code code p && is_natif p.via) ctx
    then none
    else delegation_id_of (find_one (λ p. context_has_code code p && is_par_delegation p.via) ctx)

unfoldable pub get_delegation_context_pour : ℕ → ℕ → String → ℕ → Store → Option ℕ
unfolding get_permissions_effectives_avec_contexte
get_delegation_context_pour today user code date_ref db =
    contexte_de code (get_permissions_effectives_avec_contexte today user date_ref db)
