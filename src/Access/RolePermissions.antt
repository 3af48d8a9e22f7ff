-- ===== src/Access/RolePermissions.antt =====
-- roles/role-permission.service.ts and roles/role-permission.constants.ts: the edition of the matrix
-- of roles and permissions.
use budget_backend.Base.{
  ℕ, suc, String, Option, none, some, Bool, true, false, List, [], ◌∷◌, ◌++◌, pure, gets, require,
  or_throw, modify, ◌>>=◌, ◌>>◌, ◌==◌, ◌&&◌, not, str_eq, find_one, delete_where, any,
}
use budget_backend.Access.Store.{
  Role, Permission, RolePermission, UserRole, TypeAction, du_role, role_introuvable,
  permission_introuvable, lien_absent, permission_verrouillee, anti_lockout, Store, AccessCall,
}
use budget_backend.Access.Permissions.{role_has_id, permission_has_id}
use budget_backend.Access.Calls.{Caller, in_transaction, log}

abbrev pub protected_permissions : List String
protected_permissions = "SYSTEM.ADMIN" ∷ "ROLE.GERER" ∷ "USER.GERER" ∷ []

abbrev pub protected_role : String
protected_role = "ADMIN"

abbrev pub anti_lockout_permission : String
anti_lockout_permission = "ROLE.GERER"

pub record RolePermissionMutationDto : Type 0 where
  pub role_id : ℕ
  pub code_role : String
  pub fk_permission : ℕ
  pub code_permission : String
  pub deja : Bool

abbrev pub mutation : Role → Permission → Bool → RolePermissionMutationDto
mutation role perm deja = record {
  role_id = role.id;
  code_role = role.code_role;
  fk_permission = perm.id;
  code_permission = perm.code_permission;
  deja = deja;
}

abbrev pub is_lien : ℕ → ℕ → RolePermission → Bool
is_lien role perm rp = (rp.fk_role == role) && (rp.fk_permission == perm)

abbrev pub lien_has_id : ℕ → RolePermission → Bool
lien_has_id id rp = rp.id == id

abbrev pub inserer_lien : ℕ → ℕ → AccessCall (Unit {0})
inserer_lien role perm = modify (λ db. record db {
  role_permissions =
      db.role_permissions
      ++ (record { id = db.prochain_id; fk_role = role; fk_permission = perm } ∷ []);
  prochain_id = suc db.prochain_id;
})

unfoldable pub ajouter_permission :
    ℕ → ℕ → Caller → Option String → AccessCall RolePermissionMutationDto
ajouter_permission role_id perm_id user motif db =
    (do
      role ← or_throw (find_one (role_has_id role_id) db.roles) (role_introuvable role_id)
      perm ←
          or_throw (find_one (permission_has_id perm_id) db.permissions)
            (permission_introuvable perm_id)
      existing ← gets (λ db. find_one (is_lien role_id perm_id) db.role_permissions)
      elim existing [
        | some lien ↦ pure (mutation role perm true)
        | none ↦ in_transaction (do
          inserer_lien role_id perm_id
          log user.email TypeAction.attribuer_permission (du_role role perm motif)
          pure (mutation role perm false))
      ])
      db

abbrev pub is_verrouillee : Role → Permission → Bool
is_verrouillee role perm =
    str_eq role.code_role protected_role
    && any (λ code. str_eq code perm.code_permission) protected_permissions

-- `where: { fkUser, fkRole, estActif: true }`
abbrev pub porte_role : ℕ → ℕ → UserRole → Bool
porte_role user role ur = (ur.fk_user == user) && (ur.fk_role == role) && ur.est_actif

abbrev pub is_lockout : Caller → ℕ → Permission → Store → Bool
is_lockout user role_id perm db =
    str_eq perm.code_permission anti_lockout_permission
    && any (porte_role user.user_id role_id) db.user_roles

unfoldable pub retirer_permission :
    ℕ → ℕ → Caller → Option String → AccessCall RolePermissionMutationDto
retirer_permission role_id perm_id user motif db =
    (do
      role ← or_throw (find_one (role_has_id role_id) db.roles) (role_introuvable role_id)
      perm ←
          or_throw (find_one (permission_has_id perm_id) db.permissions)
            (permission_introuvable perm_id)
      lien ← or_throw (find_one (is_lien role_id perm_id) db.role_permissions) (lien_absent perm_id)
      require (not (is_verrouillee role perm)) (permission_verrouillee perm.code_permission)
      require (not (is_lockout user role_id perm db)) (anti_lockout role.code_role)
      in_transaction (do
        modify (λ db. record db {
          role_permissions = delete_where (lien_has_id lien.id) db.role_permissions;
        })
        log user.email TypeAction.retirer_permission (du_role role perm motif)
        pure (mutation role perm false)))
      db
