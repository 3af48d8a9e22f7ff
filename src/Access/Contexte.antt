-- ===== src/Access/Contexte.antt =====
-- auth/permissions.service.ts: the delegation under which a user acts, which the audit lines carry.
use budget_backend.Base.{
  ℕ, String, ◌≡◌, refl, Option, none, some, Bool, false, List, [], ◌∷◌, ◌++◌, map, arith, ◌&&◌,
  ◌||◌, str_eq, find_one, find_one-append, or_else, find_all, any, if◌then◌else◌, Bool-cases, inl,
  inr,
}
use budget_backend.Access.Store.{PermissionDelegable, Delegation, Store, is_delegation_active}
use budget_backend.Access.Permissions.{
  EffectivePermission, EffectivePermissionWithContext, delegation_perm_mapping, has_code,
  has_permission, au_moins_une, native, pretee, pretees, is_natif, is_par_delegation,
  context_has_code, delegation_id_of, get_effective_permissions,
  get_permissions_effectives_avec_contexte, get_delegation_context_pour,
}

-- The delegation lends the permission `code`.
abbrev pub prete : String → Delegation → Bool
prete code d = any (λ verb. str_eq (delegation_perm_mapping verb) code) d.permissions

abbrev pub id_of : Option Delegation → Option ℕ
id_of none = none
id_of (some d) = some d.id

abbrev native_of : String → EffectivePermissionWithContext → Bool
native_of code p = context_has_code code p && is_natif p.via

abbrev pretee_of : String → EffectivePermissionWithContext → Bool
pretee_of code p = context_has_code code p && is_par_delegation p.via

any-append :
    (p : EffectivePermissionWithContext → Bool) (xs ys : List EffectivePermissionWithContext)
    → any p (xs ++ ys) ≡ any p xs || any p ys
any-append p [] ys = refl
any-append p (x ∷ xs) ys = ground (arith, any-append p xs ys)

any-natives :
    (code : String) (ps : List EffectivePermission)
    → any (native_of code) (map native ps) ≡ any (has_code code) ps
any-natives code [] = refl
any-natives code (p ∷ ps) = ground (arith, any-natives code ps)

find-natives :
    (code : String) (ps : List EffectivePermission)
    → find_one (pretee_of code) (map native ps) ≡ none
find-natives code [] = refl
find-natives code (p ∷ ps) = ground (arith, find-natives code ps)

any-pretee :
    (code : String) (id : ℕ) (verbs : List PermissionDelegable)
    → any (native_of code) (map (pretee id) verbs) ≡ false
any-pretee code id [] = refl
any-pretee code id (v ∷ verbs) = ground (arith, any-pretee code id verbs)

any-pretees : (code : String) (ds : List Delegation) → any (native_of code) (pretees ds) ≡ false
any-pretees code [] = refl
any-pretees code (d ∷ ds) = ground (
  arith,
  any-append (native_of code) (map (pretee d.id) d.permissions) (pretees ds),
  any-pretee code d.id d.permissions,
  any-pretees code ds,
)

-- The delegation that the first matching permission comes from
find-pretee :
    (code : String) (id : ℕ) (verbs : List PermissionDelegable)
    (rest : Option EffectivePermissionWithContext)
    → delegation_id_of (or_else (find_one (pretee_of code) (map (pretee id) verbs)) rest) ≡ (
        if any (λ verb. str_eq (delegation_perm_mapping verb) code) verbs
        then some id
        else delegation_id_of rest)
find-pretee code id [] rest = refl
find-pretee code id (v ∷ verbs) rest = ground (arith, find-pretee code id verbs rest)

find-pretees :
    (code : String) (ds : List Delegation) (p : Delegation → Bool)
    → delegation_id_of (find_one (pretee_of code) (pretees (find_all p ds)))
      ≡ id_of (find_one (λ d. p d && prete code d) ds)
find-pretees code [] p = refl
find-pretees code (d ∷ ds) p = elim (Bool-cases (p d)) [
  | inl hit ↦ ground (
    arith,
    find_one-append (pretee_of code) (map (pretee d.id) d.permissions) (pretees (find_all p ds)),
    find-pretee code d.id d.permissions (find_one (pretee_of code) (pretees (find_all p ds))),
    find-pretees code ds p,
  )
  | inr miss ↦ ground (arith, find-pretees code ds p)
]

-- The delegation that the audit names for a permission: none, where the user holds the permission
-- through a role; otherwise the first delegation received, active at the day asked for, that lends
-- it, and none where there is no such delegation.
pub get_delegation_context_pour-find_one :
    (today user : ℕ) (code : String) (date_ref : ℕ) (db : Store)
    → get_delegation_context_pour today user code date_ref db ≡ (
        if has_permission today user (code ∷ []) au_moins_une db
        then none
        else id_of
            (find_one (λ d. is_delegation_active user date_ref d && prete code d) db.delegations))
unfolding get_delegation_context_pour get_permissions_effectives_avec_contexte
get_delegation_context_pour-find_one today user code date_ref db =
    let natives = get_effective_permissions today user db in
    let recues = find_all (is_delegation_active user date_ref) db.delegations in
    ground (
      arith,
      any-append (native_of code) (map native natives) (pretees recues),
      any-natives code natives,
      any-pretees code recues,
      find_one-append (pretee_of code) (map native natives) (pretees recues),
      find-natives code natives,
      find-pretees code db.delegations (is_delegation_active user date_ref),
    )
