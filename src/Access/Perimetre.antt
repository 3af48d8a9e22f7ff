-- ===== src/Access/Perimetre.antt =====
-- budget/services/perimetre.service.ts: the centres and the structures that a user may act on.
use budget_backend.Base.{
  ℕ, Option, none, some, Bool, true, false, List, [], ◌∷◌, map, ◌==◌, ◌&&◌, find_one, find_all, any,
  length, has, set_add_all, if◌then◌else◌, Result, ok, err,
}
use budget_backend.Access.Store.{
  PerimetreType, structure, centre_responsabilite, UserRole, CiblePerimetreType, cible_structure,
  cible_cr, cible_cr_set, cible_global, UserPerimetre, Centre, Store, Erreur, aucun_role,
  is_perimetre_actif,
}
use budget_backend.Access.Structures.{descendants_structure, crs_sous_structure}
use budget_backend.Access.Permissions.{is_user_role_valide, or_global}

-- `loadRolesActifs`
abbrev pub load_roles_actifs : ℕ → ℕ → Store → List UserRole
load_roles_actifs today user db = find_all (is_user_role_valide user today) db.user_roles

abbrev pub is_cr_courant : ℕ → Centre → Bool
is_cr_courant id c = (c.id == id) && c.version_courante

abbrev pub is_cr_actif : Centre → Bool
is_cr_actif c = c.version_courante && c.est_actif

-- `tousLesCrActifs`
abbrev pub tous_les_cr_actifs : Store → List ℕ
tous_les_cr_actifs db = map (λ c. c.id) (find_all is_cr_actif db.centres)

-- `SELECT id ... WHERE id = $1 AND version_courante = true`, and its first row, if there is one
abbrev pub cr_courant : ℕ → Store → List ℕ
cr_courant id db = elim (find_one (is_cr_courant id) db.centres) [ none ↦ [] | some c ↦ c.id ∷ [] ]

abbrev pub is_cr_courant_parmi : List ℕ → Centre → Bool
is_cr_courant_parmi ids c = has c.id ids && c.version_courante

-- The centres of a target, in getPerimetreEffectif: none for one without its `cible_id`.
abbrev pub crs_de : Store → CiblePerimetreType → Option ℕ → Option (List ℕ) → List ℕ
crs_de db cible_structure (some s) ids = crs_sous_structure s db
crs_de db cible_cr (some cr) ids = cr_courant cr db
crs_de db cible_cr_set id (some ids) =
    map (λ c. c.id) (find_all (is_cr_courant_parmi ids) db.centres)
crs_de db _ id ids = []

abbrev pub reunir : Store → List UserPerimetre → List ℕ → List ℕ
reunir db [] set = set
reunir db (p ∷ ps) set =
    reunir db ps (set_add_all (crs_de db p.cible_type p.cible_id p.cible_cr_ids) set)

abbrev pub is_cible_global : CiblePerimetreType → Bool
is_cible_global cible_global = true
is_cible_global _ = false

abbrev pub has_cible_global : UserPerimetre → Bool
has_cible_global p = is_cible_global p.cible_type

unfoldable pub get_perimetre_effectif : ℕ → ℕ → Store → List ℕ
get_perimetre_effectif user date_ref db =
    let perimetres = find_all (is_perimetre_actif user date_ref) db.user_perimetres in
    if any has_cible_global perimetres then tous_les_cr_actifs db else reunir db perimetres []

-- The centres of one row of bridge_user_role.
abbrev pub crs_du_role : Store → PerimetreType → Option ℕ → List ℕ
crs_du_role db structure (some s) = crs_sous_structure s db
crs_du_role db centre_responsabilite (some cr) = cr_courant cr db
crs_du_role db _ id = []

abbrev pub crs_via_bridge_user_role : Store → List UserRole → List ℕ → List ℕ
crs_via_bridge_user_role db [] set = set
crs_via_bridge_user_role db (ur ∷ urs) set =
    crs_via_bridge_user_role db urs
      (set_add_all (crs_du_role db (or_global ur.perimetre_type) ur.perimetre_id) set)

abbrev pub is_role_global : UserRole → Bool
is_role_global ur = elim (or_global ur.perimetre_type) [ PerimetreType.global ↦ true | _ ↦ false ]

-- `null`, no restriction, is `none`.
unfoldable pub get_cr_autorises_pour_user : ℕ → ℕ → Store → Result Erreur (Option (List ℕ))
get_cr_autorises_pour_user today user db =
    let roles = load_roles_actifs today user db in
    let affectations = find_all (is_perimetre_actif user today) db.user_perimetres in
    if length roles == 0
    then err (aucun_role user)
    else if any (is_perimetre_actif user today) db.user_perimetres
    then ok (
        if any has_cible_global affectations
        then none
        else some (get_perimetre_effectif user today db))
    else if any is_role_global roles
    then ok none
    else ok (some (crs_via_bridge_user_role db roles []))

pub record Resume : Type 0 where
  pub nb_cr_accessibles : ℕ
  pub is_admin_global : Bool

unfoldable pub get_resume : ℕ → ℕ → Store → Result Erreur Resume
get_resume today user db = elim (get_cr_autorises_pour_user today user db) [
  | err e ↦ err e
  | ok none ↦
      ok (record { nb_cr_accessibles = length (tous_les_cr_actifs db); is_admin_global = true })
  | ok (some crs) ↦ ok (record { nb_cr_accessibles = length crs; is_admin_global = false })
]

-- The loop of getStructuresAutoriseesPourUser, which ends at a role on everything.
abbrev pub structures_des_roles : Store → List UserRole → List ℕ → Option (List ℕ)
structures_des_roles db [] set = some set
structures_des_roles db (ur ∷ urs) set = elim (or_global ur.perimetre_type) [
  | PerimetreType.global ↦ none
  | structure ↦ elim ur.perimetre_id [
    | none ↦ structures_des_roles db urs set
    | some s ↦ structures_des_roles db urs (set_add_all (descendants_structure s db.structures) set)
  ]
  | centre_responsabilite ↦ structures_des_roles db urs set
]

unfoldable pub get_structures_autorisees_pour_user : ℕ → ℕ → Store → Result Erreur (Option (List ℕ))
get_structures_autorisees_pour_user today user db =
    let roles = load_roles_actifs today user db in
    if length roles == 0 then err (aucun_role user) else ok (structures_des_roles db roles [])
