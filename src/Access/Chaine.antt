-- ===== src/Access/Chaine.antt =====
-- delegations/delegations.service.ts, `creer`: what a delegation that goes through rests on and adds,
-- and when the unique indexes of user_perimetres stop it.
use budget_backend.Base.{
  ℕ, suc, ◌≡◌, none, some, true, false, List, [], ◌∷◌, ◌++◌, arith, is_ok, find_all, any, length,
  Option-cases, Result-cases, inl, inr,
}
use budget_backend.Access.Store.{UserPerimetre, OriginePerimetre, de_delegation, Delegation, Store}
use budget_backend.Access.Calls.{Caller}
use budget_backend.Access.Delegations.{
  CreerDelegationDto, sources, refus_creation, warnings, is_chevauchante, nouvelle_delegation,
  creer_miroirs, creer_delegation,
}
use budget_backend.Access.Pret.{is_prise, creer_miroirs-taken}

abbrev avec_delegation : Delegation → Store → Store
avec_delegation d db = record db {
  delegations = db.delegations ++ (d ∷ []);
  prochain_id = suc db.prochain_id;
}

abbrev chevauchements : CreerDelegationDto → Caller → Store → ℕ
chevauchements dto user db =
    length (warnings dto (find_all (is_chevauchante dto user.user_id) db.delegations))

-- What the stored delegation lends, and to whom
pub record IsDemandee (dto : CreerDelegationDto) (user : Caller) (d : Delegation) : Type 0 where
  pub du_delegant : d.fk_delegant ≡ user.user_id
  pub au_delegataire : d.fk_delegataire ≡ dto.fk_delegataire
  pub les_perimetres : d.perimetre_user_perimetre_ids ≡ dto.perimetre_user_perimetre_ids
  pub les_verbes : d.permissions ≡ dto.permissions
  pub du_jour : d.date_debut ≡ dto.date_debut
  pub au_jour : d.date_fin ≡ dto.date_fin
  pub en_cours : d.actif ≡ true

-- The row that the delegate gets for a perimeter of the delegant
abbrev pub ligne_deleguee : ℕ → CreerDelegationDto → Caller → ℕ → UserPerimetre → UserPerimetre
ligne_deleguee delegation dto user id source = record {
  id = id;
  fk_user = dto.fk_delegataire;
  cible_type = source.cible_type;
  cible_id = source.cible_id;
  cible_cr_ids = source.cible_cr_ids;
  origine = OriginePerimetre.delegation;
  delegation_id = some delegation;
  date_debut = dto.date_debut;
  date_fin = some dto.date_fin;
  actif = true;
  motif = some (de_delegation delegation user.email dto.motif);
  utilisateur_creation = user.email;
  date_modification = none;
  utilisateur_modification = none;
}

abbrev pub lignes_deleguees :
    ℕ → CreerDelegationDto → Caller → ℕ → List UserPerimetre → List UserPerimetre
lignes_deleguees delegation dto user id [] = []
lignes_deleguees delegation dto user id (p ∷ ps) =
    ligne_deleguee delegation dto user id p ∷ lignes_deleguees delegation dto user (suc id) ps

-- A delegation is refused, and nothing is written, where a row that it would add for the delegate has
-- its like among the active rows: the delegate already has this structure or centre by an active
-- delegation, the same set of centres, or everything.
pub creer_delegation-is_prise :
    (today : ℕ) (dto : CreerDelegationDto) (user : Caller) (db : Store)
    → any
        (is_prise (nouvelle_delegation db.prochain_id dto user) db.user_perimetres)
        (sources dto db)
      ≡ true
    → (is_ok (creer_delegation today dto user db).0 ≡ false)
      × ((creer_delegation today dto user db).1.user_perimetres ≡ db.user_perimetres)
      × ((creer_delegation today dto user db).1.delegations ≡ db.delegations)
unfolding creer_delegation
creer_delegation-is_prise today dto user db taken =
    let n = nouvelle_delegation db.prochain_id dto user in
    let stopped = creer_miroirs-taken n (sources dto db) (avec_delegation n db) taken in
    elim (Option-cases (refus_creation today dto user.user_id db)) [
      | inr (x, refused) ↦ ground arith
      | inl passed ↦
          elim (Result-cases (creer_miroirs n (sources dto db) (avec_delegation n db)).0) [
            | inl (u, went) ↦ ground arith
            | inr (x, failed) ↦ ground arith
          ]
    ]
