-- ===== src/Access/Pret.antt =====
-- delegations/delegations.service.ts, `creer`: the steps of its checks and of its transaction.
use budget_backend.Base.{
  ℕ, suc, ◌≡◌, refl, sym, Option, none, some, Bool, true, false, List, [], ◌∷◌, ◌++◌, arith, is_ok,
  ◌&&◌, not, or_else, any, every, Bool-cases, inl, inr,
}
use mathlib.Core.List.{append-nil, append_assoc}
use budget_backend.Access.Store.{
  UserPerimetre, Delegation, Store, Erreur, PermissionDelegable, is_perimetre_actif,
}
use budget_backend.Access.Permissions.{possede, delegation_perm_mapping}
use budget_backend.Access.Calls.{is_doublon, is_origine_delegation}
use budget_backend.Access.Delegations.{
  CreerDelegationDto, premier_refus, refus_verbe, refus_source, miroir, creer_miroirs,
}

-- What the delegant may lend from a day on: an active assignment of his own.
abbrev pub is_pretable : ℕ → ℕ → UserPerimetre → Bool
is_pretable user debut p = is_perimetre_actif user debut p && not (is_origine_delegation p.origine)

-- The rows of a delegation, with the numbers from `id` on
abbrev pub miroirs : Delegation → ℕ → List UserPerimetre → List UserPerimetre
miroirs d id [] = []
miroirs d id (p ∷ ps) = miroir d id p ∷ miroirs d (suc id) ps

pub sources-pretables :
    (dto : CreerDelegationDto) (user : ℕ) (ps : List UserPerimetre)
    → premier_refus (refus_source dto user) ps ≡ none
    → every (is_pretable user dto.date_debut) ps ≡ true
sources-pretables dto user [] e = refl
sources-pretables dto user (p ∷ ps) e = ground (arith, sources-pretables dto user ps)

pub verbes-possedes :
    (today user : ℕ) (db : Store) (vs : List PermissionDelegable)
    → premier_refus (refus_verbe today user db) vs ≡ none
    → every (λ v. possede today user db (delegation_perm_mapping v)) vs ≡ true
verbes-possedes today user db [] e = refl
verbes-possedes today user db (v ∷ vs) e = ground (arith, verbes-possedes today user db vs)

pub or_else-none : (o r : Option Erreur) → or_else o r ≡ none → (o ≡ none) × (r ≡ none)
or_else-none none r e = (refl, e)
or_else-none (some x) r e = cc

abbrev avec : UserPerimetre → Store → Store
avec p db = record db {
  user_perimetres = db.user_perimetres ++ (p ∷ []);
  prochain_id = suc db.prochain_id;
}

pub creer_miroirs-ok :
    (d : Delegation) (ps : List UserPerimetre) (db : Store)
    → is_ok (creer_miroirs d ps db).0 ≡ true
    → ((creer_miroirs d ps db).1.user_perimetres
        ≡ db.user_perimetres ++ miroirs d db.prochain_id ps)
      × ((creer_miroirs d ps db).1.delegations ≡ db.delegations)
creer_miroirs-ok d [] db e = (sym (append-nil db.user_perimetres), refl)
creer_miroirs-ok d (p ∷ ps) db e =
    elim (Bool-cases (any (is_doublon (miroir d db.prochain_id p)) db.user_perimetres)) [
      | inl taken ↦ ground arith
      | inr free ↦ ground (
        arith,
        creer_miroirs-ok d ps (avec (miroir d db.prochain_id p) db),
        append_assoc db.user_perimetres (miroir d db.prochain_id p ∷ [])
            (miroirs d (suc db.prochain_id) ps),
      )
    ]

any-append :
    (q : UserPerimetre → Bool) (ps rs : List UserPerimetre)
    → any q ps ≡ true
    → any q (ps ++ rs) ≡ true
any-append q [] rs h = cc
any-append q (p ∷ ps) rs h = ground (arith, any-append q ps rs)

-- The row of the delegation `d` for `p` has its like in the table.
abbrev pub is_prise : Delegation → List UserPerimetre → UserPerimetre → Bool
is_prise d rows p = any (is_doublon (miroir d d.id p)) rows

prises-append :
    (d : Delegation) (rows : List UserPerimetre) (x : UserPerimetre) (ps : List UserPerimetre)
    → any (is_prise d rows) ps ≡ true
    → any (is_prise d (rows ++ (x ∷ []))) ps ≡ true
prises-append d rows x [] h = cc
prises-append d rows x (p ∷ ps) h =
    ground
      (arith, any-append (is_doublon (miroir d d.id p)) rows (x ∷ []), prises-append d rows x ps)

pub creer_miroirs-taken :
    (d : Delegation) (ps : List UserPerimetre) (db : Store)
    → any (is_prise d db.user_perimetres) ps ≡ true
    → is_ok (creer_miroirs d ps db).0 ≡ false
creer_miroirs-taken d [] db h = cc
creer_miroirs-taken d (p ∷ ps) db h =
    elim (Bool-cases (any (is_doublon (miroir d db.prochain_id p)) db.user_perimetres)) [
      | inl taken ↦ ground arith
      | inr free ↦ ground (
        arith,
        creer_miroirs-taken d ps (avec (miroir d db.prochain_id p) db),
        prises-append d db.user_perimetres (miroir d db.prochain_id p) ps,
      )
    ]
