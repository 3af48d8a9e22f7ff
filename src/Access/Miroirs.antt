-- ===== src/Access/Miroirs.antt =====
-- The rows that a delegation adds to user_perimetres, and what the writes to the two tables do to
-- their standing.
use budget_backend.Base.{
  ℕ, String, ◌≡◌, refl, Option, none, some, Bool, true, false, List, [], ◌∷◌, ◌++◌, arith, ◌==◌,
  ◌&&◌, ◌||◌, not, update_where, any, every, Bool-cases, Option-cases, inl, inr,
}
use budget_backend.Access.Store.{
  UserPerimetre, Delegation, Store, delegation_has_id, is_miroir_of, perimetre_has_id,
}
use budget_backend.Access.Extinction.{desactiver}
use budget_backend.Access.Rappel.{rappelee}
use budget_backend.Access.Affectations.{retirer_row}

abbrev pub is_fin : ℕ → Option ℕ → Bool
is_fin fin none = false
is_fin fin (some f) = f == fin

-- The delegation `d` is active, and the row shows its number, its delegate and its dates.
abbrev pub is_source_of : UserPerimetre → ℕ → Delegation → Bool
is_source_of p id d =
    (d.id == id)
    && d.actif
    && (d.fk_delegataire == p.fk_user)
    && (d.date_debut == p.date_debut)
    && is_fin d.date_fin p.date_fin

abbrev pub is_adosse : List Delegation → UserPerimetre → Bool
is_adosse ds p = elim p.delegation_id [
  | none ↦ true
  | some id ↦ not p.actif || any (is_source_of p id) ds
]

-- Every active row that a delegation added has this delegation, active, with the same delegate and
-- the same dates.
abbrev pub are_adosses : Store → Bool
are_adosses db = every (is_adosse db.delegations) db.user_perimetres

pub every-append :
    (q : UserPerimetre → Bool) (ps rs : List UserPerimetre)
    → every q (ps ++ rs) ≡ every q ps && every q rs
every-append q [] rs = ground arith
every-append q (p ∷ ps) rs = ground (arith, every-append q ps rs)

pub any-append :
    (q : Delegation → Bool) (ds es : List Delegation) → any q (ds ++ es) ≡ any q ds || any q es
any-append q [] es = refl
any-append q (d ∷ ds) es = ground (arith, any-append q ds es)

-- More delegations keep every row backed.
pub adosses-append :
    (ds es : List Delegation) (ps : List UserPerimetre)
    → every (is_adosse ds) ps ≡ true
    → every (is_adosse (ds ++ es)) ps ≡ true
adosses-append ds es [] h = refl
adosses-append ds es (p ∷ ps) h = elim (Option-cases p.delegation_id) [
  | inl own ↦ ground (arith, adosses-append ds es ps)
  | inr (id, lent) ↦ ground (arith, any-append (is_source_of p id) ds es, adosses-append ds es ps)
]

-- Ending a delegation touches the delegations of its number only.
any-autre :
    (p : UserPerimetre) (id fin : ℕ) (f : Delegation → Delegation) (ds : List Delegation)
    → (id == fin) ≡ false
    → ((d : Delegation) → (f d).id ≡ d.id)
    → any (is_source_of p id) (update_where (delegation_has_id fin) f ds)
      ≡ any (is_source_of p id) ds
any-autre p id fin f [] other keep = refl
any-autre p id fin f (d ∷ ds) other keep = ground (arith, keep d, any-autre p id fin f ds)

pub adosses-fin :
    (now fin : ℕ) (auteur : String) (f : Delegation → Delegation) (ds : List Delegation)
    (ps : List UserPerimetre)
    → ((d : Delegation) → (f d).id ≡ d.id)
    → every (is_adosse ds) ps ≡ true
    → every
        (is_adosse (update_where (delegation_has_id fin) f ds))
        (update_where (λ p. is_miroir_of fin p && p.actif) (desactiver now auteur) ps)
      ≡ true
adosses-fin now fin auteur f ds [] keep h = refl
adosses-fin now fin auteur f ds (p ∷ ps) keep h = elim (Option-cases p.delegation_id) [
  | inl own ↦ ground (arith, adosses-fin now fin auteur f ds ps keep)
  | inr (id, lent) ↦ elim (Bool-cases (id == fin)) [
    | inl this ↦ ground (arith, adosses-fin now fin auteur f ds ps keep)
    | inr other ↦
        ground (arith, any-autre p id fin f ds other keep, adosses-fin now fin auteur f ds ps keep)
  ]
]

pub adosses-retirer :
    (now id : ℕ) (auteur : String) (ds : List Delegation) (ps : List UserPerimetre)
    → every (is_adosse ds) ps ≡ true
    → every (is_adosse ds) (update_where (perimetre_has_id id) (retirer_row now auteur) ps) ≡ true
adosses-retirer now id auteur ds [] h = refl
adosses-retirer now id auteur ds (p ∷ ps) h = elim (Option-cases p.delegation_id) [
  | inl own ↦ ground (arith, adosses-retirer now id auteur ds ps)
  | inr (d, lent) ↦ ground (arith, adosses-retirer now id auteur ds ps)
]

-- A reminder leaves what `is_source_of` looks at.
any-rappelee :
    (p : UserPerimetre) (id fin now : ℕ) (ds : List Delegation)
    → any (is_source_of p id) (update_where (delegation_has_id fin) (rappelee now) ds)
      ≡ any (is_source_of p id) ds
any-rappelee p id fin now [] = refl
any-rappelee p id fin now (d ∷ ds) = ground (arith, any-rappelee p id fin now ds)

pub adosses-rappelee :
    (fin now : ℕ) (ds : List Delegation) (ps : List UserPerimetre)
    → every (is_adosse ds) ps ≡ true
    → every (is_adosse (update_where (delegation_has_id fin) (rappelee now) ds)) ps ≡ true
adosses-rappelee fin now ds [] h = refl
adosses-rappelee fin now ds (p ∷ ps) h = elim (Option-cases p.delegation_id) [
  | inl own ↦ ground (arith, adosses-rappelee fin now ds ps)
  | inr (id, lent) ↦ ground (arith, any-rappelee p id fin now ds, adosses-rappelee fin now ds ps)
]
