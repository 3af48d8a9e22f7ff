-- ===== src/Access/Fins.antt =====
-- delegations/delegations.service.ts: what is left of a delegation once it is revoked or expired.
use budget_backend.Base.{
  ℕ, String, ◌≡◌, ◌≢◌, refl, none, some, Bool, true, List, [], ◌∷◌, arith, ok, ◌==◌, ◌&&◌, ◌||◌,
  not, leb, find_one, find_one_sound, find_all, update_where, any, every, Bool-cases, Option-cases,
  Result-cases, inl, inr, ==_refl,
}
use budget_backend.Access.Store.{
  UserPerimetre, Delegation, Store, delegation_has_id, is_miroir_of, is_delegation_active,
  is_null_or_after,
}
use budget_backend.Access.Calls.{Caller}
use budget_backend.Access.Permissions.{get_delegation_context_pour}
use budget_backend.Access.Contexte.{get_delegation_context_pour-find_one, prete}
use budget_backend.Access.Extinction.{
  desactiver, revoquee, revoquer, expiree, expirer_une, expirer_toutes, expirer_automatiquement,
  is_a_expirer,
}
use budget_backend.Access.Miroirs.{is_source_of, is_adosse, are_adosses}
use budget_backend.Access.Adossement.{are_adosses-executer}
use budget_backend.Access.Requests.{Requete}

abbrev is_hors : ℕ → Delegation → Bool
is_hors id d = not (d.id == id) || not d.actif

-- No active row of user_perimetres comes from the delegation.
abbrev pub sans_miroir : ℕ → Store → Bool
sans_miroir id db = every (λ p. not (is_miroir_of id p && p.actif)) db.user_perimetres

hors-revoquee :
    (now id : ℕ) (user : Caller) (motif : String) (ds : List Delegation)
    → every (is_hors id) (update_where (delegation_has_id id) (revoquee now user motif) ds) ≡ true
hors-revoquee now id user motif [] = refl
hors-revoquee now id user motif (d ∷ ds) = ground (arith, hors-revoquee now id user motif ds)

miroirs-desactiver :
    (now id : ℕ) (auteur : String) (ps : List UserPerimetre)
    → every
        (λ p. not (is_miroir_of id p && p.actif))
        (update_where (λ p. is_miroir_of id p && p.actif) (desactiver now auteur) ps)
      ≡ true
miroirs-desactiver now id auteur [] = refl
miroirs-desactiver now id auteur (p ∷ ps) = ground (arith, miroirs-desactiver now id auteur ps)

find_one-every :
    (p q : Delegation → Bool) (ds : List Delegation) {d : Delegation}
    → every q ds ≡ true
    → find_one p ds ≡ some d
    → q d ≡ true
find_one-every p q [] all found = cc
find_one-every p q (d ∷ ds) {d = e} all found = ground (arith, find_one-every p q ds {d = e})

-- A delegation of which no row is active is the context of nothing.
contexte-hors :
    (today user : ℕ) (code : String) (date_ref id : ℕ) (db : Store)
    → every (is_hors id) db.delegations ≡ true
    → get_delegation_context_pour today user code date_ref db ≢ some id
contexte-hors today user code date_ref id db out e =
    elim (Option-cases (find_one active db.delegations)) [
      | inl nobody ↦
          ground (arith, get_delegation_context_pour-find_one today user code date_ref db)
      | inr (d, found) ↦ ground (
        arith,
        get_delegation_context_pour-find_one today user code date_ref db,
        find_one-every active (is_hors id) db.delegations {d = d} out found,
        find_one_sound active db.delegations {r = d} found,
        ==_refl id,
      )
    ]
  where
    active : Delegation → Bool
    active d = is_delegation_active user date_ref d && prete code d

-- After a revocation that goes through, no active row of user_perimetres comes from the delegation,
-- and no permission of anyone, at any day, is traced to it.
pub revoquer-sans_miroir :
    (now id : ℕ) (motif : String) (user : Caller) (is_admin : Bool) (db : Store) {d : Delegation}
    (today someone : ℕ) (code : String) (date_ref : ℕ)
    → (revoquer now id motif user is_admin db).0 ≡ ok d
    → (sans_miroir id (revoquer now id motif user is_admin db).1 ≡ true)
      × (get_delegation_context_pour today someone code date_ref
            (revoquer now id motif user is_admin db).1
          ≢ some id)
unfolding revoquer
revoquer-sans_miroir now id motif user is_admin db {d = d} today someone code date_ref e = (
  ground (arith, effect, miroirs-desactiver now id user.email db.user_perimetres),
  contexte-hors today someone code date_ref id after
      (ground (arith, effect, hors-revoquee now id user motif db.delegations)),
)
  where
    after : Store
    after = (revoquer now id motif user is_admin db).1

    effect :
        (after.delegations
          ≡ update_where (delegation_has_id id) (revoquee now user motif) db.delegations)
        × (after.user_perimetres
            ≡ update_where
                (λ p. is_miroir_of id p && p.actif)
                (desactiver now user.email)
                db.user_perimetres)
    effect = elim (Option-cases (find_one (delegation_has_id id) db.delegations)) [
      | inl missing ↦ ground arith
      | inr (x, found) ↦ ground arith
    ]

-- Not active, or still within its dates
abbrev pub is_en_cours : ℕ → Delegation → Bool
is_en_cours today d = not d.actif || leb today d.date_fin

abbrev is_traitee : ℕ → List Delegation → Delegation → Bool
is_traitee today ds d = any (λ e. e.id == d.id) ds || is_en_cours today d

-- A row of a delegation is not active, or still within its dates.
abbrev pub is_miroir_en_cours : ℕ → UserPerimetre → Bool
is_miroir_en_cours today p = elim p.delegation_id [
  | none ↦ true
  | some id ↦ not p.actif || is_null_or_after today p.date_fin
]

-- Every delegation to be ended is in the list that the loop goes through.
traitee-weaken :
    (today : ℕ) (d : Delegation) (ds rows : List Delegation)
    → every (is_traitee today ds) rows ≡ true
    → every (is_traitee today (d ∷ ds)) rows ≡ true
traitee-weaken today d ds [] h = refl
traitee-weaken today d ds (r ∷ rows) h = ground (arith, traitee-weaken today d ds rows)

traitee-find_all :
    (today : ℕ) (rows : List Delegation)
    → every (is_traitee today (find_all (is_a_expirer today) rows)) rows ≡ true
traitee-find_all today [] = refl
traitee-find_all today (r ∷ rows) = elim (Bool-cases (is_a_expirer today r)) [
  | inl over ↦ ground (
    arith,
    ==_refl r.id,
    traitee-find_all today rows,
    traitee-weaken today r (find_all (is_a_expirer today) rows) rows,
  )
  | inr not_over ↦ ground (arith, traitee-find_all today rows)
]

traitee-expiree :
    (today now : ℕ) (d : Delegation) (ds rows : List Delegation)
    → every (is_traitee today (d ∷ ds)) rows ≡ true
    → every (is_traitee today ds) (update_where (delegation_has_id d.id) (expiree now) rows) ≡ true
traitee-expiree today now d ds [] h = refl
traitee-expiree today now d ds (r ∷ rows) h = ground (arith, traitee-expiree today now d ds rows)

en_cours-expirer_toutes :
    (today now : ℕ) (ds : List Delegation) (db : Store)
    → every (is_traitee today ds) db.delegations ≡ true
    → every (is_en_cours today) (expirer_toutes now ds db).1.delegations ≡ true
en_cours-expirer_toutes today now [] db h = h
en_cours-expirer_toutes today now (d ∷ ds) db h =
    let rest =
      en_cours-expirer_toutes today now ds (expirer_une now d db).1
        (traitee-expiree today now d ds db.delegations h) in
    elim (Result-cases (expirer_toutes now ds (expirer_une now d db).1).0) [
      | inl (nb, e) ↦ ground arith
      | inr (x, e) ↦ ground arith
    ]

miroir-en_cours :
    (today : ℕ) (p : UserPerimetre) (id : ℕ) (ds : List Delegation)
    → every (is_en_cours today) ds ≡ true
    → any (is_source_of p id) ds ≡ true
    → is_null_or_after today p.date_fin ≡ true
miroir-en_cours today p id [] all source = cc
miroir-en_cours today p id (d ∷ ds) all source = ground (arith, miroir-en_cours today p id ds)

miroirs-en_cours :
    (today : ℕ) (ds : List Delegation) (ps : List UserPerimetre)
    → every (is_en_cours today) ds ≡ true
    → every (is_adosse ds) ps ≡ true
    → every (is_miroir_en_cours today) ps ≡ true
miroirs-en_cours today ds [] all h = refl
miroirs-en_cours today ds (p ∷ ps) all h = elim (Option-cases p.delegation_id) [
  | inl own ↦ ground (arith, miroirs-en_cours today ds ps)
  | inr (id, lent) ↦ ground (arith, miroir-en_cours today p id ds, miroirs-en_cours today ds ps)
]

-- After the daily task, no active delegation is past its end, and, where the active rows that
-- delegations added stood on active delegations before, none of these rows is active past its end.
pub expirer_automatiquement-is_en_cours :
    (today now : ℕ) (db : Store)
    → are_adosses db ≡ true
    → (every (is_en_cours today) (expirer_automatiquement today now db).1.delegations ≡ true)
      × (every (is_miroir_en_cours today) (expirer_automatiquement today now db).1.user_perimetres
          ≡ true)
unfolding expirer_automatiquement
expirer_automatiquement-is_en_cours today now db h =
    let after = (expirer_toutes now (find_all (is_a_expirer today) db.delegations) db).1 in
    let ended =
      en_cours-expirer_toutes today now (find_all (is_a_expirer today) db.delegations) db
        (traitee-find_all today db.delegations) in
    (
      ended,
      miroirs-en_cours today after.delegations after.user_perimetres ended
          (are_adosses-executer today now Requete.expirer db h),
    )
