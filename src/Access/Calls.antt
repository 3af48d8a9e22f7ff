-- ===== src/Access/Calls.antt =====
-- The calls that the services of users, roles and delegations share: the transaction, the audit line
-- (audit/audit.service.ts), the event, and the insertion into user_perimetres with its three unique
-- indexes (migrations/1779200000080, 1779200000100 and 1779200000560).
use budget_backend.Base.{
  ℕ, suc, String, Option, some, Bool, true, false, List, [], ◌∷◌, ◌++◌, pure, throw, modify,
  transaction, ◌==◌, ◌&&◌, any, every, count_where,
}
use budget_backend.Access.Store.{
  CiblePerimetreType, cible_structure, cible_cr, cible_cr_set, cible_global, OriginePerimetre,
  principal, affectation, delegation, UserPerimetre, TypeAction, Payload, Event, violation_unicite,
  AccessCall,
}

pub record Caller : Type 0 where
  pub user_id : ℕ
  pub email : String

-- A throw restores the tables; the numbers that were drawn stay drawn.
abbrev pub in_transaction : {A : Type 0} → AccessCall A → AccessCall A
in_transaction = transaction (λ before after. record before { prochain_id = after.prochain_id })

abbrev pub log : String → TypeAction → Payload → AccessCall (Unit {0})
log utilisateur action payload = modify (λ db. record db {
  audit_log =
      db.audit_log
      ++ (record { utilisateur = utilisateur; type_action = action; payload = payload } ∷ []);
})

abbrev pub emit : Event → AccessCall (Unit {0})
emit e = modify (λ db. record db { events = db.events ++ (e ∷ []) })

abbrev pub is_origine_delegation : OriginePerimetre → Bool
is_origine_delegation delegation = true
is_origine_delegation _ = false

abbrev pub same_origine : OriginePerimetre → OriginePerimetre → Bool
same_origine principal principal = true
same_origine affectation affectation = true
same_origine delegation delegation = true
same_origine _ _ = false

abbrev pub same_id : Option ℕ → Option ℕ → Bool
same_id (some a) (some b) = a == b
same_id _ _ = false

abbrev pub occurrences : ℕ → List ℕ → ℕ
occurrences k ks = count_where (λ x. x == k) ks

-- `_cr_set_normalize`: the arrays are equal once sorted.
abbrev pub same_ids : Option (List ℕ) → Option (List ℕ) → Bool
same_ids (some xs) (some ys) = every (λ k. occurrences k xs == occurrences k ys) (xs ++ ys)
same_ids _ _ = false

-- `uq_user_perimetres_actif`, `uq_user_perimetres_cr_set_actif`, `uq_user_perimetres_global_actif`
abbrev pub same_cible :
    UserPerimetre → UserPerimetre → CiblePerimetreType → CiblePerimetreType → Bool
same_cible p q cible_structure cible_structure =
    same_id p.cible_id q.cible_id && same_origine p.origine q.origine
same_cible p q cible_cr cible_cr = same_id p.cible_id q.cible_id && same_origine p.origine q.origine
same_cible p q cible_cr_set cible_cr_set = same_ids p.cible_cr_ids q.cible_cr_ids
same_cible p q cible_global cible_global = true
same_cible p q _ _ = false

abbrev pub is_doublon : UserPerimetre → UserPerimetre → Bool
is_doublon p q =
    p.actif && q.actif && (q.fk_user == p.fk_user) && same_cible p q p.cible_type q.cible_type

-- A row for user_perimetres, in a table that has or has not one like it
abbrev pub inserer : Bool → UserPerimetre → AccessCall UserPerimetre
inserer true p db = throw violation_unicite (record db { prochain_id = suc db.prochain_id })
inserer false p db = pure p (record db {
  user_perimetres = db.user_perimetres ++ (p ∷ []);
  prochain_id = suc db.prochain_id;
})

-- `upRepo.save` of a new row; the row carries the number that `prochain_id` gives.
abbrev pub insert_perimetre : UserPerimetre → AccessCall UserPerimetre
insert_perimetre p db = inserer (any (is_doublon p) db.user_perimetres) p db
