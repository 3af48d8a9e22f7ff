-- ===== src/Access/AdossementRappel.antt =====
-- delegations/delegations-rappel.service.ts: what a reminder leaves of the rows that delegations add.
use budget_backend.Base.{
  ℕ, ◌≡◌, Option, none, some, Bool, true, List, [], ◌∷◌, arith, find_one, find_all, map,
  Option-cases, Result-cases, inl, inr,
}
use budget_backend.Access.Store.{Delegation, Store, user_has_id}
use budget_backend.Access.Rappel.{
  rappeler, rappeler_toutes, is_non_notifiee_of, is_a_rappeler, notifier_j3,
}
use budget_backend.Access.Miroirs.{adosses-rappelee, are_adosses}

are_adosses-rappeler :
    (dry_run : Bool) (now : ℕ) (found : Option Delegation) (db : Store)
    → are_adosses db ≡ true
    → are_adosses (rappeler dry_run now found db).1 ≡ true
are_adosses-rappeler dry_run now none db h = h
are_adosses-rappeler dry_run now (some d) db h =
    let kept = adosses-rappelee d.id now db.delegations db.user_perimetres h in
    elim (Option-cases (find_one (user_has_id d.fk_delegant) db.users)) [
      | inl nobody ↦ ground arith
      | inr (delegant, known) ↦
          elim (Option-cases (find_one (user_has_id d.fk_delegataire) db.users)) [
            | inl nobody ↦ ground arith
            | inr (delegataire, known') ↦ ground arith
          ]
    ]

are_adosses-rappeler_toutes :
    (dry_run : Bool) (now : ℕ) (ids : List ℕ) (db : Store)
    → are_adosses db ≡ true
    → are_adosses (rappeler_toutes dry_run now ids db).1 ≡ true
are_adosses-rappeler_toutes dry_run now [] db h = h
are_adosses-rappeler_toutes dry_run now (id ∷ ids) db h =
    let found = find_one (is_non_notifiee_of id) db.delegations in
    let next = (rappeler dry_run now found db).1 in
    let one = are_adosses-rappeler dry_run now found db h in
    let rest = are_adosses-rappeler_toutes dry_run now ids next one in
    elim (Result-cases (rappeler dry_run now found db).0) [
      | inr (x, failed) ↦ ground arith
      | inl (r, went) ↦ elim (Result-cases (rappeler_toutes dry_run now ids next).0) [
        | inl (r', went') ↦ ground arith
        | inr (x, failed) ↦ ground arith
      ]
    ]

pub are_adosses-notifier_j3 :
    (today now : ℕ) (dry_run : Bool) (db : Store)
    → are_adosses db ≡ true
    → are_adosses (notifier_j3 today dry_run now db).1 ≡ true
unfolding notifier_j3
are_adosses-notifier_j3 today now dry_run db h =
    let ids = map (λ d. d.id) (find_all (is_a_rappeler today) db.delegations) in
    let kept = are_adosses-rappeler_toutes dry_run now ids db h in
    elim (Result-cases (rappeler_toutes dry_run now ids db).0) [
      | inl (r, went) ↦ ground arith
      | inr (x, failed) ↦ ground arith
    ]
