-- ===== src/Access/RappelUnique.antt =====
-- delegations/delegations-rappel.service.ts: a delegation is reminded of once.
use budget_backend.Base.{
  ℕ, ◌≡◌, refl, Option, none, some, Bool, true, List, [], ◌∷◌, map, arith, ok, ◌==◌, ◌||◌, not,
  find_one, find_one_sound, find_all, any, every, update_where, Bool-cases, Option-cases,
  Result-cases, inl, inr, ==_refl, ==_iff,
}
use budget_backend.Access.Store.{Delegation, Store, delegation_has_id, user_has_id}
use budget_backend.Access.Rappel.{
  is_a_rappeler, is_non_notifiee_of, rappelee, RappelResult, rien, rappeler, rappeler_toutes,
  notifier_j3,
}

abbrev is_traitee : ℕ → List ℕ → Delegation → Bool
is_traitee today ids d = any (λ id. id == d.id) ids || not (is_a_rappeler today d)

-- A number that no delegation to remind of has
traitee-none :
    (today id : ℕ) (ids : List ℕ) (ds : List Delegation)
    → find_one (is_non_notifiee_of id) ds ≡ none
    → every (is_traitee today (id ∷ ids)) ds ≡ true
    → every (is_traitee today ids) ds ≡ true
traitee-none today id ids [] missing all = refl
traitee-none today id ids (d ∷ ds) missing all = elim (Bool-cases (is_non_notifiee_of id d)) [
  | inl hit ↦ ground arith
  | inr miss ↦ ground (arith, traitee-none today id ids ds, ==_iff id d.id, ==_iff d.id id)
]

traitee-rappelee :
    (today now id : ℕ) (ids : List ℕ) (ds : List Delegation)
    → every (is_traitee today (id ∷ ids)) ds ≡ true
    → every (is_traitee today ids) (update_where (delegation_has_id id) (rappelee now) ds) ≡ true
traitee-rappelee today now id ids [] all = refl
traitee-rappelee today now id ids (d ∷ ds) all =
    ground (arith, traitee-rappelee today now id ids ds, ==_iff id d.id, ==_iff d.id id)

-- One turn of the loop that goes through
traitee-rappeler :
    (today now id : ℕ) (dry_run : Bool) (ids : List ℕ) (found : Option Delegation) (db : Store)
    {r : RappelResult}
    → find_one (is_non_notifiee_of id) db.delegations ≡ found
    → (rappeler dry_run now found db).0 ≡ ok r
    → every (is_traitee today (id ∷ ids)) db.delegations ≡ true
    → every (is_traitee today ids) (rappeler dry_run now found db).1.delegations ≡ true
traitee-rappeler today now id dry_run ids none db {r = r} f e all =
    traitee-none today id ids db.delegations f all
traitee-rappeler today now id dry_run ids (some d) db {r = r} f e all =
    let same : (d.id == id) ≡ true =
      ground (arith, find_one_sound (is_non_notifiee_of id) db.delegations {r = d} f) in
    let is_id : d.id ≡ id = (==_iff d.id id).0 same in
    let done = traitee-rappelee today now d.id ids db.delegations in
    elim (Option-cases (find_one (user_has_id d.fk_delegant) db.users)) [
      | inl nobody ↦ ground arith
      | inr (delegant, known) ↦
          elim (Option-cases (find_one (user_has_id d.fk_delegataire) db.users)) [
            | inl nobody ↦ ground arith
            | inr (delegataire, known') ↦ ground (arith, done, is_id)
          ]
    ]

abbrev ids_a_rappeler : ℕ → List Delegation → List ℕ
ids_a_rappeler today ds = map (λ d. d.id) (find_all (is_a_rappeler today) ds)

traitee-loop :
    (today now : ℕ) (dry_run : Bool) (ids : List ℕ) (db : Store) {r : RappelResult}
    → (rappeler_toutes dry_run now ids db).0 ≡ ok r
    → every (is_traitee today ids) db.delegations ≡ true
    → every (is_traitee today []) (rappeler_toutes dry_run now ids db).1.delegations ≡ true
traitee-loop today now dry_run [] db {r = r} e all = all
traitee-loop today now dry_run (id ∷ ids) db {r = r} e all =
    let found = find_one (is_non_notifiee_of id) db.delegations in
    elim (Result-cases (rappeler dry_run now found db).0) [
      | inr (x, failed) ↦ ground arith
      | inl (one, went) ↦
          let next = (rappeler dry_run now found db).1 in
          let kept = traitee-rappeler today now id dry_run ids found db {r = one} refl went all in
          elim (Result-cases (rappeler_toutes dry_run now ids next).0) [
            | inr (x, failed) ↦ ground arith
            | inl (rest, went') ↦
                ground (arith, traitee-loop today now dry_run ids next {r = rest} went' kept)
          ]
    ]

traitee-weaken :
    (today id : ℕ) (ids : List ℕ) (ds : List Delegation)
    → every (is_traitee today ids) ds ≡ true
    → every (is_traitee today (id ∷ ids)) ds ≡ true
traitee-weaken today id ids [] all = refl
traitee-weaken today id ids (d ∷ ds) all = ground (arith, traitee-weaken today id ids ds)

traitee-start :
    (today : ℕ) (ds : List Delegation)
    → every (is_traitee today (ids_a_rappeler today ds)) ds ≡ true
traitee-start today [] = refl
traitee-start today (d ∷ ds) = elim (Bool-cases (is_a_rappeler today d)) [
  | inl due ↦ ground (
    arith,
    ==_refl d.id,
    traitee-start today ds,
    traitee-weaken today d.id (ids_a_rappeler today ds) ds,
  )
  | inr not_due ↦ ground (arith, traitee-start today ds)
]

find_all-traitee :
    (today : ℕ) (ds : List Delegation)
    → every (is_traitee today []) ds ≡ true
    → find_all (is_a_rappeler today) ds ≡ []
find_all-traitee today [] all = refl
find_all-traitee today (d ∷ ds) all = ground (arith, find_all-traitee today ds)

again :
    (today later : ℕ) (dry_run : Bool) (db : Store)
    → find_all (is_a_rappeler today) db.delegations ≡ []
    → notifier_j3 today dry_run later db ≡ (ok rien, db)
unfolding notifier_j3
again today later dry_run db e = ground arith

-- The reminders of a day are sent once: after a run that goes through, another run on the same day,
-- at whatever time and whether mails are held back or not, sends nothing and changes nothing.
pub notifier_j3-rien :
    (today now later : ℕ) (dry_run dry_run' : Bool) (db : Store) {r : RappelResult}
    → (notifier_j3 today dry_run now db).0 ≡ ok r
    → notifier_j3 today dry_run' later (notifier_j3 today dry_run now db).1
      ≡ (ok rien, (notifier_j3 today dry_run now db).1)
unfolding notifier_j3
notifier_j3-rien today now later dry_run dry_run' db {r = r} e =
    let ids = ids_a_rappeler today db.delegations in
    elim (Result-cases (rappeler_toutes dry_run now ids db).0) [
      | inr (x, failed) ↦ ground arith
      | inl (one, went) ↦
          let done =
            traitee-loop today now dry_run ids db {r = one} went
              (traitee-start today db.delegations) in
          again today later dry_run' (notifier_j3 today dry_run now db).1 (
            ground (
              arith,
              find_all-traitee today (rappeler_toutes dry_run now ids db).1.delegations done,
            ))
    ]
