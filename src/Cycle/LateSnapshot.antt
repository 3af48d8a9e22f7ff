-- ===== src/Cycle/LateSnapshot.antt =====
-- `initialiserSnapshot` does not look at the version's state. On a version in the committee phase it
-- adds centres that nobody has validated.
use budget_backend.Base.{
  ℕ, none, some, Bool, true, false, ◌≡◌, inl, inr, List, [], ◌∷◌, ◌++◌, arith, find_one,
  find_one-append, any, ◌==◌, Bool-cases,
}
use budget_backend.Entities.{Db}
use budget_backend.Entities.Version.{DimVersion, version_has_id}
use budget_backend.Entities.Centre.{CrAttendu, attendu_is_of, is_valide}
use budget_backend.CrWorkflow.Snapshot.{
  initialiser_snapshot, inserer_manquants, attendu_is, is_none, union_perimetres, nouvel_attendu,
}
use budget_backend.Cycle.StatutGraph.{statut_at}
use budget_backend.Cycle.SnapshotGraph.{is_attendu}
use budget_backend.Cycle.CrWrites.{initialiser_snapshot-versions}
use budget_backend.Cycle.Untouched.{initialiser_snapshot-statuts}
use budget_backend.Cycle.PreValidation.{comite_at, IsCoherent}
use budget_backend.Cycle.Requests.{Request}

any-append_old :
    (p : CrAttendu → Bool) (xs : List CrAttendu) (a : CrAttendu)
    → any p xs ≡ true
    → any p (xs ++ (a ∷ [])) ≡ true
any-append_old p [] a h = cc
any-append_old p (b ∷ xs) a h = ground (arith, any-append_old p xs a)

any-append_new :
    (p : CrAttendu → Bool) (xs : List CrAttendu) (a : CrAttendu)
    → p a ≡ true
    → any p (xs ++ (a ∷ [])) ≡ true
any-append_new p [] a h = rw h
any-append_new p (b ∷ xs) a h = ground (arith, any-append_new p xs a)

inserer_manquants-keeps :
    (id cr : ℕ) (crs : List ℕ) (db : Db)
    → is_attendu id cr db.attendus ≡ true
    → is_attendu id cr (inserer_manquants id crs db).0.attendus ≡ true
unfolding inserer_manquants
inserer_manquants-keeps id cr [] db h = h
inserer_manquants-keeps id cr (c ∷ crs) db h =
    elim (Bool-cases (is_none (find_one (attendu_is_of id c) db.attendus))) [
      | inl missing ↦ rw missing (
          inserer_manquants-keeps id cr crs _ (
            any-append_old (attendu_is true id cr) db.attendus (nouvel_attendu db.prochain_id id c)
              h))
      | inr present ↦ rw present (inserer_manquants-keeps id cr crs db h)
    ]

-- Every centre of the set that the version has never expected is expected afterwards.
inserer_manquants-covers :
    (id cr : ℕ) (crs : List ℕ) (db : Db)
    → any (λ d. d == cr) crs ≡ true
    → find_one (attendu_is_of id cr) db.attendus ≡ none
    → is_attendu id cr (inserer_manquants id crs db).0.attendus ≡ true
unfolding inserer_manquants
inserer_manquants-covers id cr [] db h absent = cc
inserer_manquants-covers id cr (c ∷ crs) db h absent = elim (Bool-cases (c == cr)) [
  | inl same ↦
      let is_cr : cr ≡ c = ground arith in
      let absent_c : find_one (attendu_is_of id c) db.attendus ≡ none = rw is_cr at absent in
      rw absent_c (
        inserer_manquants-keeps id cr crs _ (
          any-append_new (attendu_is true id cr) db.attendus (nouvel_attendu db.prochain_id id c)
            (ground arith)))
  | inr other ↦ elim (Bool-cases (is_none (find_one (attendu_is_of id c) db.attendus))) [
    | inl missing ↦ rw missing (
        inserer_manquants-covers id cr crs _ (rw other at h) (
          ground (
            arith,
            find_one-append (attendu_is_of id cr) db.attendus
                (nouvel_attendu db.prochain_id id c ∷ []),
          )))
    | inr present ↦ rw present (inserer_manquants-covers id cr crs db (rw other at h) absent)
  ]
]

initialiser_snapshot-covers :
    (r : Request) (db : Db) (id cr : ℕ) {v : DimVersion}
    → find_one (version_has_id id) db.versions ≡ some v
    → any (λ d. d == cr) (union_perimetres r.perimetre r.roles.saisisseurs_actifs []) ≡ true
    → find_one (attendu_is_of id cr) db.attendus ≡ none
    → is_attendu id cr (initialiser_snapshot r.perimetre r.roles id r.user db).1.attendus ≡ true
unfolding initialiser_snapshot
initialiser_snapshot-covers r db id cr found in_set absent = ground (
  arith,
  inserer_manquants-covers id cr (union_perimetres r.perimetre r.roles.saisisseurs_actifs []) db
      in_set absent,
)

-- On a version in the committee phase, an initialisation of the snapshot that meets, in the
-- perimeter of an active SAISISSEUR, a centre which the version has never expected and which is not
-- VALIDE breaks the pre-validation invariant.
pub late_snapshot_breaks :
    (r : Request) (db : Db) (id cr : ℕ) {v : DimVersion}
    → find_one (version_has_id id) db.versions ≡ some v
    → comite_at id db ≡ true
    → any (λ d. d == cr) (union_perimetres r.perimetre r.roles.saisisseurs_actifs []) ≡ true
    → find_one (attendu_is_of id cr) db.attendus ≡ none
    → is_valide (statut_at id cr db.statuts) ≡ false
    → ¬ IsCoherent (initialiser_snapshot r.perimetre r.roles id r.user db).1
late_snapshot_breaks r db id cr found phase in_set absent not_valide inv =
    let statuts = initialiser_snapshot-statuts r.now r.user db r.perimetre r.roles id in
    let versions = initialiser_snapshot-versions r.now r.user db r.perimetre id "" r.roles in
    let valide_after =
      inv id cr (rw versions phase) (initialiser_snapshot-covers r db id cr found in_set absent) in
    let valide_before : is_valide (statut_at id cr db.statuts) ≡ true =
      rw statuts at valide_after in
    cc
