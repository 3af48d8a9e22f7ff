-- ===== src/Reforecast/Unicite.antt =====
-- reforecast.service.ts, `lancer`: at most one reforecast of a key is active.
use budget_backend.Base.{
  ℕ, suc, ◌≡◌, ◌⊎◌, refl, List, [], ◌∷◌, ◌++◌, map, arith, ok, find_all, any, str_eq, Result-cases,
  Option-cases, Bool-cases, inl, inr, find_one,
}
use budget_backend.Entities.{Db, AuthUser}
use budget_backend.Entities.Version.{version_has_id}
use budget_backend.Entities.Ligne.{LigneBudget, same_grain}
use budget_backend.Reforecast.Versions.{
  Realise, LancerReforecastDto, is_actif_de, nouvelle_version, marquer_obsolete, marquer_obsoletes,
}
use budget_backend.Reforecast.Lancement.{
  insert_lignes, generer_lignes, lignes_generees, reforecasts_a_remplacer, insert_reforecast,
  remplacer, lancer,
}
use budget_backend.Reforecast.Marques.{marquees, HasUniqueActif, marquees-HasUniqueActif}

pub record Lancement : Type 0 where
  pub realise : Realise
  pub now : ℕ
  pub dto : LancerReforecastDto
  pub user : AuthUser

abbrev pub run_lancements : List Lancement → Db → Db
run_lancements [] db = db
run_lancements (l ∷ rest) db = run_lancements rest (lancer l.realise l.now l.dto l.user db).1

insert_lignes-versions :
    (ls : List LigneBudget) (db : Db) → (insert_lignes ls db).1.versions ≡ db.versions
unfolding insert_lignes
insert_lignes-versions [] db = refl
insert_lignes-versions (l ∷ ls) db =
    let l' : LigneBudget = record l { id = db.prochain_id } in
    let next : Db = record db {
      lignes = db.lignes ++ (l' ∷ []);
      prochain_id = suc db.prochain_id;
    } in
    let rest = insert_lignes-versions ls next in
    elim (Bool-cases (any (same_grain l') db.lignes)) [
      | inl pris ↦ ground (arith, pris)
      | inr libre ↦ ground (arith, libre, rest)
    ]

module _ (r : Realise) (dto : LancerReforecastDto) (now : ℕ) (user : AuthUser) where
  generer_lignes-versions :
      (version : ℕ) (db : Db) → (generer_lignes r dto version now user db).1.versions ≡ db.versions
  unfolding generer_lignes
  generer_lignes-versions version db =
      let rows = lignes_generees r dto version now user db.lignes in
      let kept = insert_lignes-versions rows db in
      elim (Result-cases (insert_lignes rows db).0) [
        | inl (u, went) ↦ ground (arith, went, kept)
        | inr (x, failed) ↦ ground (arith, failed, kept)
      ]

  marquer_obsoletes-versions :
      (id : ℕ) (ids : List ℕ) (db : Db)
      → ((marquer_obsoletes id now user ids db).0 ≡ ok tt)
        × ((marquer_obsoletes id now user ids db).1.versions ≡ marquees id now user ids db.versions)
  unfolding marquer_obsoletes marquer_obsolete
  marquer_obsoletes-versions id [] db = (refl, refl)
  marquer_obsoletes-versions id (n ∷ ids) db =
      let next = (marquer_obsolete id now user n db).1 in marquer_obsoletes-versions id ids next

  reforecasts_a_remplacer-reads : (db : Db) → (reforecasts_a_remplacer r dto db).1 ≡ db
  unfolding reforecasts_a_remplacer
  reforecasts_a_remplacer-reads db = ground arith

  reforecasts_a_remplacer-ok :
      (db : Db) {ids : List ℕ}
      → (reforecasts_a_remplacer r dto db).0 ≡ ok ids
      → map (λ v. v.id) (find_all (is_actif_de dto) db.versions) ≡ ids
  unfolding reforecasts_a_remplacer
  reforecasts_a_remplacer-ok db h = ground (arith, h)

  insert_reforecast-versions :
      (db : Db) {id : ℕ}
      → (insert_reforecast now user dto db).0 ≡ ok id
      → ((insert_reforecast now user dto db).1.versions
          ≡ db.versions ++ (nouvelle_version id now user dto ∷ []))
  unfolding insert_reforecast
  insert_reforecast-versions db {id = id} h =
      let v = nouvelle_version db.prochain_id now user dto in
      elim (Bool-cases (any (λ w. str_eq w.code_version v.code_version) db.versions)) [
        | inl pris ↦ ground (arith, h, pris)
        | inr libre ↦
            let same : db.prochain_id ≡ id = ground (arith, h, libre) in rw (libre, same) refl
      ]

  remplacer-versions :
      (anciens : List ℕ) (id : ℕ) (db : Db)
      → (remplacer r now dto user anciens id db).1.versions
        ≡ marquees id now user anciens db.versions
  unfolding remplacer
  remplacer-versions anciens id db =
      let (passe, marks) = marquer_obsoletes-versions id anciens db in
      let next = (marquer_obsoletes id now user anciens db).1 in
      let kept = generer_lignes-versions id next in
      elim (Result-cases (generer_lignes r dto id now user next).0) [
        | inr (x, failed) ↦ ground (arith, passe, marks, kept, failed)
        | inl (nb, went) ↦
            elim (Option-cases
              (find_one (version_has_id id) (generer_lignes r dto id now user next).1.versions)) [
                | inl missing ↦ ground (arith, passe, marks, kept, went, missing)
                | inr (v, found) ↦ ground (arith, passe, marks, kept, went, found)
              ]
      ]

  -- A launch leaves the versions as they are, or adds one and marks those that it replaces.
  pub lancer-versions :
      (db : Db)
      → ((lancer r now dto user db).1.versions ≡ db.versions)
        ⊎ ((id : ℕ) × ((lancer r now dto user db).1.versions
              ≡ marquees id now user
                  (map (λ v. v.id) (find_all (is_actif_de dto) db.versions))
                  (db.versions ++ (nouvelle_version id now user dto ∷ []))))
  unfolding lancer
  lancer-versions db =
      let reads = reforecasts_a_remplacer-reads db in
      elim (Result-cases (reforecasts_a_remplacer r dto db).0) [
        | inr (x, failed) ↦ inl (ground (arith, failed))
        | inl (ids, checked) ↦
            let added = insert_reforecast now user dto db in
            elim (Result-cases added.0) [
              | inr (x, failed) ↦ inl (ground (arith, reads, checked, failed))
              | inl (id, went) ↦
                  let grown = insert_reforecast-versions db {id = id} went in
                  let listed = reforecasts_a_remplacer-ok db {ids = ids} checked in
                  let marks = remplacer-versions ids id added.1 in
                  elim (Result-cases (remplacer r now dto user ids id added.1).0) [
                    | inr (x, failed) ↦ inl (ground (arith, reads, checked, went, failed))
                    | inl (answer, done) ↦
                        inr (id, ground (arith, reads, checked, went, done, marks, grown, listed))
                  ]
            ]
      ]

  lancer-HasUniqueActif :
      (db : Db) → HasUniqueActif db → HasUniqueActif (lancer r now dto user db).1
  lancer-HasUniqueActif db inv k = elim (lancer-versions db) [
    | inl kept ↦ rw kept (inv k)
    | inr (id, marked) ↦ rw marked (marquees-HasUniqueActif k dto id now user db.versions (inv k))
  ]

-- Whatever launches follow one another, with any actuals, at most one reforecast is active of each
-- source version, source scenario, quarter and year, if this holds at the start.
pub run_lancements-HasUniqueActif :
    (rs : List Lancement) (db : Db) → HasUniqueActif db → HasUniqueActif (run_lancements rs db)
run_lancements-HasUniqueActif [] db inv = inv
run_lancements-HasUniqueActif (l ∷ rest) db inv =
    run_lancements-HasUniqueActif rest (lancer l.realise l.now l.dto l.user db).1
      (lancer-HasUniqueActif l.realise l.dto l.now l.user db inv)
