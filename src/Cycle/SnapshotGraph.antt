-- ===== src/Cycle/SnapshotGraph.antt =====
-- The snapshot of the expected centres: membership under the writes of the services, and what the
-- count of the automatic pre-validation establishes.
use budget_backend.Base.{
  ℕ, Bool, true, ◌≡◌, ◌⊎◌, inl, inr, List, [], ◌∷◌, ◌++◌, map, arith, find_all, update_where,
  length, count_where, any, refl, Bool-cases, ◌≤◌, ◌↔◌, ◌≢◌,
}
use budget_backend.Entities.{Db}
use budget_backend.Entities.Version.{DimVersion, ouvert}
use budget_backend.Entities.Centre.{CrAttendu, StatutCr, is_valide}
use budget_backend.CrWorkflow.Helpers.{
  statut_or_en_saisie, is_actif_of, bascule, find_statut, statuts_attendus,
}
use budget_backend.CrWorkflow.Snapshot.{attendu_is}
use budget_backend.Cycle.StatutGraph.{statut_at}

-- The status that the join gives a row of the snapshot.
abbrev statut_joint : Db → CrAttendu → StatutCr
statut_joint db a = statut_or_en_saisie (find_statut a.fk_version a.fk_cr db)

-- Whether the active snapshot of the version `k` has the centre `cr`.
abbrev pub is_attendu : ℕ → ℕ → List CrAttendu → Bool
is_attendu k cr xs = any (attendu_is true k cr) xs

count-le-length :
    (f : CrAttendu → StatutCr) (rows : List CrAttendu)
    → count_where is_valide (map f rows) ≤ length (map f rows)
count-le-length f [] = omega arith
count-le-length f (a ∷ rows) = ground (arith, count-le-length f rows)

-- If all rows of the join are VALIDE, then so is the row of each centre of the snapshot.
all_valides :
    (k cr : ℕ) (f : CrAttendu → StatutCr) (xs : List CrAttendu)
    → count_where is_valide (map f (find_all (is_actif_of k) xs))
      ≡ length (map f (find_all (is_actif_of k) xs))
    → is_attendu k cr xs ≡ true
    → (a : CrAttendu) × (attendu_is true k cr a ≡ true) × (is_valide (f a) ≡ true)
all_valides k cr f [] all there = cc
all_valides k cr f (a ∷ xs) all there = elim (Bool-cases (attendu_is true k cr a)) [
  | inl hit ↦ (a, hit, ground (arith, count-le-length f (find_all (is_actif_of k) xs)))
  | inr miss ↦
      all_valides k cr f xs (ground (arith, count-le-length f (find_all (is_actif_of k) xs)))
        (rw miss at there)
]

attendu-keys :
    (k cr : ℕ) (a : CrAttendu) → attendu_is true k cr a ≡ true → (a.fk_version ≡ k) × (a.fk_cr ≡ cr)
attendu-keys k cr a h = ground arith

-- When the automatic pre-validation acts, every expected centre of the version is VALIDE.
pub bascule_sound :
    (v : DimVersion) (db : Db) (cr : ℕ)
    → bascule v db ≡ true
    → is_attendu v.id cr db.attendus ≡ true
    → is_valide (statut_at v.id cr db.statuts) ≡ true
unfolding bascule
bascule_sound v db cr all there =
    let (a, hit, ok) =
      all_valides v.id cr (λ a. statut_or_en_saisie (find_statut a.fk_version a.fk_cr db))
        db.attendus (ground arith) there in
    let (k_is, cr_is) = attendu-keys v.id cr a hit in rw (k_is, cr_is) at ok

-- A row that leaves the snapshot brings nothing in.
pub any-update_where :
    (p q : CrAttendu → Bool) (a : CrAttendu) (xs : List CrAttendu)
    → any p (update_where q (λ _. a) xs) ≡ true
    → (p a ≡ true) ⊎ (any p xs ≡ true)
any-update_where p q a [] h = cc
any-update_where p q a (b ∷ xs) h = ground (arith, any-update_where p q a xs)

pub any-append :
    (p : CrAttendu → Bool) (xs : List CrAttendu) (a : CrAttendu)
    → any p (xs ++ (a ∷ [])) ≡ true
    → (p a ≡ true) ⊎ (any p xs ≡ true)
any-append p [] a h = ground arith
any-append p (b ∷ xs) a h = ground (arith, any-append p xs a)

count_all :
    (k : ℕ) (f : CrAttendu → StatutCr) (xs : List CrAttendu)
    → ((a : CrAttendu)
        → attendu_is true k a.fk_cr a ≡ true
        → is_attendu k a.fk_cr xs ≡ true
        → is_valide (f a) ≡ true)
    → count_where is_valide (map f (find_all (is_actif_of k) xs))
      ≡ length (map f (find_all (is_actif_of k) xs))
count_all k f [] h = refl
count_all k f (a ∷ xs) h = ground (arith, h a, count_all k f xs (λ b p q. h b p (ground arith)))

some_attendu :
    (k : ℕ) (f : CrAttendu → StatutCr) (xs : List CrAttendu)
    → length (map f (find_all (is_actif_of k) xs)) ≢ 0
    → (cr : ℕ) × (is_attendu k cr xs ≡ true)
some_attendu k f [] h = absurd (h refl)
some_attendu k f (a ∷ xs) h = elim (Bool-cases (is_actif_of k a)) [
  | inl hit ↦ (a.fk_cr, ground arith)
  | inr miss ↦ let (cr, there) = some_attendu k f xs (rw miss at h) in (cr, ground arith)
]

attendu-length :
    (k cr : ℕ) (f : CrAttendu → StatutCr) (xs : List CrAttendu)
    → is_attendu k cr xs ≡ true
    → length (map f (find_all (is_actif_of k) xs)) ≢ 0
attendu-length k cr f [] h = cc
attendu-length k cr f (a ∷ xs) h = ground (arith, attendu-length k cr f xs)

bascule-parts :
    (v : DimVersion) (db : Db)
    → bascule v db ≡ true
    → (v.statut ≡ ouvert) × (length (statuts_attendus v.id db) ≢ 0)
unfolding bascule
bascule-parts v db h = (ground arith, ground arith)

bascule_holds :
    (v : DimVersion) (db : Db)
    → v.statut ≡ ouvert
    → length (statuts_attendus v.id db) ≢ 0
    → count_where is_valide (statuts_attendus v.id db) ≡ length (statuts_attendus v.id db)
    → bascule v db ≡ true
unfolding bascule
bascule_holds v db is_open nonempty all = ground arith

-- The test of the automatic pre-validation holds exactly when the version is open, its snapshot has
-- an active centre, and every active centre of the snapshot is VALIDE.
pub bascule_iff :
    (v : DimVersion) (db : Db)
    → (bascule v db ≡ true) ↔ (
        (v.statut ≡ ouvert)
        × ((cr : ℕ) × (is_attendu v.id cr db.attendus ≡ true))
        × ((cr : ℕ)
            → is_attendu v.id cr db.attendus ≡ true
            → is_valide (statut_at v.id cr db.statuts) ≡ true))
bascule_iff v db = (
  λ h. (
    (bascule-parts v db h).0,
    some_attendu v.id (statut_joint db) db.attendus (bascule-parts v db h).1,
    λ cr. bascule_sound v db cr h,
  ),
  λ (is_open, (cr, there), all).
      bascule_holds v db is_open (attendu-length v.id cr (statut_joint db) db.attendus there) (
        count_all v.id (statut_joint db) db.attendus
          (λ a p q. rw (attendu-keys v.id a.fk_cr a p).0 (all a.fk_cr q))),
)
