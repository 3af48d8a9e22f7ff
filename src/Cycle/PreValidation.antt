-- ===== src/Cycle/PreValidation.antt =====
-- A version that is pre-validated, or before the committee, has every centre of its snapshot VALIDE.
use budget_backend.Base.{
  ℕ, Option, none, some, Bool, true, false, ◌≡◌, refl, ◌⊎◌, inl, inr, arith, find_one,
  find_one_sound, update_where, map_option, if◌then◌else◌, ◌==◌, Bool-cases,
}
use budget_backend.Entities.{Db, AuthUser}
use budget_backend.Entities.Version.{
  DimVersion, StatutVersion, pre_valide, soumis_comite, version_has_id,
}
use budget_backend.Entities.Centre.{StatutCr, is_valide}
use budget_backend.CrWorkflow.Helpers.{bascule}
use budget_backend.Cycle.Graph.{
  Moves, VersionEffect, VersionEffect-Moves, is_manual, with_statut, find_move,
}
use budget_backend.Cycle.StatutGraph.{statut_at, StatutMoves, StatutEffect, StatutEffect-Moves}
use budget_backend.Cycle.SnapshotGraph.{is_attendu, bascule_sound}
use budget_backend.Cycle.Untouched.{Untouched}

-- The phase from the pre-validation to the committee's decision.
abbrev pub is_comite : StatutVersion → Bool
is_comite pre_valide = true
is_comite soumis_comite = true
is_comite _ = false

abbrev pub in_comite : Option DimVersion → Bool
in_comite none = false
in_comite (some v) = is_comite v.statut

abbrev pub comite_at : ℕ → Db → Bool
comite_at k db = in_comite (find_one (version_has_id k) db.versions)

-- The invariant, version by version and centre by centre.
abbrev pub IsCoherentAt : ℕ → ℕ → Db → Type 0
IsCoherentAt k cr db =
    comite_at k db ≡ true
    → is_attendu k cr db.attendus ≡ true
    → is_valide (statut_at k cr db.statuts) ≡ true

abbrev pub IsCoherent : Db → Type 0
IsCoherent db = (k cr : ℕ) → IsCoherentAt k cr db

pub Moves-in_comite :
    (o o' : Option DimVersion) → Moves is_manual o o' → in_comite o' ≡ true → in_comite o ≡ true
Moves-in_comite none none m h = h
Moves-in_comite none (some v) m h = ground arith
Moves-in_comite (some v) none m h = cc
Moves-in_comite (some v) (some v') m h = ground arith

-- A manual write does not enter the phase.
pub manual_enters_no_phase :
    (k : ℕ) (db db' : Db)
    → VersionEffect is_manual db.versions db'.versions
    → comite_at k db' ≡ true
    → comite_at k db ≡ true
manual_enters_no_phase k db db' e = Moves-in_comite _ _ (VersionEffect-Moves k e)

pub Untouched-IsCoherent :
    (db db' : Db)
    → VersionEffect is_manual db.versions db'.versions
    → Untouched db db'
    → IsCoherent db
    → IsCoherent db'
Untouched-IsCoherent db db' e (attendus, statuts) inv k cr phase there =
    rw statuts (inv k cr (manual_enters_no_phase k db db' e phase) (rw attendus at there))

-- A centre leaves VALIDE only by a write that starts there.
pub stays_valide :
    (k cr id : ℕ) (from to : StatutCr) (db db' : Db)
    → StatutEffect id from to db.statuts db'.statuts
    → (is_valide from ≡ false) ⊎ (is_valide to ≡ true)
    → is_valide (statut_at k cr db.statuts) ≡ true
    → is_valide (statut_at k cr db'.statuts) ≡ true
stays_valide k cr id from to db db' e harmless before = stays _ _ (StatutEffect-Moves k cr e) before
  where
    stays :
        (s s' : StatutCr) → StatutMoves id k from to s s' → is_valide s ≡ true → is_valide s' ≡ true
    stays s s' (inl same) h = rw same h
    stays s s' (inr (at, was, now_is)) h = ground arith

-- A call that writes one status, leaves the snapshot alone and enters no phase.
pub StatutEffect-IsCoherent :
    (id : ℕ) (from to : StatutCr) (db db' : Db)
    → VersionEffect is_manual db.versions db'.versions
    → StatutEffect id from to db.statuts db'.statuts
    → (is_valide from ≡ false) ⊎ (is_valide to ≡ true)
    → db'.attendus ≡ db.attendus
    → IsCoherent db
    → IsCoherent db'
StatutEffect-IsCoherent id from to db db' e f harmless attendus inv k cr phase there =
    stays_valide k cr id from to db db' f harmless
      (inv k cr (manual_enters_no_phase k db db' e phase) (rw attendus at there))

-- A call that writes one status of a version which is out of the phase afterwards, if it writes.
pub reopened-IsCoherent :
    (id : ℕ) (from to : StatutCr) (db db' : Db)
    → VersionEffect is_manual db.versions db'.versions
    → StatutEffect id from to db.statuts db'.statuts
    → (db'.statuts ≡ db.statuts) ⊎ (comite_at id db' ≡ false)
    → db'.attendus ≡ db.attendus
    → IsCoherent db
    → IsCoherent db'
reopened-IsCoherent id from to db db' e f (inl statuts) attendus inv k cr phase there =
    Untouched-IsCoherent db db' e (attendus, statuts) inv k cr phase there
reopened-IsCoherent id from to db db' e f (inr out) attendus inv k cr phase there =
    outside _ _ (StatutEffect-Moves k cr f)
      (inv k cr (manual_enters_no_phase k db db' e phase) (rw attendus at there))
  where
    outside :
        (s s' : StatutCr) → StatutMoves id k from to s s' → is_valide s ≡ true → is_valide s' ≡ true
    outside s s' (inl same) h = rw same h
    outside s s' (inr (at, was, now_is)) h =
        let clash : comite_at id db' ≡ true = rw at at phase in cc

in_comite-elsewhere :
    (k id now : ℕ) (user : AuthUser) (o : Option DimVersion)
    → ((r : DimVersion) → o ≡ some r → r.id ≡ k)
    → (k == id) ≡ false
    → in_comite (map_option (λ r. if r.id == id then with_statut pre_valide now user r else r) o)
      ≡ true
    → in_comite o ≡ true
in_comite-elsewhere k id now user none keyed other h = h
in_comite-elsewhere k id now user (some r) keyed other h = ground (arith, keyed r refl)

-- A call that may pre-validate the version `v`, by the test of the automatic pre-validation.
pub bascule-IsCoherent :
    (v : DimVersion) (now : ℕ) (user : AuthUser) (db db' : Db)
    → (db'.versions ≡ db.versions)
      ⊎ ((bascule v db' ≡ true)
          × (db'.versions
              ≡ update_where (version_has_id v.id) (with_statut pre_valide now user) db.versions))
    → ((k cr : ℕ)
        → is_valide (statut_at k cr db.statuts) ≡ true
        → is_valide (statut_at k cr db'.statuts) ≡ true)
    → ((k cr : ℕ) → is_attendu k cr db'.attendus ≡ true → is_attendu k cr db.attendus ≡ true)
    → IsCoherent db
    → IsCoherent db'
bascule-IsCoherent v now user db db' (inl same) stays shrinks inv k cr phase there =
    stays k cr (inv k cr (rw same at phase) (shrinks k cr there))
bascule-IsCoherent v now user db db' (inr (test, e)) stays shrinks inv k cr phase there =
    elim (Bool-cases (k == v.id)) [
      | inl at_v ↦
          let k_is : v.id ≡ k = ground arith in
          rw (← k_is) (bascule_sound v db' cr test (rw (← k_is) at there))
      | inr elsewhere ↦ stays k cr (inv k cr (moved_elsewhere elsewhere) (shrinks k cr there))
    ]
  where
    moved_elsewhere : (k == v.id) ≡ false → comite_at k db ≡ true
    moved_elsewhere other =
        in_comite-elsewhere k v.id now user (find_one (version_has_id k) db.versions)
          (λ r hit. ground (arith, find_one_sound (version_has_id k) db.versions hit)) other
          (rw (e, find_move k v.id pre_valide now user db.versions) at phase)
