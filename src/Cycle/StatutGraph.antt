-- ===== src/Cycle/StatutGraph.antt =====
-- What the writes of the services do to the status of a centre under a version.
use budget_backend.Base.{
  ℕ, none, some, true, ◌≡◌, ◌⊎◌, inl, inr, List, [], ◌∷◌, ◌++◌, arith, find_one, update_where,
  map_option, find_one-update_where, find_one-append, if◌then◌else◌, find_one_sound, Bool-cases,
  Option-cases, sym,
}
use budget_backend.Entities.Centre.{CrStatut, StatutCr, en_saisie, statut_is_of}
use budget_backend.CrWorkflow.Helpers.{statut_or_en_saisie}

-- The writes to the table of statuses: the row of one centre of the version `id`, which goes from
-- one status to another, or is new and counted as EN_SAISIE before.
pub data StatutEffect (id : ℕ) (from to : StatutCr) (ss ss' : List CrStatut) : Type 0 where
  unchanged : ss' ≡ ss → StatutEffect id from to ss ss'
  changed :
      (old s : CrStatut)
      → find_one (statut_is_of id s.fk_cr) ss ≡ some old
      → s.fk_version ≡ id
      → old.statut ≡ from
      → s.statut ≡ to
      → ss' ≡ update_where (statut_is_of id s.fk_cr) (λ _. s) ss
      → StatutEffect id from to ss ss'
  appended :
      (s : CrStatut)
      → find_one (statut_is_of id s.fk_cr) ss ≡ none
      → s.fk_version ≡ id
      → from ≡ en_saisie
      → s.statut ≡ to
      → ss' ≡ ss ++ (s ∷ [])
      → StatutEffect id from to ss ss'

-- The status under a version and a centre, EN_SAISIE if there is no row.
abbrev pub statut_at : ℕ → ℕ → List CrStatut → StatutCr
statut_at k cr ss = statut_or_en_saisie (find_one (statut_is_of k cr) ss)

abbrev pub StatutMoves : ℕ → ℕ → StatutCr → StatutCr → StatutCr → StatutCr → Type 0
StatutMoves id k from to before after =
    (after ≡ before) ⊎ ((k ≡ id) × (before ≡ from) × (after ≡ to))

find_change :
    (k cr id : ℕ) (s : CrStatut) (ss : List CrStatut)
    → s.fk_version ≡ id
    → find_one (statut_is_of k cr) (update_where (statut_is_of id s.fk_cr) (λ _. s) ss)
      ≡ map_option
          (λ r. if statut_is_of id s.fk_cr r then s else r)
          (find_one (statut_is_of k cr) ss)
find_change k cr id s ss same =
    find_one-update_where (statut_is_of k cr) (statut_is_of id s.fk_cr) (λ _. s) ss
      (λ r h. ground arith)

same_keys :
    (k cr id c : ℕ) (r : CrStatut)
    → statut_is_of k cr r ≡ true
    → statut_is_of id c r ≡ true
    → (k ≡ id) × (cr ≡ c)
same_keys k cr id c r p q = ground arith

pub StatutEffect-Moves :
    (k cr : ℕ) {id : ℕ} {from to : StatutCr} {ss ss' : List CrStatut}
    → StatutEffect id from to ss ss'
    → StatutMoves id k from to (statut_at k cr ss) (statut_at k cr ss')
StatutEffect-Moves k cr (unchanged e) = inl (rw e)
StatutEffect-Moves k cr {id} {from} {to} {ss} (changed old s found at_id was now_is e) =
    elim (Option-cases (find_one (statut_is_of k cr) ss)) [
      | inl missing ↦ inl (rw (e, find_change k cr id s ss at_id, missing))
      | inr (r, hit) ↦ elim (Bool-cases (statut_is_of id s.fk_cr r)) [
        | inl same ↦
            let (k_is, cr_is) =
              same_keys k cr id s.fk_cr r (find_one_sound (statut_is_of k cr) ss hit) same in
            let r_found : find_one (statut_is_of id s.fk_cr) ss ≡ some r =
              rw (k_is, cr_is) at hit in
            let r_is : r ≡ old = cc in
            inr (k_is, rw (hit, r_is) was, rw (e, find_change k cr id s ss at_id, hit, same) now_is)
        | inr other ↦ inl (rw (e, find_change k cr id s ss at_id, hit, other))
      ]
    ]
StatutEffect-Moves k cr {id} {from} {to} {ss} (appended s missing at_id was now_is e) =
    elim (Option-cases (find_one (statut_is_of k cr) ss)) [
      | inl absent ↦ elim (Bool-cases (statut_is_of k cr s)) [
        | inl hit ↦ inr (
          ground arith,
          rw absent (sym was),
          rw (e, find_one-append (statut_is_of k cr) ss (s ∷ []), absent, hit) now_is,
        )
        | inr miss ↦ inl (rw (e, find_one-append (statut_is_of k cr) ss (s ∷ []), absent, miss))
      ]
      | inr (r, hit) ↦ inl (rw (e, find_one-append (statut_is_of k cr) ss (s ∷ []), hit))
    ]
