-- ===== src/Scd2/Writes.antt =====
-- Any sequence of writes to a table with history, in the order of their days.
use budget_backend.Base.{
  ℕ, String, true, ◌≡◌, ◌≤◌, refl, List, [], ◌∷◌, arith, count_where, Bool-cases, inl, inr,
}
use budget_backend.Scd2.{
  Row, Table, NewAttrs, has_key, is_current_of, create_new_version, table_apres, soft_close,
}
use budget_backend.Scd2.History.{
  IsHistory, AllAfter, create_new_version-IsHistory, soft_close-IsHistory,
}
use budget_backend.Scd2.Validity.{valid_row, valid_unique}

pub data Write (A : Type 0) : Type 0 where
  creation : (today now : ℕ) (k : String) (attrs : NewAttrs A) (user : String) → Write A
  cloture : (today now : ℕ) (k user : String) → Write A

module _ {A : Type 0} where
  abbrev pub day : Write A → ℕ
  day (creation today now k attrs user) = today
  day (cloture today now k user) = today

  abbrev pub apply : Write A → Table A → Table A
  apply (creation today now k attrs user) t =
      table_apres t (create_new_version today now k attrs user t)
  apply (cloture today now k user) t = soft_close today now k user t

  abbrev pub apply_all : List (Write A) → Table A → Table A
  apply_all [] t = t
  apply_all (w ∷ ws) t = apply_all ws (apply w t)

  abbrev pub InOrder : ℕ → List (Write A) → Type 0
  InOrder from [] = Unit {0}
  InOrder from (w ∷ ws) = (from ≤ day w) × InOrder (day w) ws

  abbrev last_day : ℕ → List (Write A) → ℕ
  last_day from [] = from
  last_day from (w ∷ ws) = last_day (day w) ws

  apply-IsHistory :
      (k : String) (from : ℕ) (w : Write A) (t : Table A)
      → from ≤ day w
      → IsHistory k from t.rows
      → IsHistory k (day w) (apply w t).rows
  apply-IsHistory k from (creation today now k' attrs user) t le h =
      create_new_version-IsHistory k k' from today now attrs user t le h
  apply-IsHistory k from (cloture today now k' user) t le h =
      soft_close-IsHistory k k' from today now user t le h

  apply_all-IsHistory :
      (k : String) (from : ℕ) (ws : List (Write A)) (t : Table A)
      → InOrder from ws
      → IsHistory k from t.rows
      → IsHistory k (last_day from ws) (apply_all ws t).rows
  apply_all-IsHistory k from [] t order h = h
  apply_all-IsHistory k from (w ∷ ws) t order h =
      apply_all-IsHistory k (day w) ws (apply w t) order.1 (apply-IsHistory k from w t order.0 h)

  none_current_after :
      (k : String) (r : Row A) (rows : List (Row A))
      → r.version_courante ≡ true
      → AllAfter k r rows
      → count_where (is_current_of k) rows ≡ 0
  none_current_after k r [] c h = refl
  none_current_after k r (s ∷ rows) c h = elim (Bool-cases (has_key k s)) [
    | inl keyed ↦ let p = h.0 keyed in cc (c, p.1)
    | inr other ↦ rw other (none_current_after k r rows c h.1)
  ]

  current_unique :
      (k : String) (today : ℕ) (rows : List (Row A))
      → IsHistory k today rows
      → count_where (is_current_of k) rows ≤ 1
  current_unique k today [] h = omega arith
  current_unique k today (r ∷ rows) h =
      ground (arith, h.1, none_current_after k r rows, current_unique k today rows h.2)

  -- After any sequence of creations and closings from an empty table, in the order of their days, a
  -- business key has at most one current row, and at any date at most one valid row.
  pub writes_unique :
      (ws : List (Write A)) (id : ℕ) (k : String) (date : ℕ)
      → InOrder 0 ws
      → let t = apply_all ws (record { rows = []; prochain_id = id }) in
        (count_where (is_current_of k) t.rows ≤ 1) × (count_where (valid_row k date) t.rows ≤ 1)
  writes_unique ws id k date order =
      let h = apply_all-IsHistory k 0 ws (record { rows = []; prochain_id = id }) order tt in
      (current_unique k (last_day 0 ws) _ h, valid_unique k (last_day 0 ws) date _ h)
