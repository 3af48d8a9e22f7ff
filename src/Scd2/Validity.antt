-- ===== src/Scd2/Validity.antt =====
-- What the reads return under the invariant and after the writes.
use text.Mathlib.TextPositions.{eq_refl}
use budget_backend.Base.{
  ℕ, suc, String, Option, none, some, Bool, true, false, ◌≡◌, ◌≤◌, ◌<◌, refl, inl, inr, List, [],
  ◌∷◌, ◌++◌, arith, find_one, find_one-append, update_where, leb, Bool-cases, ◌&&◌, count_where,
  any,
}
use budget_backend.Scd2.{
  Row, Table, NewAttrs, has_key, is_current_of, is_valid_at, ends_after, close, new_row,
  find_current, find_valid_at, begins_on, create_new_version, table_apres, soft_close,
}
use budget_backend.Scd2.History.{
  EndsBy, AllAfter, IsHistory, NoneCurrent, close-NoneCurrent, close-Closes, IsHistory-close,
}

-- A date before the end of one interval is not in an interval that begins at or after that end.
disjoint_dates :
    (date debut : ℕ) (courante : Bool) (fin : Option ℕ)
    → EndsBy debut courante fin
    → courante ≡ false
    → ends_after date fin ≡ true
    → leb debut date ≡ false
disjoint_dates date debut true fin e c v = cc
disjoint_dates date debut false none e c v = absurd e
disjoint_dates date debut false (some fin) e c v = ground arith

-- An interval that was closed by `today` does not reach a later date.
ended_before :
    (today date : ℕ) (courante : Bool) (fin : Option ℕ)
    → EndsBy today courante fin
    → courante ≡ false
    → today ≤ date
    → ends_after date fin ≡ false
ended_before today date true fin e c le = cc
ended_before today date false none e c le = absurd e
ended_before today date false (some fin) e c le = ground arith

-- The current interval has no end.
current_open :
    (bound date : ℕ) (courante : Bool) (fin : Option ℕ)
    → EndsBy bound courante fin
    → courante ≡ true
    → ends_after date fin ≡ true
current_open bound date true none e c = refl
current_open bound date true (some fin) e c = absurd e
current_open bound date false fin e c = cc

module _ {A : Type 0} where
  abbrev pub valid_row : String → ℕ → Row A → Bool
  valid_row k date r = has_key k r && is_valid_at date r

  none_valid_after :
      (k : String) (date : ℕ) (r : Row A) (rows : List (Row A))
      → is_valid_at date r ≡ true
      → AllAfter k r rows
      → count_where (valid_row k date) rows ≡ 0
  none_valid_after k date r [] v h = refl
  none_valid_after k date r (s ∷ rows) v h = elim (Bool-cases (has_key k s)) [
    | inl keyed ↦
        let p = h.0 keyed in
        ground (
          arith,
          disjoint_dates date s.date_debut r.version_courante r.date_fin p.0 p.1,
          none_valid_after k date r rows v h.1,
        )
    | inr other ↦ rw other (none_valid_after k date r rows v h.1)
  ]

  -- At any date at most one row of a business key is valid.
  pub valid_unique :
      (k : String) (today date : ℕ) (rows : List (Row A))
      → IsHistory k today rows
      → count_where (valid_row k date) rows ≤ 1
  valid_unique k today date [] h = omega arith
  valid_unique k today date (r ∷ rows) h = elim (Bool-cases (valid_row k date r)) [
    | inl hit ↦ ground (arith, h.1, none_valid_after k date r rows)
    | inr miss ↦ rw miss (valid_unique k today date rows h.2)
  ]

  NoneCurrent-found :
      (k : String) (rows : List (Row A))
      → NoneCurrent k rows
      → find_one (is_current_of k) rows ≡ none
  NoneCurrent-found k [] h = refl
  NoneCurrent-found k (r ∷ rows) h = ground (arith, h.0, NoneCurrent-found k rows h.1)

  -- A version of a key that has no row from today is created: the call succeeds with a row of the
  -- columns given, and this row is the current one of the key.
  pub create-find_current :
      (k : String) (today now : ℕ) (attrs : NewAttrs A) (user : String) (t : Table A)
      → any (begins_on k today) t.rows ≡ false
      → (row : Row A) × (t' : Table A) × (create_new_version today now k attrs user t
          ≡ some (row, t'))
        × (row.attrs ≡ attrs.columns)
        × (find_current k t' ≡ some row)
  unfolding create_new_version find_current
  create-find_current k today now attrs user t free =
      let f = close today now user in
      let row = new_row t.prochain_id today k attrs user in
      let old = update_where (is_current_of k) f t.rows in
      (
        row,
        record { rows = old ++ (row ∷ []); prochain_id = suc t.prochain_id },
        rw free refl,
        refl,
        rw (
          find_one-append (is_current_of k) old (row ∷ []),
          NoneCurrent-found k old
              (close-NoneCurrent k today f (close-Closes today now user) t.rows),
          eq_refl k,
        ),
      )

  -- After a closing the key has no current row.
  soft_close-find_current :
      (k : String) (today now : ℕ) (user : String) (t : Table A)
      → find_current k (soft_close today now k user t) ≡ none
  unfolding soft_close find_current
  soft_close-find_current k today now user t = NoneCurrent-found k _ (
      close-NoneCurrent k today (λ r. record (close today now user r) { est_actif = false })
        (record {
          key_kept = λ r. refl;
          debut_kept = λ r. refl;
          ended = λ r. refl;
          not_current = λ r. refl;
        })
        t.rows)

  none_valid_from :
      (k : String) (today date : ℕ) (rows : List (Row A))
      → today ≤ date
      → NoneCurrent k rows
      → IsHistory k today rows
      → find_one (valid_row k date) rows ≡ none
  none_valid_from k today date [] le c h = refl
  none_valid_from k today date (r ∷ rows) le c h = elim (Bool-cases (has_key k r)) [
    | inl keyed ↦ ground (
      arith,
      ended_before today date r.version_courante r.date_fin (h.0 keyed) (c.0 keyed) le,
      none_valid_from k today date rows le c.1 h.2,
    )
    | inr other ↦ rw other (none_valid_from k today date rows le c.1 h.2)
  ]

  -- A version of a key that has no row from today and no interval closed after today is created, and
  -- from that day on its row is the valid one.
  pub create-find_valid_at :
      (k : String) (bound today now date : ℕ) (attrs : NewAttrs A) (user : String) (t : Table A)
      → bound ≤ today
      → IsHistory k bound t.rows
      → any (begins_on k today) t.rows ≡ false
      → today ≤ date
      → (row : Row A) × (t' : Table A) × (create_new_version today now k attrs user t
          ≡ some (row, t'))
        × (row.attrs ≡ attrs.columns)
        × (find_valid_at k date t' ≡ some row)
  unfolding create_new_version find_valid_at
  create-find_valid_at k bound today now date attrs user t le h free from =
      let f = close today now user in
      let row = new_row t.prochain_id today k attrs user in
      let old = update_where (is_current_of k) f t.rows in
      let closes = close-Closes today now user in
      (
        row,
        record { rows = old ++ (row ∷ []); prochain_id = suc t.prochain_id },
        rw free refl,
        refl,
        rw
            (
              find_one-append (valid_row k date) old (row ∷ []),
              none_valid_from k today date old from (close-NoneCurrent k today f closes t.rows)
                  (IsHistory-close k k today f closes bound t.rows le h),
              eq_refl k,
            )
            (ground arith),
      )

  abbrev pub id_of : Option (Row A) → Option ℕ
  id_of none = none
  id_of (some r) = some r.id

  -- What a row says, but for the end of its interval and the traces of its last change
  abbrev pub contenu : Row A → ℕ × String × A × ℕ × Bool × String
  contenu r = (r.id, r.business_key, r.attrs, r.date_debut, r.est_actif, r.utilisateur_creation)

  abbrev pub contenu_de : Option (Row A) → Option (ℕ × String × A × ℕ × Bool × String)
  contenu_de none = none
  contenu_de (some r) = some (contenu r)

  past_rows :
      (k k' : String) (bound today now date : ℕ) (user : String) (rows : List (Row A))
      → date < today
      → IsHistory k bound rows
      → contenu_de (
          find_one (valid_row k date) (update_where (is_current_of k') (close today now user) rows))
        ≡ contenu_de (find_one (valid_row k date) rows)
  past_rows k k' bound today now date user [] lt h = refl
  past_rows k k' bound today now date user (r ∷ rows) lt h = elim (Bool-cases (has_key k r)) [
    | inl keyed ↦ ground (
      arith,
      current_open bound date r.version_courante r.date_fin (h.0 keyed),
      past_rows k k' bound today now date user rows lt h.2,
    )
    | inr other ↦ ground (arith, past_rows k k' bound today now date user rows lt h.2)
  ]

  -- A call of the creation does not rewrite the past: at an earlier date any key resolves to the same
  -- row as before, with the same columns; only the end of its interval and the traces of its last
  -- change may differ.
  pub create-past_kept :
      (k k' : String) (bound today now date : ℕ) (attrs : NewAttrs A) (user : String) (t : Table A)
      → date < today
      → IsHistory k bound t.rows
      → contenu_de
          (find_valid_at k date (table_apres t (create_new_version today now k' attrs user t)))
        ≡ contenu_de (find_valid_at k date t)
  unfolding create_new_version find_valid_at
  create-past_kept k k' bound today now date attrs user t lt h =
      let old = update_where (is_current_of k') (close today now user) t.rows in
      let row = new_row t.prochain_id today k' attrs user in
      elim (Bool-cases (any (begins_on k' today) t.rows)) [
        | inl taken ↦ rw taken refl
        | inr free ↦ rw free (
            ground (
              arith,
              past_rows k k' bound today now date user t.rows lt h,
              find_one-append (valid_row k date) old (row ∷ []),
            ))
      ]
