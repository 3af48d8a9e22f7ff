-- ===== src/Scd2/History.antt =====
-- The invariant of a table with history, and that both writes keep it.
use budget_backend.Base.{
  ℕ, String, Option, none, some, Bool, true, false, ◌≡◌, ◌≤◌, refl, sym, inl, inr, List, [], ◌∷◌,
  ◌++◌, arith, update_where, eq_iff, Bool-cases, any, if◌then◌else◌,
}
use budget_backend.Scd2.{
  Row, Table, NewAttrs, has_key, is_current_of, close, new_row, begins_on, create_new_version,
  table_apres, soft_close,
}

-- The end of a closed row's interval is known and not after `bound`; a current row has none.
abbrev pub EndsBy : ℕ → Bool → Option ℕ → Type 0
EndsBy bound true none = Unit {0}
EndsBy bound true (some fin) = ⊥
EndsBy bound false none = ⊥
EndsBy bound false (some fin) = fin ≤ bound

EndsBy-mono :
    (a b : ℕ) (courante : Bool) (fin : Option ℕ)
    → a ≤ b
    → EndsBy a courante fin
    → EndsBy b courante fin
EndsBy-mono a b true none h e = tt
EndsBy-mono a b true (some fin) h e = e
EndsBy-mono a b false none h e = e
EndsBy-mono a b false (some fin) h e = omega arith

module _ {A : Type 0} where
  -- The interval of `r` is closed before that of `s` begins.
  abbrev pub Precedes : Row A → Row A → Type 0
  Precedes r s = EndsBy s.date_debut r.version_courante r.date_fin × (r.version_courante ≡ false)

  abbrev pub AllAfter : String → Row A → List (Row A) → Type 0
  AllAfter k r [] = Unit {0}
  AllAfter k r (s ∷ rows) = (has_key k s ≡ true → Precedes r s) × AllAfter k r rows

  -- The rows of a business key: each interval is closed by `today` or is the current one, and those
  -- that stand earlier in the table end before the later ones begin.
  abbrev pub IsHistory : String → ℕ → List (Row A) → Type 0
  IsHistory k today [] = Unit {0}
  IsHistory k today (r ∷ rows) =
      (has_key k r ≡ true → EndsBy today r.version_courante r.date_fin)
      × (has_key k r ≡ true → AllAfter k r rows)
      × IsHistory k today rows

  -- What both writes do to the current row.
  pub record Closes (today : ℕ) (f : Row A → Row A) : Type 0 where
    pub key_kept : (r : Row A) → (f r).business_key ≡ r.business_key
    pub debut_kept : (r : Row A) → (f r).date_debut ≡ r.date_debut
    pub ended : (r : Row A) → (f r).date_fin ≡ some today
    pub not_current : (r : Row A) → (f r).version_courante ≡ false

  AllAfter-append :
      (k : String) (r : Row A) (rows : List (Row A)) (s : Row A)
      → AllAfter k r rows
      → (has_key k s ≡ true → Precedes r s)
      → AllAfter k r (rows ++ (s ∷ []))
  AllAfter-append k r [] s h p = (p, tt)
  AllAfter-append k r (x ∷ rows) s h p = (h.0, AllAfter-append k r rows s h.1 p)

  module _ (k k' : String) (today : ℕ) (f : Row A → Row A) (closes : Closes today f) where
    AllAfter-close :
        (r : Row A) (rows : List (Row A))
        → AllAfter k r rows
        → AllAfter k r (update_where (is_current_of k') f rows)
    AllAfter-close r [] h = tt
    AllAfter-close r (s ∷ rows) h = (after (is_current_of k' s), AllAfter-close r rows h.1)
      where
        after :
            (b : Bool) → has_key k (if b then f s else s) ≡ true → Precedes r (if b then f s else s)
        after true keyed = rw (closes.debut_kept s) (h.0 (rw (closes.key_kept s) at keyed))
        after false keyed = h.0 keyed

    -- Nothing of the key stands after a current row.
    AllAfter-current :
        (r r' : Row A) (rows : List (Row A))
        → r.version_courante ≡ true
        → AllAfter k r rows
        → AllAfter k r' rows
    AllAfter-current r r' [] current h = tt
    AllAfter-current r r' (s ∷ rows) current h =
        (λ keyed. absurd_current (h.0 keyed), AllAfter-current r r' rows current h.1)
      where
        absurd_current : Precedes r s → Precedes r' s
        absurd_current p = cc (current, p.1)

    pub IsHistory-close :
        (bound : ℕ) (rows : List (Row A))
        → bound ≤ today
        → IsHistory k bound rows
        → IsHistory k today (update_where (is_current_of k') f rows)
    IsHistory-close bound [] le h = tt
    IsHistory-close bound (r ∷ rows) le h = elim (Bool-cases (is_current_of k' r)) [
      | inl current ↦ rw current (
        λ keyed. rw (closes.ended r, closes.not_current r) (omega arith),
        λ keyed.
            AllAfter-close (f r) rows (
              AllAfter-current r (f r) rows (ground arith) (h.1 (rw (closes.key_kept r) at keyed))),
        IsHistory-close bound rows le h.2,
      )
      | inr other ↦ rw other (
        λ keyed. EndsBy-mono bound today r.version_courante r.date_fin le (h.0 keyed),
        λ keyed. AllAfter-close r rows (h.1 keyed),
        IsHistory-close bound rows le h.2,
      )
    ]

  IsHistory-mono :
      (k : String) (a b : ℕ) (rows : List (Row A)) → a ≤ b → IsHistory k a rows → IsHistory k b rows
  IsHistory-mono k a b [] le h = tt
  IsHistory-mono k a b (r ∷ rows) le h = (
    λ keyed. EndsBy-mono a b r.version_courante r.date_fin le (h.0 keyed),
    h.1,
    IsHistory-mono k a b rows le h.2,
  )

  -- No row of the key is current.
  abbrev pub NoneCurrent : String → List (Row A) → Type 0
  NoneCurrent k [] = Unit {0}
  NoneCurrent k (r ∷ rows) = (has_key k r ≡ true → r.version_courante ≡ false) × NoneCurrent k rows

  pub close-NoneCurrent :
      (k : String) (today : ℕ) (f : Row A → Row A)
      → Closes today f
      → (rows : List (Row A)) → NoneCurrent k (update_where (is_current_of k) f rows)
  close-NoneCurrent k today f closes [] = tt
  close-NoneCurrent k today f closes (r ∷ rows) =
      (closed (is_current_of k r) refl, close-NoneCurrent k today f closes rows)
    where
      closed :
          (b : Bool)
          → is_current_of k r ≡ b
          → has_key k (if b then f r else r) ≡ true
          → (if b then f r else r).version_courante ≡ false
      closed true e keyed = closes.not_current r
      closed false e keyed = ground arith

  pub IsHistory-append :
      (k : String) (today : ℕ) (rows : List (Row A)) (s : Row A)
      → (has_key k s ≡ true → NoneCurrent k rows)
      → s.date_debut ≡ today
      → EndsBy today s.version_courante s.date_fin
      → IsHistory k today rows
      → IsHistory k today (rows ++ (s ∷ []))
  IsHistory-append k today [] s none_current starts ends h = (λ _. ends, λ _. tt, tt)
  IsHistory-append k today (r ∷ rows) s none_current starts ends h = (
    h.0,
    λ keyed.
        AllAfter-append k r rows s (h.1 keyed)
          (λ s_keyed. (rw starts (h.0 keyed), (none_current s_keyed).0 keyed)),
    IsHistory-append k today rows s (λ s_keyed. (none_current s_keyed).1) starts ends h.2,
  )

  pub close-Closes : (today now : ℕ) (user : String) → Closes today (close {A = A} today now user)
  close-Closes today now user = record {
    key_kept = λ r. refl;
    debut_kept = λ r. refl;
    ended = λ r. refl;
    not_current = λ r. refl;
  }

  -- A call of the creation keeps the history of every business key, if no interval was closed after
  -- today.
  pub create_new_version-IsHistory :
      (k k' : String) (bound today now : ℕ) (attrs : NewAttrs A) (user : String) (t : Table A)
      → bound ≤ today
      → IsHistory k bound t.rows
      → IsHistory k today (table_apres t (create_new_version today now k' attrs user t)).rows
  unfolding create_new_version
  create_new_version-IsHistory k k' bound today now attrs user t le h =
      let f = close today now user in
      elim (Bool-cases (any (begins_on k' today) t.rows)) [
        | inl taken ↦ rw taken (IsHistory-mono k bound today t.rows le h)
        | inr free ↦ rw free (
            IsHistory-append k today (update_where (is_current_of k') f t.rows)
              (new_row t.prochain_id today k' attrs user)
              (λ keyed.
                rw (sym ((eq_iff k' k).0 keyed))
                  (close-NoneCurrent k' today f (close-Closes today now user) t.rows))
              refl tt
              (IsHistory-close k k' today f (close-Closes today now user) bound t.rows le h))
      ]

  -- So does a closing.
  pub soft_close-IsHistory :
      (k k' : String) (bound today now : ℕ) (user : String) (t : Table A)
      → bound ≤ today
      → IsHistory k bound t.rows
      → IsHistory k today (soft_close today now k' user t).rows
  unfolding soft_close
  soft_close-IsHistory k k' bound today now user t le h =
      IsHistory-close k k' today (λ r. record (close today now user r) { est_actif = false })
        (record {
          key_kept = λ r. refl;
          debut_kept = λ r. refl;
          ended = λ r. refl;
          not_current = λ r. refl;
        })
        bound t.rows le h
