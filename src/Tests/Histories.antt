-- ===== src/Tests/Histories.antt =====
-- Histories of rows on concrete writes.
use budget_backend.Base.{ℕ, none, some, true, ◌≡◌, ◌≤◌, refl, List, [], ◌∷◌, arith, count_where}
use budget_backend.Scd2.{
  Row, Table, NewAttrs, is_current_of, find_current, find_valid_at, create_new_version, table_apres,
  soft_close,
}
use budget_backend.Scd2.History.{IsHistory}
use budget_backend.Scd2.Validity.{
  valid_row, create-find_current, create-find_valid_at, id_of, contenu_de, create-past_kept,
}
use budget_backend.Scd2.Writes.{Write, creation, cloture, apply_all, writes_unique}

abbrev attrs : ℕ → NewAttrs ℕ
attrs n = record { columns = n; actif = none }

abbrev empty : Table ℕ
empty = record { rows = []; prochain_id = 1 }

abbrev row_1 : Row ℕ
row_1 = record {
  id = 1;
  business_key = "64";
  attrs = 3;
  date_debut = 10;
  date_fin = none;
  version_courante = true;
  est_actif = true;
  utilisateur_creation = "admin";
  date_modification = none;
  utilisateur_modification = none;
}

abbrev table_1 : Table ℕ
table_1 = record { rows = row_1 ∷ []; prochain_id = 2 }

abbrev writes : List (Write ℕ)
writes =
    creation 10 100 "64" (attrs 3) "admin"
    ∷ creation 12 120 "64" (attrs 4) "admin"
    ∷ cloture 15 150 "64" "admin"
    ∷ []

-- Before, between and after the writes.
resolved :
    let t = apply_all writes empty in
    (id_of (find_valid_at "64" 9 t) ≡ none)
    × (id_of (find_valid_at "64" 11 t) ≡ some 1)
    × (id_of (find_valid_at "64" 14 t) ≡ some 2)
    × (id_of (find_valid_at "64" 15 t) ≡ none)
unfolding find_valid_at create_new_version soft_close
resolved = (refl, refl, refl, refl)

table_1-IsHistory : IsHistory "64" 10 table_1.rows
table_1-IsHistory = (λ _. tt, λ _. tt, tt)

writes_unique_example :
    let t = apply_all writes empty in
    (count_where (is_current_of "64") t.rows ≤ 1) × (count_where (valid_row "64" 12) t.rows ≤ 1)
writes_unique_example = writes_unique writes 1 "64" 12 (omega arith)

create-past_kept_example :
    contenu_de (
      find_valid_at "64" 11
        (table_apres table_1 (create_new_version 12 120 "64" (attrs 4) "admin" table_1)))
    ≡ contenu_de (find_valid_at "64" 11 table_1)
create-past_kept_example =
    create-past_kept "64" "64" 10 12 120 11 (attrs 4) "admin" table_1 (omega arith)
      table_1-IsHistory

create-find_valid_at_example :
    (row : Row ℕ) × (t' : Table ℕ) × (create_new_version 12 120 "64" (attrs 4) "admin" table_1
      ≡ some (row, t'))
    × (row.attrs ≡ 4)
    × (find_valid_at "64" 14 t' ≡ some row)
create-find_valid_at_example =
    create-find_valid_at "64" 10 12 120 14 (attrs 4) "admin" table_1 (omega arith) table_1-IsHistory
      refl (omega arith)

create-find_current_example :
    (row : Row ℕ) × (t' : Table ℕ) × (create_new_version 12 120 "64" (attrs 4) "admin" table_1
      ≡ some (row, t'))
    × (row.attrs ≡ 4)
    × (find_current "64" t' ≡ some row)
create-find_current_example = create-find_current "64" 12 120 (attrs 4) "admin" table_1 refl

-- A second version of a key on one day is refused.
refuse_meme_jour : create_new_version 10 120 "64" (attrs 4) "admin" table_1 ≡ none
unfolding create_new_version
refuse_meme_jour = refl
