-- ===== src/Scd2.antt =====
-- common/services/scd2.service.ts and common/entities/scd2.entity.ts: a table that keeps every past
-- version of a row (slowly changing dimension, type 2). The entity's own columns are the parameter
-- `A`. A date `YYYY-MM-DD` is the number of its day: the strings sort like the days. `today` is the
-- day of the call.
pub mod History
pub mod Validity
pub mod Writes
use budget_backend.Base.{
  ℕ, suc, String, Option, none, some, Bool, true, false, ◌&&◌, List, [], ◌∷◌, ◌++◌, find_one,
  find_all, update_where, str_eq, leb, ltb, ◌==◌, any, if◌then◌else◌,
}

pub record Row (A : Type 0) : Type 0 where
  pub id : ℕ
  pub business_key : String
  pub attrs : A
  pub date_debut : ℕ
  pub date_fin : Option ℕ
  pub version_courante : Bool
  pub est_actif : Bool
  pub utilisateur_creation : String
  pub date_modification : Option ℕ
  pub utilisateur_modification : Option String

pub record Table (A : Type 0) : Type 0 where
  pub rows : List (Row A)
  pub prochain_id : ℕ

-- `attrs: Partial<T>`: the entity's columns, and perhaps `estActif`
pub record NewAttrs (A : Type 0) : Type 0 where
  pub columns : A
  pub actif : Option Bool

-- `dateFin IS NULL OR dateFin > :date`
abbrev pub ends_after : ℕ → Option ℕ → Bool
ends_after date none = true
ends_after date (some fin) = ltb date fin

abbrev pub or_true : Option Bool → Bool
or_true none = true
or_true (some b) = b

module _ {A : Type 0} where
  abbrev pub has_key : String → Row A → Bool
  has_key k r = str_eq r.business_key k

  abbrev pub is_current_of : String → Row A → Bool
  is_current_of k r = has_key k r && r.version_courante

  -- `dateDebut <= :date AND (dateFin IS NULL OR dateFin > :date)`
  abbrev pub is_valid_at : ℕ → Row A → Bool
  is_valid_at date r = leb r.date_debut date && ends_after date r.date_fin

  -- `findCurrent`
  unfoldable pub find_current : String → Table A → Option (Row A)
  find_current k t = find_one (is_current_of k) t.rows

  -- `findAllCurrent`, with no further filter
  unfoldable pub find_all_current : Table A → List (Row A)
  find_all_current t = find_all (λ r. r.version_courante) t.rows

  -- `findValidAt`
  unfoldable pub find_valid_at : String → ℕ → Table A → Option (Row A)
  find_valid_at k date t = find_one (λ r. has_key k r && is_valid_at date r) t.rows

  -- `resolveVersionAtDate`
  unfoldable pub resolve_version_at_date : String → ℕ → Table A → Option (ℕ × Row A)
  unfolding find_valid_at
  resolve_version_at_date k date t = elim (find_valid_at k date t) [
    | none ↦ none
    | some version ↦ some (version.id, version)
  ]

  -- The columns that both writes set on the current row.
  abbrev pub close : ℕ → ℕ → String → Row A → Row A
  close today now user r = record r {
    date_fin = some today;
    version_courante = false;
    date_modification = some now;
    utilisateur_modification = some user;
  }

  -- `manager.create(target, { ... })`: defaults, then the caller's columns, then the locked ones
  abbrev pub new_row : ℕ → ℕ → String → NewAttrs A → String → Row A
  new_row id today k attrs user = record {
    id = id;
    business_key = k;
    attrs = attrs.columns;
    date_debut = today;
    date_fin = none;
    version_courante = true;
    est_actif = or_true attrs.actif;
    utilisateur_creation = user;
    date_modification = none;
    utilisateur_modification = none;
  }

  -- uq_dim_*_business_date: the index on the business key and `dateDebutValidite`
  abbrev pub begins_on : String → ℕ → Row A → Bool
  begins_on k date r = has_key k r && r.date_debut == date

  -- `createNewVersion`: closes the current row, if there is one, and inserts the new one. The unique
  -- index refuses a second row of the key on one day: the transaction throws and is rolled back.
  unfoldable pub create_new_version :
      ℕ → ℕ → String → NewAttrs A → String → Table A → Option (Row A × Table A)
  create_new_version today now k attrs user t =
      let row = new_row t.prochain_id today k attrs user in
      if any (begins_on k today) t.rows
      then none
      else some (
        row,
        record {
          rows = update_where (is_current_of k) (close today now user) t.rows ++ (row ∷ []);
          prochain_id = suc t.prochain_id;
        },
      )

  -- The table after a call of `createNewVersion` on it
  abbrev pub table_apres : Table A → Option (Row A × Table A) → Table A
  table_apres t none = t
  table_apres t (some (row, t')) = t'

  -- `softClose`
  unfoldable pub soft_close : ℕ → ℕ → String → String → Table A → Table A
  soft_close today now k user t = record t {
    rows =
        update_where (is_current_of k) (λ r. record (close today now user r) { est_actif = false })
          t.rows;
  }
