-- ===== src/Budget/Referentiels.antt =====
-- The reference tables that the input of budget lines reads and never writes, as far as it reads
-- them. `rang_code` is the place of a code in the sort order of the database.
use budget_backend.Base.{
  ℕ, String, Option, none, some, Bool, List, [], ◌∷◌, ◌==◌, ◌&&◌, ◌||◌, str_eq, ltb, find_all,
  if◌then◌else◌,
}

pub record DimCompte : Type 0 where
  pub id : ℕ
  pub est_porteur_interets : Bool

-- `date` is a day number.
pub record DimTemps : Type 0 where
  pub id : ℕ
  pub date : ℕ
  pub jour : ℕ
  pub mois : ℕ
  pub annee : ℕ

pub record DimDevise : Type 0 where
  pub id : ℕ
  pub code_iso : String

pub record DimProduit : Type 0 where
  pub id : ℕ
  pub code_produit : String
  pub rang_code : ℕ
  pub niveau : ℕ
  pub version_courante : Bool
  pub est_actif : Bool

pub record DimSegment : Type 0 where
  pub id : ℕ
  pub rang_code : ℕ
  pub version_courante : Bool
  pub est_actif : Bool

pub record Referentiels : Type 0 where
  pub comptes : List DimCompte
  pub temps : List DimTemps
  pub devises : List DimDevise
  pub produits : List DimProduit
  pub segments : List DimSegment
  -- the identifiers of dim_ligne_metier
  pub lignes_metier : List ℕ

abbrev pub compte_has_id : ℕ → DimCompte → Bool
compte_has_id id c = c.id == id

abbrev pub temps_has_date : ℕ → DimTemps → Bool
temps_has_date date t = t.date == date

-- `ORDER BY ... LIMIT 1`: the first of the rows that no later row comes before
module _ {R : Type 0} (before : R → R → Bool) where
  abbrev premier_de : R → List R → R
  premier_de r [] = r
  premier_de r (x ∷ xs) = let best = premier_de x xs in if before best r then best else r

  abbrev pub premier : List R → Option R
  premier [] = none
  premier (r ∷ rs) = some (premier_de r rs)

abbrev pub produit_before : DimProduit → DimProduit → Bool
produit_before a b = ltb a.niveau b.niveau || a.niveau == b.niveau && ltb a.rang_code b.rang_code

abbrev pub segment_before : DimSegment → DimSegment → Bool
segment_before a b = ltb a.rang_code b.rang_code

abbrev pub is_transverse : DimProduit → Bool
is_transverse p = str_eq p.code_produit "PRODUIT_TRANSVERSE" && p.version_courante

abbrev pub produits_courants : List DimProduit → List DimProduit
produits_courants = find_all (λ p. p.version_courante && p.est_actif)

abbrev pub segments_courants : List DimSegment → List DimSegment
segments_courants = find_all (λ s. s.version_courante && s.est_actif)
