-- ===== src/Budget/Acceptation.antt =====
-- When a grid is saved: which cells cannot make the whole grid fail.
use budget_backend.Base.{
  ℕ, suc, String, ◌≡◌, refl, Option, none, some, Bool, true, false, ◌==◌, ◌&&◌, not, List, [], ◌∷◌,
  arith, ok, is_ok, find_one, any, every, Result, Result-cases, Option-cases, Bool-cases, inl, inr,
  ℤ,
}
use budget_backend.Entities.{Db}
use budget_backend.Entities.Centre.{DimCentre}
use budget_backend.Entities.Ligne.{LigneBudget, same_grain}
use budget_backend.Budget.Referentiels.{
  Referentiels, DimCompte, DimTemps, compte_has_id, temps_has_date,
}
use budget_backend.Budget.Rapport.{
  CelluleEntree, LigneEntree, GrilleEntree, CodeErreur, Rapport, compter,
}
use budget_backend.Budget.Cellule.{
  FkDefauts, cellule_is_of, montant_de, mode_of, resoudre_fk_defauts, is_stockable, is_absent,
}
use budget_backend.Budget.Grille.{
  ligne_inseree, inserer, modifier, enregistrer, ecrire_cellule, ecrire_cellules, ecrire_ligne,
  ecrire_lignes,
}

abbrev pub is_metier_connu : Referentiels → LigneEntree → Bool
is_metier_connu ref l = any (λ id. id == l.ligne_metier_id) ref.lignes_metier

-- Amounts that fit their columns, if there is an amount
abbrev pub is_stockable_si : CelluleEntree → Option ℤ → Bool
is_stockable_si cell none = true
is_stockable_si cell (some m) = is_stockable cell m

-- A cell that names a day and amounts that fit their columns
abbrev pub is_entrable : CelluleEntree → Bool
is_entrable cell =
    not (is_absent cell.mois)
    && is_stockable_si cell (montant_de (mode_of cell) cell.montant cell.encours_moyen cell.tie)

abbrev pub is_ligne_entrable : Referentiels → LigneEntree → Bool
is_ligne_entrable ref l = is_metier_connu ref l && every is_entrable l.cellules

module _ (ref : Referentiels) (dto : GrilleEntree) (cr : DimCentre) (now : ℕ) (email : String) where
  -- A line that no row has under the six keys of its cell has no row under its ten keys.
  same_grain-absent :
      (ligne : LigneEntree) (temps id : ℕ) (cell : CelluleEntree) (m : ℤ) (d : FkDefauts)
      (ls : List LigneBudget)
      → find_one (cellule_is_of dto ligne temps) ls ≡ none
      → any (same_grain (ligne_inseree ref dto cr now email id ligne temps cell m d)) ls ≡ false
  same_grain-absent ligne temps id cell m d [] h = refl
  same_grain-absent ligne temps id cell m d (l ∷ ls) h =
      elim (Bool-cases (cellule_is_of dto ligne temps l)) [
        | inl hit ↦ ground arith
        | inr miss ↦
            let rest = same_grain-absent ligne temps id cell m d ls (rw miss at h) in ground arith
      ]

  inserer-is_ok :
      (ligne : LigneEntree) (temps : ℕ) (cell : CelluleEntree) (m : ℤ)
      (d : Result CodeErreur FkDefauts) (db : Db)
      → is_metier_connu ref ligne ≡ true
      → is_stockable cell m ≡ true
      → find_one (cellule_is_of dto ligne temps) db.lignes ≡ none
      → is_ok (inserer ref dto cr now email ligne temps cell m d db).0 ≡ true
  inserer-is_ok ligne temps cell m (Result.err code) db known fits absent = refl
  inserer-is_ok ligne temps cell m (ok d) db known fits absent =
      let free = same_grain-absent ligne temps db.prochain_id cell m d db.lignes absent in
      rw (fits, known, free) refl

  modifier-is_ok :
      (cell : CelluleEntree) (m : ℤ) (e : LigneBudget) (db : Db)
      → is_stockable cell m ≡ true
      → is_ok (modifier ref dto cr now email cell m e db).0 ≡ true
  modifier-is_ok cell m e db fits = ground (arith, fits)

  enregistrer-is_ok :
      (ligne : LigneEntree) (temps : ℕ) (cell : CelluleEntree) (m : Option ℤ) (db : Db)
      → is_metier_connu ref ligne ≡ true
      → is_stockable_si cell m ≡ true
      → is_ok
          (enregistrer ref dto cr now email ligne temps cell m
            (find_one (cellule_is_of dto ligne temps) db.lignes)
            db).0
        ≡ true
  enregistrer-is_ok ligne temps cell none db known fits = refl
  enregistrer-is_ok ligne temps cell (some m) db known fits =
      elim (Option-cases (find_one (cellule_is_of dto ligne temps) db.lignes)) [
        | inl absent ↦
            let free =
              inserer-is_ok ligne temps cell m (resoudre_fk_defauts ref cr.fk_structure) db known
                fits absent in
            rw absent free
        | inr (e, found) ↦ rw found (modifier-is_ok cell m e db fits)
      ]

  ecrire_cellule-is_ok :
      (compte : DimCompte) (ligne : LigneEntree) (cell : CelluleEntree) (t : Option DimTemps)
      (db : Db)
      → is_metier_connu ref ligne ≡ true
      → is_entrable cell ≡ true
      → is_ok (ecrire_cellule ref dto cr now email compte ligne cell t db).0 ≡ true
  unfolding ecrire_cellule
  ecrire_cellule-is_ok compte ligne cell none db known fits = refl
  ecrire_cellule-is_ok compte ligne cell (some t) db known fits =
      let amount = montant_de (mode_of cell) cell.montant cell.encours_moyen cell.tie in
      let saved = enregistrer-is_ok ligne t.id cell amount db known (ground arith) in
      elim (Option-cases (find_one (cellule_is_of dto ligne t.id) db.lignes)) [
        | inl absent ↦ ground (arith, saved)
        | inr (e, found) ↦ ground (arith, saved)
      ]

  ecrire_cellules-is_ok :
      (index : ℕ) (compte : DimCompte) (ligne : LigneEntree) (cells : List CelluleEntree)
      (r : Rapport) (db : Db)
      → is_metier_connu ref ligne ≡ true
      → every is_entrable cells ≡ true
      → is_ok (ecrire_cellules ref dto cr now email index compte ligne cells r db).0 ≡ true
  unfolding ecrire_cellules
  ecrire_cellules-is_ok index compte ligne [] r db known fits = refl
  ecrire_cellules-is_ok index compte ligne (cell ∷ cells) r db known fits =
      elim (Option-cases cell.mois) [
        | inl absent ↦ ground (arith, absent)
        | inr (jour, dated) ↦
            let tps = find_one (temps_has_date jour) ref.temps in
            let one = ecrire_cellule ref dto cr now email compte ligne cell tps db in
            let fine = ecrire_cellule-is_ok compte ligne cell tps db known (ground arith) in
            elim (Result-cases one.0) [
              | inr (x, failed) ↦ ground arith
              | inl (issue, went) ↦
                  let rest =
                    ecrire_cellules-is_ok index compte ligne cells (compter index cell.mois issue r)
                      one.1 known (ground arith) in
                  ground (arith, dated, went, rest)
            ]
      ]

  ecrire_ligne-is_ok :
      (index : ℕ) (ligne : LigneEntree) (r : Rapport) (found : Option DimCompte) (db : Db)
      → is_ligne_entrable ref ligne ≡ true
      → is_ok (ecrire_ligne ref dto cr now email index ligne r found db).0 ≡ true
  unfolding ecrire_ligne
  ecrire_ligne-is_ok index ligne r none db known = refl
  ecrire_ligne-is_ok index ligne r (some compte) db known =
      ecrire_cellules-is_ok index compte ligne ligne.cellules r db (ground arith) (ground arith)

  pub ecrire_lignes-is_ok :
      (index : ℕ) (ls : List LigneEntree) (r : Rapport) (db : Db)
      → every (is_ligne_entrable ref) ls ≡ true
      → is_ok (ecrire_lignes ref dto cr now email index ls r db).0 ≡ true
  unfolding ecrire_lignes
  ecrire_lignes-is_ok index [] r db known = refl
  ecrire_lignes-is_ok index (l ∷ ls) r db known =
      let compte = find_one (compte_has_id l.compte_id) ref.comptes in
      let one = ecrire_ligne ref dto cr now email index l r compte db in
      let fine = ecrire_ligne-is_ok index l r compte db (ground arith) in
      elim (Result-cases one.0) [
        | inr (x, failed) ↦ ground arith
        | inl (r', went) ↦
            let rest = ecrire_lignes-is_ok (suc index) ls r' one.1 (ground arith) in
            ground (arith, went, rest)
      ]
