-- ===== src/Budget/Reprise.antt =====
-- A cell of the grid that was saved, saved again.
use budget_backend.Base.{
  ℕ, String, ◌≡◌, refl, Option, none, some, Bool, true, false, not, ◌&&◌, ◌==◌, [], ◌∷◌, arith, ok,
  err, find_one, find_one-update_where, find_one-append, any, Result, Option-cases, Bool-cases, inl,
  inr, int_eq_refl, ℤ, ==_refl, eq_iff,
}
use budget_backend.Entities.{Db}
use budget_backend.Entities.Centre.{DimCentre}
use budget_backend.Entities.Ligne.{
  LigneBudget, ModeSaisie, montant, encours_tie, ligne_has_id, same_mode, is_encours_tie,
  same_grain,
}
use budget_backend.Budget.Referentiels.{Referentiels, DimCompte, DimTemps}
use budget_backend.Budget.Rapport.{
  CelluleEntree, LigneEntree, GrilleEntree, Issue, inseree, modifiee, ignoree, CodeErreur,
}
use budget_backend.Budget.Cellule.{
  FkDefauts, cellule_is_of, montant_de, figure_de, mode_of, resoudre_fk_defauts, avec_cellule,
  is_vide, is_inchange, same_figure, same_texte,
}
use budget_backend.Budget.Grille.{
  ligne_inseree, inserer, supprimer, modifier, enregistrer, ecrire_cellule,
}

abbrev pub is_ecriture : Issue → Bool
is_ecriture inseree = true
is_ecriture modifiee = true
is_ecriture _ = false

same_mode_refl : (m : ModeSaisie) → same_mode m m ≡ true
same_mode_refl montant = refl
same_mode_refl encours_tie = refl

same_figure_refl : (o : Option ℕ) → same_figure o o ≡ true
same_figure_refl none = refl
same_figure_refl (some n) = ==_refl n

same_texte_refl : (o : Option String) → same_texte o o ≡ true
same_texte_refl none = refl
same_texte_refl (some s) = (eq_iff s s).1 refl

-- A line that shows what the cell asks for
is_inchange-shown :
    (cell : CelluleEntree) (m : ℤ) (l : LigneBudget)
    → l.montant_devise ≡ m
    → l.mode_saisie ≡ mode_of cell
    → l.encours_moyen ≡ figure_de (mode_of cell) cell.encours_moyen
    → l.tie ≡ figure_de (mode_of cell) cell.tie
    → l.commentaire ≡ cell.commentaire
    → is_inchange cell m l ≡ true
is_inchange-shown cell m l a b c d e =
    let a' = int_eq_refl m in
    let b' = same_mode_refl (mode_of cell) in
    let c' = same_figure_refl (figure_de (mode_of cell) cell.encours_moyen) in
    let d' = same_figure_refl (figure_de (mode_of cell) cell.tie) in
    let e' = same_texte_refl cell.commentaire in rw (a, b, c, d, e, a', b', c', d', e') refl

module _ (ref : Referentiels) (dto : GrilleEntree) (cr : DimCentre) (now : ℕ) (email : String)
    (ligne : LigneEntree) (temps : ℕ) (cell : CelluleEntree) where
  -- The line of the cell shows the amount `m`.
  abbrev IsMontree : ℤ → Db → Type 0
  IsMontree m db =
      (l : LigneBudget) × (find_one (cellule_is_of dto ligne temps) db.lignes ≡ some l)
      × (is_inchange cell m l ≡ true)

  inserer-IsMontree :
      (m : ℤ) (d : Result CodeErreur FkDefauts) (db : Db) {issue : Issue}
      → find_one (cellule_is_of dto ligne temps) db.lignes ≡ none
      → is_ecriture issue ≡ true
      → (inserer ref dto cr now email ligne temps cell m d db).0 ≡ ok issue
      → IsMontree m (inserer ref dto cr now email ligne temps cell m d db).1
  inserer-IsMontree m (err code) db absent wrote h = ground arith
  inserer-IsMontree m (ok d) db absent wrote h =
      let new = ligne_inseree ref dto cr now email db.prochain_id ligne temps cell m d in
      let shown = is_inchange-shown cell m new refl refl refl refl refl in
      let here = find_one-append (cellule_is_of dto ligne temps) db.lignes (new ∷ []) in
      elim (Bool-cases (any (λ id. id == ligne.ligne_metier_id) ref.lignes_metier)) [
        | inr unknown ↦ ground (arith, unknown, h)
        | inl known ↦ elim (Bool-cases (any (same_grain new) db.lignes)) [
          | inl pris ↦ ground (arith, known, pris, h)
          | inr libre ↦ (new, ground (arith, known, libre, absent, here), shown)
        ]
      ]

  modifier-IsMontree :
      (m : ℤ) (e : LigneBudget) (db : Db) {issue : Issue}
      → find_one (cellule_is_of dto ligne temps) db.lignes ≡ some e
      → is_ecriture issue ≡ true
      → (modifier ref dto cr now email cell m e db).0 ≡ ok issue
      → IsMontree m (modifier ref dto cr now email cell m e db).1
  modifier-IsMontree m e db found wrote h =
      let new = avec_cellule now email cell m e in
      let shown = is_inchange-shown cell m new refl refl refl refl refl in
      let here =
        find_one-update_where (cellule_is_of dto ligne temps) (ligne_has_id e.id)
          (avec_cellule now email cell m) db.lignes (λ r hit. refl) in
      elim (Bool-cases (is_inchange cell m e)) [
        | inl same ↦ ground (arith, same, h, wrote)
        | inr other ↦ (new, ground (arith, other, found, here), shown)
      ]

  enregistrer-IsMontree :
      (m : Option ℤ) (db : Db) {issue : Issue}
      → is_ecriture issue ≡ true
      → (enregistrer ref dto cr now email ligne temps cell m
          (find_one (cellule_is_of dto ligne temps) db.lignes)
          db).0
        ≡ ok issue
      → (n : ℤ) × (m ≡ some n)
        × IsMontree n
            (enregistrer ref dto cr now email ligne temps cell m
              (find_one (cellule_is_of dto ligne temps) db.lignes)
              db).1
  enregistrer-IsMontree none db wrote h = ground arith
  enregistrer-IsMontree (some n) db {issue = issue} wrote h =
      elim (Option-cases (find_one (cellule_is_of dto ligne temps) db.lignes)) [
        | inl absent ↦
            let d = resoudre_fk_defauts ref cr.fk_structure in
            let h' : (inserer ref dto cr now email ligne temps cell n d db).0 ≡ ok issue =
              rw absent at h in
            (n, refl, rw absent (inserer-IsMontree n d db {issue = issue} absent wrote h'))
        | inr (e, found) ↦
            let h' : (modifier ref dto cr now email cell n e db).0 ≡ ok issue = rw found at h in
            (n, refl, rw found (modifier-IsMontree n e db {issue = issue} found wrote h'))
      ]

module _ (ref : Referentiels) (dto : GrilleEntree) (cr : DimCentre) (compte : DimCompte)
    (ligne : LigneEntree) (cell : CelluleEntree) (t : DimTemps) where
  -- A cell of a month that passes the tests of the account and is not empty is entered.
  ecrire_cellule-enregistrer :
      (now : ℕ) (email : String) (db : Db)
      → (t.jour == 1) ≡ true
      → (is_encours_tie (mode_of cell) && not compte.est_porteur_interets) ≡ false
      → is_vide cell ≡ false
      → ecrire_cellule ref dto cr now email compte ligne cell (some t) db
        ≡ enregistrer ref dto cr now email ligne t.id cell
            (montant_de (mode_of cell) cell.montant cell.encours_moyen cell.tie)
            (find_one (cellule_is_of dto ligne t.id) db.lignes)
            db
  unfolding ecrire_cellule
  ecrire_cellule-enregistrer now email db a b c = rw (a, b, c) refl

  supprimer-no_ecriture :
      (now : ℕ) (email : String) (e : Option LigneBudget) (db : Db) {issue : Issue}
      → (supprimer ref dto cr now email e db).0 ≡ ok issue
      → is_ecriture issue ≡ false
  supprimer-no_ecriture now email none db h = ground arith
  supprimer-no_ecriture now email (some e) db h = ground arith

  -- What a cell that was written has passed
  ecrire_cellule-passed :
      (now : ℕ) (email : String) (db : Db) {issue : Issue}
      → is_ecriture issue ≡ true
      → (ecrire_cellule ref dto cr now email compte ligne cell (some t) db).0 ≡ ok issue
      → ((t.jour == 1) ≡ true)
        × ((is_encours_tie (mode_of cell) && not compte.est_porteur_interets) ≡ false)
        × (is_vide cell ≡ false)
  unfolding ecrire_cellule
  ecrire_cellule-passed now email db {issue = issue} wrote h = elim (Bool-cases (t.jour == 1)) [
    | inr other ↦ let h' = rw other at h in ground (arith, wrote, h')
    | inl first ↦
        let h1 = rw first at h in
        elim (Bool-cases (is_encours_tie (mode_of cell) && not compte.est_porteur_interets)) [
          | inl bad ↦ let h' = rw bad at h1 in ground (arith, wrote, h')
          | inr fine ↦
              let h2 = rw fine at h1 in
              elim (Bool-cases (is_vide cell)) [
                | inl empty ↦
                    let found = find_one (cellule_is_of dto ligne t.id) db.lignes in
                    let h3 : (supprimer ref dto cr now email found db).0 ≡ ok issue =
                      rw empty at h2 in
                    let none_written =
                      supprimer-no_ecriture now email found db {issue = issue} h3 in
                    cc
                | inr full ↦ (first, fine, full)
              ]
        ]
  ]

  -- A cell that inserted or changed its line, saved again by whomever and whenever, is left alone, and
  -- the database with it.
  pub ecrire_cellule-ignoree :
      (now now' : ℕ) (email email' : String) (db : Db) {issue : Issue}
      → is_ecriture issue ≡ true
      → (ecrire_cellule ref dto cr now email compte ligne cell (some t) db).0 ≡ ok issue
      → ecrire_cellule ref dto cr now' email' compte ligne cell
          (some t)
          (ecrire_cellule ref dto cr now email compte ligne cell (some t) db).1
        ≡ (ok ignoree, (ecrire_cellule ref dto cr now email compte ligne cell (some t) db).1)
  ecrire_cellule-ignoree now now' email email' db {issue = issue} wrote h =
      let (a, b, c) = ecrire_cellule-passed now email db {issue = issue} wrote h in
      let amount = montant_de (mode_of cell) cell.montant cell.encours_moyen cell.tie in
      let runs = ecrire_cellule-enregistrer now email db a b c in
      let again =
        ecrire_cellule-enregistrer now' email'
          (ecrire_cellule ref dto cr now email compte ligne cell (some t) db).1 a b c in
      let (n, is_n, (l, found, shown)) =
        enregistrer-IsMontree ref dto cr now email ligne t.id cell amount db {issue = issue} wrote
          (rw runs at h) in
      rw (again, runs, found, is_n, shown) refl
