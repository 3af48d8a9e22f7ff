-- ===== src/Budget/Coherence.antt =====
-- The mode of a line and its figures agree, whatever calls enter, change and delete lines.
use budget_backend.Base.{
  ℕ, suc, ◌==◌, ◌&&◌, not, if_both, String, ◌≡◌, refl, Option, none, some, Bool, true, List, [],
  ◌∷◌, arith, ok, find_one, every, every-insert, every-update_where, every-delete_where, Result,
  Result-cases, Option-cases, inl, inr, int_eq_refl, ℤ, pos,
}
use budget_backend.Entities.{Db, Erreur}
use budget_backend.Entities.Centre.{DimCentre}
use budget_backend.Entities.Ligne.{
  LigneBudget, ModeSaisie, montant, encours_tie, ligne_has_id, is_encours_tie,
}
use budget_backend.Budget.Referentiels.{
  Referentiels, DimCompte, DimTemps, compte_has_id, temps_has_date,
}
use budget_backend.Budget.Montants.{
  mensualiser_montant, SaisieResolue, resolve_mode_saisie, saisie_encours, coherente, is_coherente,
  is_resolue,
}
use budget_backend.Budget.Rapport.{
  CelluleEntree, LigneEntree, GrilleEntree, CodeErreur, Rapport, Issue, compter,
}
use budget_backend.Budget.Cellule.{
  FkDefauts, cellule_is_of, montant_de, figure_de, mode_of, resoudre_fk_defauts, avec_cellule,
  is_vide,
}
use budget_backend.Budget.Grille.{
  ligne_inseree, inserer, supprimer, modifier, enregistrer, ecrire_cellule, ecrire_cellules,
  ecrire_ligne, ecrire_lignes,
}

abbrev pub are_coherentes : Db → Bool
are_coherentes db = every is_coherente db.lignes

montant_de-coherente :
    (mode : ModeSaisie) (entre : ℤ) (e t : Option ℕ) {m : ℤ}
    → montant_de mode entre e t ≡ some m
    → coherente mode (figure_de mode e) (figure_de mode t) m ≡ true
montant_de-coherente montant entre e t h = refl
montant_de-coherente encours_tie entre none t h = cc
montant_de-coherente encours_tie entre (some e) none h = cc
montant_de-coherente encours_tie entre (some e) (some t) {m = m} h =
    let same : pos (mensualiser_montant e t) ≡ m = ground arith in
    let itself = int_eq_refl m in ground arith

saisie_encours-is_resolue :
    (e t : ℕ) (c : Option DimCompte) {s : SaisieResolue}
    → saisie_encours e t c ≡ ok s
    → is_resolue s ≡ true
saisie_encours-is_resolue e t none h = cc
saisie_encours-is_resolue e t (some c) h =
    let itself = int_eq_refl (pos (mensualiser_montant e t)) in ground arith

pub resolve_mode_saisie-is_resolue :
    (comptes : List DimCompte) (mode : ModeSaisie) (e t : Option ℕ) (m : ℤ) (compte : ℕ)
    {s : SaisieResolue}
    → resolve_mode_saisie comptes mode e t m compte ≡ ok s
    → is_resolue s ≡ true
resolve_mode_saisie-is_resolue comptes montant none none m compte h = ground arith
resolve_mode_saisie-is_resolue comptes montant (some e) t m compte h = cc
resolve_mode_saisie-is_resolue comptes montant none (some t) m compte h = cc
resolve_mode_saisie-is_resolue comptes encours_tie none t m compte h = cc
resolve_mode_saisie-is_resolue comptes encours_tie (some e) none m compte h = cc
resolve_mode_saisie-is_resolue comptes encours_tie (some e) (some t) m compte {s = s} h =
    saisie_encours-is_resolue e t (find_one (compte_has_id compte) comptes) {s = s} h

module _ (ref : Referentiels) (dto : GrilleEntree) (cr : DimCentre) (now : ℕ) (email : String) where
  inserer-coherentes :
      (ligne : LigneEntree) (temps : ℕ) (cell : CelluleEntree) (m : ℤ)
      (d : Result CodeErreur FkDefauts) (db : Db)
      → montant_de (mode_of cell) cell.montant cell.encours_moyen cell.tie ≡ some m
      → are_coherentes db ≡ true
      → are_coherentes (inserer ref dto cr now email ligne temps cell m d db).1 ≡ true
  inserer-coherentes ligne temps cell m (Result.err code) db amount h = h
  inserer-coherentes ligne temps cell m (ok d) db amount h =
      let new = ligne_inseree ref dto cr now email db.prochain_id ligne temps cell m d in
      let fine =
        montant_de-coherente (mode_of cell) cell.montant cell.encours_moyen cell.tie {m = m}
          amount in
      let grown = every-insert is_coherente db.lignes new h fine in ground arith

  modifier-coherentes :
      (cell : CelluleEntree) (m : ℤ) (e : LigneBudget) (db : Db)
      → montant_de (mode_of cell) cell.montant cell.encours_moyen cell.tie ≡ some m
      → are_coherentes db ≡ true
      → are_coherentes (modifier ref dto cr now email cell m e db).1 ≡ true
  modifier-coherentes cell m e db amount h =
      let fine =
        montant_de-coherente (mode_of cell) cell.montant cell.encours_moyen cell.tie {m = m}
          amount in
      let kept =
        every-update_where is_coherente (ligne_has_id e.id) (avec_cellule now email cell m)
          db.lignes h (λ r was. fine) in
      ground arith

  enregistrer-coherentes :
      (ligne : LigneEntree) (temps : ℕ) (cell : CelluleEntree) (m : Option ℤ)
      (e : Option LigneBudget) (db : Db)
      → montant_de (mode_of cell) cell.montant cell.encours_moyen cell.tie ≡ m
      → are_coherentes db ≡ true
      → are_coherentes (enregistrer ref dto cr now email ligne temps cell m e db).1 ≡ true
  enregistrer-coherentes ligne temps cell none e db amount h = h
  enregistrer-coherentes ligne temps cell (some m) (some e) db amount h =
      modifier-coherentes cell m e db amount h
  enregistrer-coherentes ligne temps cell (some m) none db amount h =
      inserer-coherentes ligne temps cell m (resoudre_fk_defauts ref cr.fk_structure) db amount h

  supprimer-coherentes :
      (e : Option LigneBudget) (db : Db)
      → are_coherentes db ≡ true
      → are_coherentes (supprimer ref dto cr now email e db).1 ≡ true
  supprimer-coherentes none db h = h
  supprimer-coherentes (some e) db h =
      every-delete_where is_coherente (ligne_has_id e.id) db.lignes h

  ecrire_cellule-coherentes :
      (compte : DimCompte) (ligne : LigneEntree) (cell : CelluleEntree) (t : Option DimTemps)
      (db : Db)
      → are_coherentes db ≡ true
      → are_coherentes (ecrire_cellule ref dto cr now email compte ligne cell t db).1 ≡ true
  unfolding ecrire_cellule
  ecrire_cellule-coherentes compte ligne cell none db h = h
  ecrire_cellule-coherentes compte ligne cell (some t) db h =
      let found = find_one (cellule_is_of dto ligne t.id) db.lignes in
      let amount = montant_de (mode_of cell) cell.montant cell.encours_moyen cell.tie in
      let gone = supprimer-coherentes found db h in
      let saved = enregistrer-coherentes ligne t.id cell amount found db refl h in
      let P : Result Erreur Issue × Db → Type 0 = λ r. are_coherentes r.1 ≡ true in
      if_both P (not (t.jour == 1)) h (
        if_both P (is_encours_tie (mode_of cell) && not compte.est_porteur_interets) h
          (if_both P (is_vide cell) gone saved))

  ecrire_cellules-coherentes :
      (index : ℕ) (compte : DimCompte) (ligne : LigneEntree) (cells : List CelluleEntree)
      (r : Rapport) (db : Db)
      → are_coherentes db ≡ true
      → are_coherentes (ecrire_cellules ref dto cr now email index compte ligne cells r db).1 ≡ true
  unfolding ecrire_cellules
  ecrire_cellules-coherentes index compte ligne [] r db h = h
  ecrire_cellules-coherentes index compte ligne (cell ∷ cells) r db h =
      elim (Option-cases cell.mois) [
        | inl absent ↦ ground (arith, absent, h)
        | inr (jour, dated) ↦
            let tps = find_one (temps_has_date jour) ref.temps in
            let one = ecrire_cellule ref dto cr now email compte ligne cell tps db in
            let kept = ecrire_cellule-coherentes compte ligne cell tps db h in
            elim (Result-cases one.0) [
              | inr (x, failed) ↦ ground (arith, dated, failed, kept)
              | inl (issue, went) ↦
                  let rest =
                    ecrire_cellules-coherentes index compte ligne cells
                      (compter index cell.mois issue r) one.1 kept in
                  ground (arith, dated, went, rest)
            ]
      ]

  ecrire_ligne-coherentes :
      (index : ℕ) (ligne : LigneEntree) (r : Rapport) (found : Option DimCompte) (db : Db)
      → are_coherentes db ≡ true
      → are_coherentes (ecrire_ligne ref dto cr now email index ligne r found db).1 ≡ true
  unfolding ecrire_ligne
  ecrire_ligne-coherentes index ligne r none db h = h
  ecrire_ligne-coherentes index ligne r (some compte) db h =
      ecrire_cellules-coherentes index compte ligne ligne.cellules r db h

  pub ecrire_lignes-coherentes :
      (index : ℕ) (ls : List LigneEntree) (r : Rapport) (db : Db)
      → are_coherentes db ≡ true
      → are_coherentes (ecrire_lignes ref dto cr now email index ls r db).1 ≡ true
  unfolding ecrire_lignes
  ecrire_lignes-coherentes index [] r db h = h
  ecrire_lignes-coherentes index (l ∷ ls) r db h =
      let compte = find_one (compte_has_id l.compte_id) ref.comptes in
      let one = ecrire_ligne ref dto cr now email index l r compte db in
      let kept = ecrire_ligne-coherentes index l r compte db h in
      elim (Result-cases one.0) [
        | inr (x, failed) ↦ ground (arith, failed, kept)
        | inl (r', went) ↦
            let rest = ecrire_lignes-coherentes (suc index) ls r' one.1 kept in
            ground (arith, went, rest)
      ]
