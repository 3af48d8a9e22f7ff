-- ===== src/Budget/Comptage.antt =====
-- The report of a saved grid counts every cell once.
use budget_backend.Base.{
  ℕ, suc, ◌+◌, String, ◌≡◌, refl, Option, none, some, List, [], ◌∷◌, ◌++◌, arith, length, find_one,
  ok, Result-cases, Option-cases, inl, inr,
}
use budget_backend.Entities.{Db, AuthUser}
use budget_backend.Entities.Centre.{DimCentre}
use budget_backend.Interfaces.{PermissionsService, PerimetreService}
use budget_backend.CrWorkflow.Helpers.{assert_cr_modifiable}
use budget_backend.Budget.Referentiels.{Referentiels, DimCompte, compte_has_id, temps_has_date}
use budget_backend.Budget.Rapport.{
  CelluleEntree, LigneEntree, GrilleEntree, Rapport, Issue, inseree, modifiee, supprimee, ignoree,
  refusee, compter, compte_inconnu, ErreurCellule, rapport_vide,
}
use budget_backend.Budget.Grille.{
  ecrire_cellule, ecrire_cellules, refuser_cellules, ecrire_ligne, ecrire_lignes,
  save_grille_saisie, centre_a_saisir,
}

abbrev pub somme : Rapport → ℕ
somme r = r.inserees + r.modifiees + r.supprimees + r.ignorees + length r.erreurs

abbrev pub nb_cellules : List LigneEntree → ℕ
nb_cellules [] = 0
nb_cellules (l ∷ ls) = length l.cellules + nb_cellules ls

-- A report that stands at `n` cells, each counted under one heading
abbrev pub IsCompte : ℕ → Rapport → Type 0
IsCompte n r = (r.total_cellules ≡ n) × (somme r ≡ n)

length-append_one :
    (es : List ErreurCellule) (e : ErreurCellule) → length (es ++ (e ∷ [])) ≡ suc (length es)
length-append_one [] e = refl
length-append_one (x ∷ es) e = ground (arith, length-append_one es e)

compter-IsCompte :
    (index : ℕ) (mois : Option ℕ) (n : ℕ) (issue : Issue) (r : Rapport)
    → IsCompte n r
    → IsCompte (suc n) (compter index mois issue r)
compter-IsCompte index mois n inseree r (t, s) = (ground arith, ground arith)
compter-IsCompte index mois n modifiee r (t, s) = (ground arith, ground arith)
compter-IsCompte index mois n supprimee r (t, s) = (ground arith, ground arith)
compter-IsCompte index mois n ignoree r (t, s) = (ground arith, ground arith)
compter-IsCompte index mois n (refusee code) r (t, s) =
    let new : ErreurCellule = record { ligne_index = index; mois = mois; code = code } in
    (ground arith, ground (arith, length-append_one r.erreurs new))

refuser_cellules-IsCompte :
    (index n : ℕ) (cells : List CelluleEntree) (r : Rapport)
    → IsCompte n r
    → IsCompte (n + length cells) (refuser_cellules index cells r)
unfolding refuser_cellules
refuser_cellules-IsCompte index n [] r h = (ground (arith, h), ground (arith, h))
refuser_cellules-IsCompte index n (cell ∷ cells) r h =
    let rest =
      refuser_cellules-IsCompte index (suc n) cells
        (compter index cell.mois (refusee compte_inconnu) r)
        (compter-IsCompte index cell.mois n (refusee compte_inconnu) r h) in
    (ground (arith, rest), ground (arith, rest))

module _ (ref : Referentiels) (dto : GrilleEntree) (cr : DimCentre) (now : ℕ) (email : String) where
  ecrire_cellules-IsCompte :
      (index n : ℕ) (compte : DimCompte) (ligne : LigneEntree) (cells : List CelluleEntree)
      (r : Rapport) (db : Db) {r' : Rapport}
      → IsCompte n r
      → (ecrire_cellules ref dto cr now email index compte ligne cells r db).0 ≡ ok r'
      → IsCompte (n + length cells) r'
  unfolding ecrire_cellules
  ecrire_cellules-IsCompte index n compte ligne [] r db (t, s) h = (ground arith, ground arith)
  ecrire_cellules-IsCompte index n compte ligne (cell ∷ cells) r db {r' = r'} h done =
      elim (Option-cases cell.mois) [
        | inl absent ↦ ground (arith, absent, done)
        | inr (jour, dated) ↦
            let tps = find_one (temps_has_date jour) ref.temps in
            let one = ecrire_cellule ref dto cr now email compte ligne cell tps db in
            elim (Result-cases one.0) [
              | inr (x, failed) ↦ ground (arith, dated, failed, done)
              | inl (issue, went) ↦
                  let rest =
                    ecrire_cellules-IsCompte index (suc n) compte ligne cells
                      (compter index cell.mois issue r) one.1 {r' = r'}
                      (compter-IsCompte index cell.mois n issue r h)
                      (ground (arith, dated, went, done)) in
                  (ground (arith, rest), ground (arith, rest))
            ]
      ]

  ecrire_ligne-IsCompte :
      (index n : ℕ) (ligne : LigneEntree) (r : Rapport) (found : Option DimCompte) (db : Db)
      {r' : Rapport}
      → IsCompte n r
      → (ecrire_ligne ref dto cr now email index ligne r found db).0 ≡ ok r'
      → IsCompte (n + length ligne.cellules) r'
  unfolding ecrire_ligne
  ecrire_ligne-IsCompte index n ligne r none db {r' = r'} h done =
      let all = refuser_cellules-IsCompte index n ligne.cellules r h in
      (ground (arith, all, done), ground (arith, all, done))
  ecrire_ligne-IsCompte index n ligne r (some compte) db {r' = r'} h done =
      ecrire_cellules-IsCompte index n compte ligne ligne.cellules r db {r' = r'} h done

  ecrire_lignes-IsCompte :
      (index n : ℕ) (ls : List LigneEntree) (r : Rapport) (db : Db) {r' : Rapport}
      → IsCompte n r
      → (ecrire_lignes ref dto cr now email index ls r db).0 ≡ ok r'
      → IsCompte (n + nb_cellules ls) r'
  unfolding ecrire_lignes
  ecrire_lignes-IsCompte index n [] r db (t, s) h = (ground arith, ground arith)
  ecrire_lignes-IsCompte index n (l ∷ ls) r db {r' = r'} h done =
      let compte = find_one (compte_has_id l.compte_id) ref.comptes in
      let next = (ecrire_ligne ref dto cr now email index l r compte db).1 in
      elim (Result-cases (ecrire_ligne ref dto cr now email index l r compte db).0) [
        | inr (x, failed) ↦ cc
        | inl (one, went) ↦
            let first = ecrire_ligne-IsCompte index n l r compte db {r' = one} h went in
            let rest =
              ecrire_lignes-IsCompte (suc index) (n + length l.cellules) ls one next {r' = r'} first
                (ground (arith, went, done)) in
            (ground (arith, rest), ground (arith, rest))
      ]

-- A grid that is saved counts each of its cells once, as inserted, changed, deleted, left alone or
-- refused: the total is the number of cells of the grid and the sum of the five counts.
pub save_grille_saisie-IsCompte :
    (permissions : PermissionsService) (perimetre : PerimetreService) (ref : Referentiels) (now : ℕ)
    (dto : GrilleEntree) (user : AuthUser) (db : Db) {r : Rapport}
    → (save_grille_saisie permissions perimetre ref now dto user db).0 ≡ ok r
    → IsCompte (nb_cellules dto.lignes) r
unfolding save_grille_saisie
save_grille_saisie-IsCompte permissions perimetre ref now dto user db {r = r} done =
    let checks = centre_a_saisir perimetre dto user db in
    elim (Result-cases checks.0) [
      | inr (x, failed) ↦ cc
      | inl (cr, checked) ↦
          let lock = assert_cr_modifiable dto.version_id dto.cr_id checks.1 in
          elim (Result-cases lock.0) [
            | inr (x, locked) ↦ ground arith
            | inl (u, free) ↦
                let write =
                  ecrire_lignes ref dto cr now user.email 0 dto.lignes rapport_vide lock.1 in
                elim (Result-cases write.0) [
                  | inr (x, failed) ↦ ground arith
                  | inl (r', written) ↦
                      let all =
                        ecrire_lignes-IsCompte ref dto cr now user.email 0 0 dto.lignes rapport_vide
                          lock.1 {r' = r'} (refl, refl) written in
                      (ground arith, ground arith)
                ]
          ]
    ]
