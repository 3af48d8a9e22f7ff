-- ===== src/Budget/Saisies.antt =====
-- The calls that write budget lines, one after another, and what they keep.
use budget_backend.Base.{
  ℕ, ◌≡◌, Bool, true, List, [], ◌∷◌, arith, find_one, Result-cases, Option-cases, Bool-cases, inl,
  inr,
}
use budget_backend.Entities.{Db, AuthUser}
use budget_backend.Entities.Ligne.{ligne_has_id}
use budget_backend.Interfaces.{PermissionsService, PerimetreService}
use budget_backend.CrWorkflow.Helpers.{assert_cr_modifiable, is_autorise, find_statut}
use budget_backend.Budget.Verrou.{centre_a_saisir-reads}
use budget_backend.Budget.Referentiels.{Referentiels}
use budget_backend.Budget.Lignes.{
  CreateFaitBudgetDto, UpdateFaitBudgetDto, post_ligne, patch_ligne, delete_ligne,
}
use budget_backend.Budget.Rapport.{GrilleEntree, rapport_vide}
use budget_backend.Budget.Grille.{save_grille_saisie, centre_a_saisir, ecrire_lignes}
use budget_backend.Budget.Coherence.{are_coherentes, ecrire_lignes-coherentes}
use budget_backend.Budget.UneLigne.{
  creer_ligne-coherentes, modifier_ligne-coherentes, supprimer_ligne-coherentes,
}

pub data Saisie : Type 0 where
  saisie_post : CreateFaitBudgetDto → Saisie
  saisie_patch : ℕ → UpdateFaitBudgetDto → Saisie
  saisie_delete : ℕ → Saisie
  saisie_grille : GrilleEntree → Saisie

-- What the other services and tables answer while a request runs
pub record Contexte : Type 0 where
  pub permissions : PermissionsService
  pub perimetre : PerimetreService
  pub ref : Referentiels
  pub fks_connues : CreateFaitBudgetDto → Bool
  pub now : ℕ
  pub user : AuthUser

abbrev pub saisir : Contexte → Saisie → Db → Db
saisir c (saisie_post dto) db =
    (post_ligne c.perimetre c.ref.comptes c.fks_connues c.now dto c.user db).1
saisir c (saisie_patch id dto) db =
    (patch_ligne c.perimetre c.ref.comptes c.fks_connues c.now id dto c.user db).1
saisir c (saisie_delete id) db =
    (delete_ligne c.perimetre c.ref.comptes c.fks_connues c.now id c.user db).1
saisir c (saisie_grille dto) db =
    (save_grille_saisie c.permissions c.perimetre c.ref c.now dto c.user db).1

abbrev pub run_saisies : List (Contexte × Saisie) → Db → Db
run_saisies [] db = db
run_saisies ((c, s) ∷ rest) db = run_saisies rest (saisir c s db)

assert_cr_modifiable-lignes :
    (version cr : ℕ) (db : Db) → (assert_cr_modifiable version cr db).1.lignes ≡ db.lignes
unfolding assert_cr_modifiable
assert_cr_modifiable-lignes version cr db = elim (Option-cases (find_statut version cr db)) [
  | inl absent ↦ ground arith
  | inr (s, found) ↦ ground arith
]

module _ (c : Contexte) (db : Db) (h : are_coherentes db ≡ true) where
  post_ligne-coherentes :
      (dto : CreateFaitBudgetDto) → are_coherentes (saisir c (saisie_post dto) db) ≡ true
  unfolding post_ligne
  post_ligne-coherentes dto =
      let kept = creer_ligne-coherentes c.ref.comptes c.fks_connues c.now dto c.user.email db h in
      elim (Bool-cases
        (is_autorise (c.perimetre.cr_autorises_pour_user c.user.user_id) dto.fk_centre)) [
          | inl permitted ↦ ground (arith, permitted, kept)
          | inr refused ↦ ground (arith, refused, h)
        ]

  patch_ligne-coherentes :
      (id : ℕ) (dto : UpdateFaitBudgetDto)
      → are_coherentes (saisir c (saisie_patch id dto) db) ≡ true
  unfolding patch_ligne
  patch_ligne-coherentes id dto =
      let kept =
        modifier_ligne-coherentes c.ref.comptes c.fks_connues c.now id dto c.user.email db h in
      elim (Option-cases (find_one (ligne_has_id id) db.lignes)) [
        | inl missing ↦ ground (arith, missing, h)
        | inr (l, found) ↦
            elim (Bool-cases
              (is_autorise (c.perimetre.cr_autorises_pour_user c.user.user_id) l.fk_centre)) [
                | inl permitted ↦ ground (arith, found, permitted, kept)
                | inr refused ↦ ground (arith, found, refused, h)
              ]
      ]

  delete_ligne-coherentes : (id : ℕ) → are_coherentes (saisir c (saisie_delete id) db) ≡ true
  unfolding delete_ligne
  delete_ligne-coherentes id =
      let kept = supprimer_ligne-coherentes id db h in
      elim (Option-cases (find_one (ligne_has_id id) db.lignes)) [
        | inl missing ↦ ground (arith, missing, h)
        | inr (l, found) ↦
            elim (Bool-cases
              (is_autorise (c.perimetre.cr_autorises_pour_user c.user.user_id) l.fk_centre)) [
                | inl permitted ↦ ground (arith, found, permitted, kept)
                | inr refused ↦ ground (arith, found, refused, h)
              ]
      ]

  save_grille_saisie-coherentes :
      (dto : GrilleEntree) → are_coherentes (saisir c (saisie_grille dto) db) ≡ true
  unfolding save_grille_saisie
  save_grille_saisie-coherentes dto =
      let reads = centre_a_saisir-reads c.permissions c.perimetre c.ref c.now dto c.user db in
      let checks = centre_a_saisir c.perimetre dto c.user db in
      elim (Result-cases checks.0) [
        | inr (x, failed) ↦ ground (arith, reads, h, failed)
        | inl (cr, checked) ↦
            let lock = assert_cr_modifiable dto.version_id dto.cr_id checks.1 in
            let same = assert_cr_modifiable-lignes dto.version_id dto.cr_id checks.1 in
            elim (Result-cases lock.0) [
              | inr (x, locked) ↦ ground (arith, reads, h, checked, locked)
              | inl (u, free) ↦
                  let before : are_coherentes lock.1 ≡ true = ground (arith, same, reads, h) in
                  let kept =
                    ecrire_lignes-coherentes c.ref dto cr c.now c.user.email 0 dto.lignes
                      rapport_vide lock.1 before in
                  elim (Result-cases
                    (ecrire_lignes c.ref dto cr c.now c.user.email 0 dto.lignes rapport_vide
                      lock.1).0) [
                        | inr (x, failed) ↦ ground (arith, reads, h, checked, free, failed)
                        | inl (r, done) ↦ ground (arith, checked, free, done, kept)
                      ]
            ]
      ]

  saisir-coherentes : (s : Saisie) → are_coherentes (saisir c s db) ≡ true
  saisir-coherentes (saisie_post dto) = post_ligne-coherentes dto
  saisir-coherentes (saisie_patch id dto) = patch_ligne-coherentes id dto
  saisir-coherentes (saisie_delete id) = delete_ligne-coherentes id
  saisir-coherentes (saisie_grille dto) = save_grille_saisie-coherentes dto

-- Whatever lines are created, changed, deleted and entered in grids, one call after another, every
-- line in mode MONTANT has no figures and every line in mode ENCOURS_TIE has both, with the amount
-- that they give, if this holds at the start.
pub run_saisies-are_coherentes :
    (rs : List (Contexte × Saisie)) (db : Db)
    → are_coherentes db ≡ true
    → are_coherentes (run_saisies rs db) ≡ true
run_saisies-are_coherentes [] db h = h
run_saisies-are_coherentes ((c, s) ∷ rest) db h =
    run_saisies-are_coherentes rest (saisir c s db) (saisir-coherentes c db h s)
