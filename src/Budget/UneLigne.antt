-- ===== src/Budget/UneLigne.antt =====
-- fait-budget.service.ts: each call on a single line keeps the coherence of modes and figures.
use budget_backend.Base.{
  ℕ, String, ◌≡◌, refl, Option, none, some, Bool, true, false, List, arith, ok, err, find_one, any,
  every-insert, every-update_where, every-delete_where, every-find_one, Result, Result-cases,
  Option-cases, Bool-cases, inl, inr, ◌&&◌, ℤ,
}
use budget_backend.Entities.{Db}
use budget_backend.Entities.Version.{version_has_id}
use budget_backend.Entities.Ligne.{
  LigneBudget, ModeSaisie, montant, encours_tie, ligne_has_id, same_grain, is_encours_tie,
}
use budget_backend.Budget.Referentiels.{DimCompte}
use budget_backend.Budget.Montants.{resolve_mode_saisie, is_coherente, SaisieResolue, coherente}
use budget_backend.Budget.Lignes.{
  ajouter_ligne, CreateFaitBudgetDto, UpdateFaitBudgetDto, creer_ligne, modifier_ligne,
  supprimer_ligne, nouvelle_ligne, mesures, or_keep, colonnes, is_mode_touche, avec_resolue,
  heritee, is_present,
}
use budget_backend.Budget.Coherence.{are_coherentes, resolve_mode_saisie-is_resolue}

avec_resolue-coherente :
    (l : LigneBudget) (r : Result _ SaisieResolue) {l' : LigneBudget}
    → ((s : SaisieResolue)
        → r ≡ ok s
        → coherente s.mode_saisie s.encours_moyen s.tie s.montant_devise ≡ true)
    → avec_resolue l r ≡ ok l'
    → is_coherente l' ≡ true
avec_resolue-coherente l (ok s) fine h = let one = fine s refl in ground (arith, one)
avec_resolue-coherente l (err e) fine h = cc

-- Outside ENCOURS_TIE the amount does not bear on the coherence.
autre_montant-coherente :
    (mode : ModeSaisie) (e t : Option ℕ) (m m' : ℤ)
    → is_encours_tie mode ≡ false
    → coherente mode e t m ≡ true
    → coherente mode e t m' ≡ true
autre_montant-coherente montant none none m m' autre h = refl
autre_montant-coherente montant none (some t) m m' autre h = h
autre_montant-coherente montant (some e) t m m' autre h = h
autre_montant-coherente encours_tie e t m m' autre h = cc

garde_montant-coherente :
    (mode : ModeSaisie) (e t : Option ℕ) (entre : Option ℤ) (m : ℤ)
    → (is_present entre && is_encours_tie mode) ≡ false
    → coherente mode e t m ≡ true
    → coherente mode e t (or_keep entre m) ≡ true
garde_montant-coherente mode e t none m autre h = h
garde_montant-coherente mode e t (some n) m autre h = autre_montant-coherente mode e t m n autre h

mesures-coherente :
    (comptes : List DimCompte) (dto : UpdateFaitBudgetDto) (l : LigneBudget) {l' : LigneBudget}
    → is_coherente l ≡ true
    → mesures comptes dto l ≡ ok l'
    → is_coherente l' ≡ true
unfolding mesures
mesures-coherente comptes dto l {l' = l'} was h =
    let mode = or_keep dto.mode_saisie l.mode_saisie in
    let e = or_keep dto.encours_moyen (heritee mode l.encours_moyen) in
    let t = or_keep dto.tie (heritee mode l.tie) in
    let m = or_keep dto.montant_devise l.montant_devise in
    elim (Bool-cases (is_mode_touche dto)) [
      | inl touched ↦
          avec_resolue-coherente l (resolve_mode_saisie comptes mode e t m l.fk_compte) {l' = l'}
            (λ s r. resolve_mode_saisie-is_resolue comptes mode e t m l.fk_compte {s = s} r)
            (rw touched at h)
      | inr same ↦
          elim (Bool-cases (is_present dto.montant_devise && is_encours_tie l.mode_saisie)) [
            | inl refused ↦ ground (arith, h, same, refused)
            | inr free ↦
                let fine =
                  garde_montant-coherente l.mode_saisie l.encours_moyen l.tie dto.montant_devise
                    l.montant_devise free was in
                ground (arith, h, same, free, fine)
          ]
    ]

ajouter_ligne-coherentes :
    (connues : Bool) (l : LigneBudget) (db : Db)
    → is_coherente l ≡ true
    → are_coherentes db ≡ true
    → are_coherentes (ajouter_ligne connues l db).1 ≡ true
unfolding ajouter_ligne
ajouter_ligne-coherentes connues l db fine h =
    let grown = every-insert is_coherente db.lignes l h fine in
    elim (Bool-cases (any (same_grain l) db.lignes)) [
      | inl pris ↦ ground (arith, h)
      | inr libre ↦ elim (Bool-cases connues) [
        | inl known ↦ ground (arith, grown)
        | inr unknown ↦ ground (arith, h)
      ]
    ]

pub creer_ligne-coherentes :
    (comptes : List DimCompte) (fks : CreateFaitBudgetDto → Bool) (now : ℕ)
    (dto : CreateFaitBudgetDto) (email : String) (db : Db)
    → are_coherentes db ≡ true
    → are_coherentes (creer_ligne comptes fks now dto email db).1 ≡ true
unfolding creer_ligne
creer_ligne-coherentes comptes fks now dto email db h =
    let mode = or_keep dto.mode_saisie montant in
    let resolved =
      resolve_mode_saisie comptes mode dto.encours_moyen dto.tie dto.montant_devise dto.fk_compte in
    elim (Option-cases (find_one (version_has_id dto.fk_version) db.versions)) [
      | inl missing ↦ ground (arith, h)
      | inr (v, v_found) ↦ elim (Result-cases resolved) [
        | inr (x, failed) ↦ ground (arith, h, failed)
        | inl (s, went) ↦
            let new = nouvelle_ligne db.prochain_id now email dto s in
            let fine =
              resolve_mode_saisie-is_resolue comptes mode dto.encours_moyen dto.tie
                dto.montant_devise dto.fk_compte {s = s} went in
            let added = ajouter_ligne-coherentes (fks dto) new db fine h in
            ground (arith, h, went, added)
      ]
    ]

pub modifier_ligne-coherentes :
    (comptes : List DimCompte) (fks : CreateFaitBudgetDto → Bool) (now id : ℕ)
    (dto : UpdateFaitBudgetDto) (email : String) (db : Db)
    → are_coherentes db ≡ true
    → are_coherentes (modifier_ligne comptes fks now id dto email db).1 ≡ true
unfolding modifier_ligne
modifier_ligne-coherentes comptes fks now id dto email db h =
    elim (Option-cases (find_one (ligne_has_id id) db.lignes)) [
      | inl missing ↦ ground (arith, h)
      | inr (l, found) ↦
          let was = every-find_one is_coherente (ligne_has_id id) db.lignes {r = l} h found in
          elim (Option-cases (find_one (version_has_id l.fk_version) db.versions)) [
            | inl missing ↦ ground (arith, h, found)
            | inr (v, v_found) ↦ elim (Result-cases (mesures comptes dto l)) [
              | inr (x, failed) ↦ ground (arith, h, found, failed)
              | inl (l', went) ↦
                  let fine = mesures-coherente comptes dto l {l' = l'} was went in
                  let new = colonnes now email dto l' in
                  let kept =
                    every-update_where is_coherente (ligne_has_id l'.id) (λ _. new) db.lignes h
                      (λ r ok'. fine) in
                  ground (arith, h, found, went, kept)
            ]
          ]
    ]

pub supprimer_ligne-coherentes :
    (id : ℕ) (db : Db) → are_coherentes db ≡ true → are_coherentes (supprimer_ligne id db).1 ≡ true
unfolding supprimer_ligne
supprimer_ligne-coherentes id db h =
    let kept = every-delete_where is_coherente (ligne_has_id id) db.lignes h in
    elim (Option-cases (find_one (ligne_has_id id) db.lignes)) [
      | inl missing ↦ ground (arith, h)
      | inr (l, found) ↦ elim (Option-cases (find_one (version_has_id l.fk_version) db.versions)) [
        | inl missing ↦ ground (arith, h, found)
        | inr (v, v_found) ↦ ground (arith, h, found, kept)
      ]
    ]
