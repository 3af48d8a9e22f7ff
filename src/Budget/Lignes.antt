-- ===== src/Budget/Lignes.antt =====
-- fait-budget.service.ts: create, update and remove of one line, and the tests of the centre that
-- fait-budget.controller.ts puts before them. A call returns the line where the service reads it
-- again with its relations.
use budget_backend.Base.{
  ℕ, suc, String, Option, none, some, Bool, true, false, not, List, [], ◌∷◌, ◌++◌, ◌&&◌, ◌||◌, pure,
  gets, require, or_throw, modify, ◌>>=◌, ◌>>◌, find_one, update_where, delete_where, any, ℤ,
  Result, if◌then◌else◌, ok, err,
}
use budget_backend.Entities.{
  Erreur, AuthUser, Call, find_version, statut_version, ligne_introuvable, grain_existant,
  fk_inexistante, fk_non_modifiable, montant_sans_bascule,
}
use budget_backend.Entities.Version.{is_ouvert}
use budget_backend.Entities.Ligne.{
  LigneBudget, ModeSaisie, montant, encours_tie, ligne_has_id, same_grain, is_encours_tie,
}
use budget_backend.Interfaces.{PerimetreService}
use budget_backend.CrWorkflow.Helpers.{assert_cr_autorise}
use budget_backend.Budget.Referentiels.{DimCompte}
use budget_backend.Budget.Montants.{SaisieResolue, resolve_mode_saisie}

-- `CreateFaitBudgetDto`
pub record CreateFaitBudgetDto : Type 0 where
  pub fk_temps : ℕ
  pub fk_compte : ℕ
  pub fk_structure : ℕ
  pub fk_centre : ℕ
  pub fk_ligne_metier : ℕ
  pub fk_produit : ℕ
  pub fk_segment : ℕ
  pub fk_devise : ℕ
  pub fk_version : ℕ
  pub fk_scenario : ℕ
  pub montant_devise : ℤ
  pub montant_fcfa : ℤ
  pub taux_change_applique : ℕ
  pub mode_saisie : Option ModeSaisie
  pub encours_moyen : Option ℕ
  pub tie : Option ℕ
  pub commentaire : Option String

-- `UpdateFaitBudgetDto`. `encoursMoyen` and `tie` may be in the body without a value, which is
-- `some none`; `has_fk` tells whether the body names one of the ten keys.
pub record UpdateFaitBudgetDto : Type 0 where
  pub has_fk : Bool
  pub montant_devise : Option ℤ
  pub montant_fcfa : Option ℤ
  pub taux_change_applique : Option ℕ
  pub mode_saisie : Option ModeSaisie
  pub encours_moyen : Option (Option ℕ)
  pub tie : Option (Option ℕ)
  pub commentaire : Option String

-- `a ?? b`, and a column that keeps its value where the body has none
abbrev pub or_keep {ℓ} : {A : Type ℓ} → Option A → A → A
or_keep none a = a
or_keep (some b) a = b

abbrev pub is_present {ℓ} : {A : Type ℓ} → Option A → Bool
is_present none = false
is_present (some a) = true

-- A result that a service computes, thrown or returned
abbrev pub or_raise : {A : Type 0} → Result Erreur A → Call A
or_raise r db = (r, db)

-- `assertVersionOuverte`
abbrev pub assert_version_ouverte : ℕ → Call (Unit {0})
assert_version_ouverte id = do
  v ← find_version id
  require (is_ouvert v.statut) (statut_version v.statut)

-- The insertion of a line under the unique index uq_fait_budget_grain
abbrev pub insert_ligne : LigneBudget → Call LigneBudget
insert_ligne l = do
  pris ← gets (λ db. any (same_grain l) db.lignes)
  require (not pris) grain_existant
  modify (λ db. record db { lignes = db.lignes ++ (l ∷ []); prochain_id = suc db.prochain_id })
  pure l

-- `create` from the search by the grain on
unfoldable pub ajouter_ligne : Bool → LigneBudget → Call LigneBudget
ajouter_ligne connues l = do
  existing ← gets (λ db. any (same_grain l) db.lignes)
  require (not existing) grain_existant
  require connues fk_inexistante
  insert_ligne l

abbrev pub nouvelle_ligne : ℕ → ℕ → String → CreateFaitBudgetDto → SaisieResolue → LigneBudget
nouvelle_ligne id now utilisateur dto s = record {
  id = id;
  fk_temps = dto.fk_temps;
  fk_compte = dto.fk_compte;
  fk_structure = dto.fk_structure;
  fk_centre = dto.fk_centre;
  fk_ligne_metier = dto.fk_ligne_metier;
  fk_produit = dto.fk_produit;
  fk_segment = dto.fk_segment;
  fk_devise = dto.fk_devise;
  fk_version = dto.fk_version;
  fk_scenario = dto.fk_scenario;
  montant_devise = s.montant_devise;
  montant_fcfa = dto.montant_fcfa;
  taux_change_applique = dto.taux_change_applique;
  mode_saisie = s.mode_saisie;
  encours_moyen = s.encours_moyen;
  tie = s.tie;
  commentaire = dto.commentaire;
  date_creation = now;
  utilisateur_creation = utilisateur;
  date_modification = none;
  utilisateur_modification = none;
}

-- The measures of a line after `update`, before the columns that follow the body one by one.
abbrev pub avec_saisie : LigneBudget → SaisieResolue → LigneBudget
avec_saisie l s = record l {
  mode_saisie = s.mode_saisie;
  encours_moyen = s.encours_moyen;
  tie = s.tie;
  montant_devise = s.montant_devise;
}

abbrev pub avec_resolue : LigneBudget → Result Erreur SaisieResolue → Result Erreur LigneBudget
avec_resolue l (ok s) = ok (avec_saisie l s)
avec_resolue l (err e) = err e

abbrev pub is_mode_touche : UpdateFaitBudgetDto → Bool
is_mode_touche dto =
    is_present dto.mode_saisie || is_present dto.encours_moyen || is_present dto.tie

abbrev pub heritee : ModeSaisie → Option ℕ → Option ℕ
heritee montant o = none
heritee encours_tie o = o

-- `update`, step 3: the mode, and the amount with it
unfoldable pub mesures :
    List DimCompte → UpdateFaitBudgetDto → LigneBudget → Result Erreur LigneBudget
mesures comptes dto l =
    if is_mode_touche dto
    then (let mode = or_keep dto.mode_saisie l.mode_saisie in
        avec_resolue l (
          resolve_mode_saisie comptes mode
            (or_keep dto.encours_moyen (heritee mode l.encours_moyen))
            (or_keep dto.tie (heritee mode l.tie)) (or_keep dto.montant_devise l.montant_devise)
            l.fk_compte))
    else if is_present dto.montant_devise && is_encours_tie l.mode_saisie
    then err montant_sans_bascule
    else ok (record l { montant_devise = or_keep dto.montant_devise l.montant_devise })

abbrev pub colonnes : ℕ → String → UpdateFaitBudgetDto → LigneBudget → LigneBudget
colonnes now utilisateur dto l = record l {
  montant_fcfa = or_keep dto.montant_fcfa l.montant_fcfa;
  taux_change_applique = or_keep dto.taux_change_applique l.taux_change_applique;
  commentaire = elim dto.commentaire [ none ↦ l.commentaire | some c ↦ some c ];
  date_modification = some now;
  utilisateur_modification = some utilisateur;
}

-- `repo.save` of a stored line
abbrev pub save_ligne : LigneBudget → Call LigneBudget
save_ligne l =
    modify (λ db. record db { lignes = update_where (ligne_has_id l.id) (λ _. l) db.lignes })
    >> pure l

module _ (comptes : List DimCompte) (fks_connues : CreateFaitBudgetDto → Bool) (now : ℕ) where
  -- `create`. The foreign keys of the line are checked by the database: `fks_connues`.
  unfoldable pub creer_ligne : CreateFaitBudgetDto → String → Call LigneBudget
  unfolding find_version
  creer_ligne dto utilisateur = do
    assert_version_ouverte dto.fk_version
    s ← or_raise (
        resolve_mode_saisie comptes (or_keep dto.mode_saisie montant) dto.encours_moyen dto.tie
          dto.montant_devise dto.fk_compte)
    (λ db. ajouter_ligne (fks_connues dto) (nouvelle_ligne db.prochain_id now utilisateur dto s) db)

  -- `update`
  unfoldable pub modifier_ligne : ℕ → UpdateFaitBudgetDto → String → Call LigneBudget
  unfolding find_version
  modifier_ligne id dto utilisateur = do
    require (not dto.has_fk) fk_non_modifiable
    current ← (λ db. or_throw (find_one (ligne_has_id id) db.lignes) ligne_introuvable db)
    assert_version_ouverte current.fk_version
    l ← or_raise (mesures comptes dto current)
    save_ligne (colonnes now utilisateur dto l)

-- `remove`: whether there was such a line
unfoldable pub supprimer_ligne : ℕ → Call Bool
unfolding find_version
supprimer_ligne id db = elim (find_one (ligne_has_id id) db.lignes) [
  | none ↦ pure false db
  | some current ↦
      (assert_version_ouverte current.fk_version
          >> modify (λ d. record d { lignes = delete_where (ligne_has_id id) d.lignes })
          >> pure true)
        db
]

-- The controller: the centre of the line is in the caller's perimeter.
module _ (perimetre : PerimetreService) (comptes : List DimCompte)
    (fks_connues : CreateFaitBudgetDto → Bool) (now : ℕ) where
  unfoldable pub post_ligne : CreateFaitBudgetDto → AuthUser → Call LigneBudget
  post_ligne dto user =
      assert_cr_autorise perimetre dto.fk_centre user
      >> creer_ligne comptes fks_connues now dto user.email

  unfoldable pub patch_ligne : ℕ → UpdateFaitBudgetDto → AuthUser → Call LigneBudget
  patch_ligne id dto user = do
    existing ← (λ db. or_throw (find_one (ligne_has_id id) db.lignes) ligne_introuvable db)
    assert_cr_autorise perimetre existing.fk_centre user
    modifier_ligne comptes fks_connues now id dto user.email

  unfoldable pub delete_ligne : ℕ → AuthUser → Call (Unit {0})
  delete_ligne id user = do
    existing ← (λ db. or_throw (find_one (ligne_has_id id) db.lignes) ligne_introuvable db)
    assert_cr_autorise perimetre existing.fk_centre user
    found ← supprimer_ligne id
    require found ligne_introuvable
