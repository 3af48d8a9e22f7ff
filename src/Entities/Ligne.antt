-- ===== src/Entities/Ligne.antt =====
-- A budget line: fait_budget, with its grain of ten keys. An amount counts ten-thousandths, the scale
-- of numeric(20,4), and a rate of interest ten-thousandths as well, the scale of numeric(7,4); an
-- exchange rate counts hundred-millionths, the scale of numeric(18,8).
use budget_backend.Base.{ℕ, String, Option, Bool, true, false, ◌==◌, ◌&&◌, ℤ}

pub data ModeSaisie : Type 0 where
  montant encours_tie : ModeSaisie

pub record LigneBudget : Type 0 where
  pub id : ℕ
  pub fk_temps : ℕ
  pub fk_compte : ℕ
  pub fk_structure : ℕ
  pub fk_centre : ℕ
  pub fk_ligne_metier : ℕ
  pub fk_produit : ℕ
  pub fk_segment : ℕ
  pub fk_devise : ℕ
  pub fk_version : ℕ
  pub fk_scenario : ℕ
  pub montant_devise : ℤ
  pub montant_fcfa : ℤ
  pub taux_change_applique : ℕ
  pub mode_saisie : ModeSaisie
  pub encours_moyen : Option ℕ
  pub tie : Option ℕ
  pub commentaire : Option String
  pub date_creation : ℕ
  pub utilisateur_creation : String
  pub date_modification : Option ℕ
  pub utilisateur_modification : Option String

abbrev pub ligne_has_id : ℕ → LigneBudget → Bool
ligne_has_id id l = l.id == id

abbrev pub ligne_is_of : ℕ → ℕ → LigneBudget → Bool
ligne_is_of version cr l = l.fk_version == version && l.fk_centre == cr

-- The ten keys of `uq_fait_budget_grain`
abbrev pub same_grain : LigneBudget → LigneBudget → Bool
same_grain a b =
    a.fk_temps == b.fk_temps
    && a.fk_compte == b.fk_compte
    && a.fk_structure == b.fk_structure
    && a.fk_centre == b.fk_centre
    && a.fk_ligne_metier == b.fk_ligne_metier
    && a.fk_produit == b.fk_produit
    && a.fk_segment == b.fk_segment
    && a.fk_devise == b.fk_devise
    && a.fk_version == b.fk_version
    && a.fk_scenario == b.fk_scenario

abbrev pub is_encours_tie : ModeSaisie → Bool
is_encours_tie montant = false
is_encours_tie encours_tie = true

abbrev pub same_mode : ModeSaisie → ModeSaisie → Bool
same_mode montant montant = true
same_mode encours_tie encours_tie = true
same_mode _ _ = false
