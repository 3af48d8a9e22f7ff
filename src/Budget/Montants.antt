-- ===== src/Budget/Montants.antt =====
-- fait-budget.service.ts: the two ways to enter an amount, MONTANT and ENCOURS_TIE. A figure with four
-- decimal places is given in ten-thousandths.
use budget_backend.Base.{
  ℕ, Option, none, some, Bool, true, false, List, find_one, Result, ok, err, ℤ, pos, int_eq,
  if◌then◌else◌, not,
}
use budget_backend.Entities.{
  Erreur, compte_introuvable, mode_incompatible, encours_tie_incomplet, compte_non_porteur,
}
use budget_backend.Entities.Ligne.{LigneBudget, ModeSaisie, montant, encours_tie}
use budget_backend.Budget.Doubles.{of_decimal, fois, fois_10000, sur_12, math_round}
use budget_backend.Budget.Referentiels.{DimCompte, compte_has_id}

-- `Math.round((encours * tie * 10000) / 12) / 10000`, in ten-thousandths. The last division is undone
-- when numeric(20,4) keeps four places, for amounts of up to fifteen digits.
unfoldable pub mensualiser_montant : ℕ → ℕ → ℕ
mensualiser_montant encours tie =
    math_round (sur_12 (fois_10000 (fois (of_decimal encours) (of_decimal tie))))

-- What `resolveModeSaisie` returns
pub record SaisieResolue : Type 0 where
  pub mode_saisie : ModeSaisie
  pub encours_moyen : Option ℕ
  pub tie : Option ℕ
  pub montant_devise : ℤ

abbrev pub saisie_encours : ℕ → ℕ → Option DimCompte → Result Erreur SaisieResolue
saisie_encours encours tie none = err compte_introuvable
saisie_encours encours tie (some c) =
    if not c.est_porteur_interets
    then err compte_non_porteur
    else ok (record {
      mode_saisie = encours_tie;
      encours_moyen = some encours;
      tie = some tie;
      montant_devise = pos (mensualiser_montant encours tie);
    })

-- `resolveModeSaisie`
abbrev pub resolve_mode_saisie :
    List DimCompte → ModeSaisie → Option ℕ → Option ℕ → ℤ → ℕ → Result Erreur SaisieResolue
resolve_mode_saisie comptes montant none none m fk_compte =
    ok (record { mode_saisie = montant; encours_moyen = none; tie = none; montant_devise = m })
resolve_mode_saisie comptes montant (some e) tie m fk_compte = err mode_incompatible
resolve_mode_saisie comptes montant none (some t) m fk_compte = err mode_incompatible
resolve_mode_saisie comptes encours_tie none tie m fk_compte = err encours_tie_incomplet
resolve_mode_saisie comptes encours_tie (some e) none m fk_compte = err encours_tie_incomplet
resolve_mode_saisie comptes encours_tie (some e) (some t) m fk_compte =
    saisie_encours e t (find_one (compte_has_id fk_compte) comptes)

-- The CHECK `ck_fait_budget_coherence_mode`, and the amount that ENCOURS_TIE stands for.
abbrev pub coherente : ModeSaisie → Option ℕ → Option ℕ → ℤ → Bool
coherente montant none none m = true
coherente encours_tie (some e) (some t) m = int_eq m (pos (mensualiser_montant e t))
coherente _ _ _ m = false

abbrev pub is_coherente : LigneBudget → Bool
is_coherente l = coherente l.mode_saisie l.encours_moyen l.tie l.montant_devise

abbrev pub is_resolue : SaisieResolue → Bool
is_resolue s = coherente s.mode_saisie s.encours_moyen s.tie s.montant_devise
