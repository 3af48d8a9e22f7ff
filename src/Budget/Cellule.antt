-- ===== src/Budget/Cellule.antt =====
-- budget-saisie.service.ts: the defaults of a new line (`resoudreFkDefaultsPourInsert`), and what a
-- cell of the grid asks for.
use budget_backend.Base.{
  ℕ, suc, ltb, String, Option, none, some, Bool, true, false, not, ◌==◌, ◌&&◌, str_eq, find_one, ℤ,
  pos, negsuc, int_eq, or_else, Result, ok, err,
}
use budget_backend.Entities.Ligne.{
  LigneBudget, ModeSaisie, montant, encours_tie, is_encours_tie, same_mode,
}
use budget_backend.Budget.Referentiels.{
  Referentiels, DimDevise, DimProduit, DimSegment, premier, produit_before, segment_before,
  is_transverse, produits_courants, segments_courants,
}
use budget_backend.Budget.Montants.{mensualiser_montant}
use budget_backend.Budget.Lignes.{or_keep}
use budget_backend.Budget.Rapport.{
  CelluleEntree, LigneEntree, GrilleEntree, CodeErreur, devise_pivot_absente, produit_defaut_absent,
  segment_defaut_absent,
}

pub record FkDefauts : Type 0 where
  pub fk_devise : ℕ
  pub fk_structure : ℕ
  pub fk_produit : ℕ
  pub fk_segment : ℕ

abbrev defauts_avec :
    ℕ → Option DimDevise → Option DimProduit → Option DimSegment → Result CodeErreur FkDefauts
defauts_avec structure none p s = err devise_pivot_absente
defauts_avec structure (some d) none s = err produit_defaut_absent
defauts_avec structure (some d) (some p) none = err segment_defaut_absent
defauts_avec structure (some d) (some p) (some s) =
    ok (record { fk_devise = d.id; fk_structure = structure; fk_produit = p.id; fk_segment = s.id })

-- `resoudreFkDefaultsPourInsert`
unfoldable pub resoudre_fk_defauts : Referentiels → ℕ → Result CodeErreur FkDefauts
resoudre_fk_defauts ref fk_structure_cr =
    defauts_avec fk_structure_cr (find_one (λ d. str_eq d.code_iso "XOF") ref.devises)
      (or_else (find_one is_transverse ref.produits)
        (premier produit_before (produits_courants ref.produits)))
      (premier segment_before (segments_courants ref.segments))

-- `cell.modeSaisie ?? 'MONTANT'`
abbrev pub mode_of : CelluleEntree → ModeSaisie
mode_of cell = or_keep cell.mode_saisie montant

abbrev pub is_absent {ℓ} : {A : Type ℓ} → Option A → Bool
is_absent none = true
is_absent (some a) = false

-- A cell that asks for the deletion of its line
abbrev pub is_vide : CelluleEntree → Bool
is_vide cell =
    int_eq cell.montant (pos 0)
    && not (is_encours_tie (mode_of cell))
    && is_absent cell.encours_moyen
    && is_absent cell.tie

-- `montantDevise` of a cell; `ENCOURS_TIE` needs both figures
abbrev pub montant_de : ModeSaisie → ℤ → Option ℕ → Option ℕ → Option ℤ
montant_de montant m encours tie = some m
montant_de encours_tie m (some e) (some t) = some (pos (mensualiser_montant e t))
montant_de encours_tie m _ _ = none

abbrev pub figure_de : ModeSaisie → Option ℕ → Option ℕ
figure_de montant o = none
figure_de encours_tie o = o

abbrev pub same_figure : Option ℕ → Option ℕ → Bool
same_figure none none = true
same_figure (some a) (some b) = a == b
same_figure _ _ = false

abbrev pub same_texte : Option String → Option String → Bool
same_texte none none = true
same_texte (some a) (some b) = str_eq a b
same_texte _ _ = false

-- `inchange`
abbrev pub is_inchange : CelluleEntree → ℤ → LigneBudget → Bool
is_inchange cell m l =
    int_eq l.montant_devise m
    && same_mode l.mode_saisie (mode_of cell)
    && same_figure l.encours_moyen (figure_de (mode_of cell) cell.encours_moyen)
    && same_figure l.tie (figure_de (mode_of cell) cell.tie)
    && same_texte l.commentaire cell.commentaire

-- numeric(20,4), in ten-thousandths
abbrev tient : ℕ → Bool
tient n = ltb n 100_000_000_000_000_000_000

abbrev montant_tient : ℤ → Bool
montant_tient (pos n) = tient n
montant_tient (negsuc n) = tient (suc n)

abbrev encours_tient : Option ℕ → Bool
encours_tient none = true
encours_tient (some n) = tient n

-- The columns of a cell fit numeric(20,4): the amount, once in the currency and once in FCFA, and the
-- outstanding amount. The rate, at most 1, fits numeric(7,4).
unfoldable pub is_stockable : CelluleEntree → ℤ → Bool
is_stockable cell m = montant_tient m && encours_tient (figure_de (mode_of cell) cell.encours_moyen)

-- The columns that a changed cell writes
abbrev pub avec_cellule : ℕ → String → CelluleEntree → ℤ → LigneBudget → LigneBudget
avec_cellule now email cell m l = record l {
  montant_devise = m;
  montant_fcfa = m;
  taux_change_applique = 100000000;
  mode_saisie = mode_of cell;
  encours_moyen = figure_de (mode_of cell) cell.encours_moyen;
  tie = figure_de (mode_of cell) cell.tie;
  commentaire = cell.commentaire;
  date_modification = some now;
  utilisateur_modification = some email;
}

-- The six keys by which a cell finds its line
abbrev pub cellule_is_of : GrilleEntree → LigneEntree → ℕ → LigneBudget → Bool
cellule_is_of dto ligne temps l =
    l.fk_version == dto.version_id
    && l.fk_scenario == dto.scenario_id
    && l.fk_centre == dto.cr_id
    && l.fk_compte == ligne.compte_id
    && l.fk_ligne_metier == ligne.ligne_metier_id
    && l.fk_temps == temps
