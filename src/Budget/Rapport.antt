-- ===== src/Budget/Rapport.antt =====
-- budget-saisie.service.ts, `saveGrilleSaisie`: the grid that is posted, and the report.
use budget_backend.Base.{ℕ, suc, String, Option, List, [], ◌∷◌, ◌++◌, ℤ}
use budget_backend.Entities.Ligne.{ModeSaisie}

-- `CelluleGrilleEntreeDto`. `mois` is the day that the text YYYY-MM-01 names, or none where it names no
-- day, such as 2027-13-01.
pub record CelluleEntree : Type 0 where
  pub mois : Option ℕ
  pub montant : ℤ
  pub mode_saisie : Option ModeSaisie
  pub encours_moyen : Option ℕ
  pub tie : Option ℕ
  pub commentaire : Option String

-- `LigneGrilleEntreeDto`
pub record LigneEntree : Type 0 where
  pub compte_id : ℕ
  pub ligne_metier_id : ℕ
  pub cellules : List CelluleEntree

-- `PostGrilleSaisieDto`. An identifier, a text of digits, is a number that bigint holds.
pub record GrilleEntree : Type 0 where
  pub version_id : ℕ
  pub scenario_id : ℕ
  pub cr_id : ℕ
  pub lignes : List LigneEntree

-- The codes of a report
pub data CodeErreur : Type 0 where
  compte_inconnu temps_inconnu temps_pas_premier compte_non_porteur : CodeErreur
  encours_tie_incomplet : CodeErreur
  devise_pivot_absente produit_defaut_absent segment_defaut_absent : CodeErreur

pub record ErreurCellule : Type 0 where
  pub ligne_index : ℕ
  pub mois : Option ℕ
  pub code : CodeErreur

-- What became of a cell
pub data Issue : Type 0 where
  inseree modifiee supprimee ignoree : Issue
  refusee : CodeErreur → Issue

pub record Rapport : Type 0 where
  pub total_cellules : ℕ
  pub inserees : ℕ
  pub modifiees : ℕ
  pub supprimees : ℕ
  pub ignorees : ℕ
  pub erreurs : List ErreurCellule

abbrev pub rapport_vide : Rapport
rapport_vide = record {
  total_cellules = 0;
  inserees = 0;
  modifiees = 0;
  supprimees = 0;
  ignorees = 0;
  erreurs = [];
}

-- The counters after one more cell
abbrev pub compter : ℕ → Option ℕ → Issue → Rapport → Rapport
compter index mois inseree r = record r {
  total_cellules = suc r.total_cellules;
  inserees = suc r.inserees;
}
compter index mois modifiee r = record r {
  total_cellules = suc r.total_cellules;
  modifiees = suc r.modifiees;
}
compter index mois supprimee r = record r {
  total_cellules = suc r.total_cellules;
  supprimees = suc r.supprimees;
}
compter index mois ignoree r = record r {
  total_cellules = suc r.total_cellules;
  ignorees = suc r.ignorees;
}
compter index mois (refusee code) r = record r {
  total_cellules = suc r.total_cellules;
  erreurs = r.erreurs ++ (record { ligne_index = index; mois = mois; code = code } ∷ []);
}
