-- ===== src/Budget.antt =====
-- The budget lines: faits/budget/fait-budget.service.ts with its controller, and
-- budget/services/budget-saisie.service.ts.
pub mod Referentiels
pub mod Doubles
pub mod Montants
pub mod Lignes
pub mod Rapport
pub mod Cellule
pub mod Grille
pub mod Comptage
pub mod Acceptation
pub mod Verrou
pub mod Coherence
pub mod UneLigne
pub mod Saisies
pub mod SaisieUnitaire
pub mod Reprise
