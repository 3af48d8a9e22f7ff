-- ===== src/Entities/Journal.antt =====
-- The audit trail (audit/audit.service.ts, `log`) and the events handed to the emitter
-- (notifications/notifications.events.ts). The French prose of an audit line is left out: all it
-- shows besides the payload is the number of lines of a submission.
use budget_backend.Base.{ℕ, String, Option, Bool, List}
use budget_backend.Entities.Version.{StatutVersion, MethodeExtrapolation}
use budget_backend.Entities.Centre.{StatutCr}

pub data TypeAction : Type 0 where
  soumettre_budget valider_budget rejeter_budget publier_budget : TypeAction
  soumettre_reforecast valider_reforecast rejeter_reforecast publier_reforecast : TypeAction
  soumettre_cr valider_cr rejeter_cr rouvrir_cr : TypeAction
  soumettre_comite approuver_comite demander_revision_comite : TypeAction
  pre_valider_version reouvrir_version : TypeAction
  init_snapshot_cr retirer_cr_snapshot cr_reintegre_snapshot : TypeAction
  auto_create_scenario import_budget : TypeAction
  lancer_reforecast marquer_reforecast_obsolete : TypeAction

-- `entiteCible` with `idCible`
pub data Cible : Type 0 where
  dim_version fait_budget_cr_statut dim_version_cr_attendu : ℕ → Cible
  dim_scenario : String → Cible
  -- `version=…/scenario=…/cr=…`
  fait_budget : (version scenario cr : ℕ) → Cible

-- `payloadApres`
pub data Payload : Type 0 where
  transition_version :
      (code_version : String) (avant apres : StatutVersion) (commentaire : Option String)
      (via_delegation_id : Option ℕ)
      → Payload
  transition_cr :
      (code_cr : String) (version_id : ℕ) (avant apres : StatutCr) (texte : Option String) → Payload
  reouverture_version : (code_version : String) (declencheur : String) → Payload
  pre_validation : (code_version : String) (cr_valides cr_attendus : ℕ) → Payload
  revision : (code_version cr_cible motif : String) → Payload
  snapshot : (code_version : String) (cr_attendus ajoutes : ℕ) → Payload
  retrait : (code_version code_cr motif : String) (force : Bool) → Payload
  reintegration : (code_version code_cr : String) → Payload
  scenario_auto : (code_scenario : String) (exercice_fiscal : ℕ) (code_version : String) → Payload
  obsolescence : (fk_version_remplacante : ℕ) → Payload
  lancement :
      (fk_version_source fk_scenario_source trimestre annee : ℕ) (methode : MethodeExtrapolation)
      (nb_lignes : ℕ) (remplaces : List ℕ)
      → Payload
  saisie_grille :
      (total_cellules inserees modifiees supprimees ignorees erreurs : ℕ)
      (via_delegation_id : Option ℕ)
      → Payload

pub record AuditLog : Type 0 where
  pub utilisateur : String
  pub type_action : TypeAction
  pub cible : Cible
  pub payload_apres : Payload

pub data BudgetEvent : Type 0 where
  submitted validated rejected published : BudgetEvent
  version_pre_validated version_submitted_comite : BudgetEvent

pub data CrEvent : Type 0 where
  cr_submitted cr_validated cr_rejected cr_reopened cr_revision_demandee : CrEvent

pub data Event : Type 0 where
  budget :
      BudgetEvent
      → (version_id : ℕ) (code_version auteur_email : String) (auteur_id : ℕ)
        (commentaire : Option String)
      → Event
  cr :
      CrEvent
      → (version_id : ℕ) (code_version cr_code : String) (cr_id : ℕ) (auteur_email : String)
        (auteur_id : ℕ) (motif commentaire : Option String)
      → Event
