-- ===== src/CrWorkflow/Comite.antt =====
-- cr-workflow.service.ts: the committee's transitions of a version.
use budget_backend.Base.{ℕ, String, Option, none, some, pure, require, ◌>>=◌, ◌>>◌}
use budget_backend.Entities.{
  statut_version, AuthUser, Call, in_transaction, find_version, log, emit,
}
use budget_backend.Entities.Version.{
  DimVersion, StatutVersion, pre_valide, soumis_comite, is_pre_valide, is_soumis_comite,
}
use budget_backend.Entities.Centre.{CrStatut, en_saisie, is_valide}
use budget_backend.Entities.Journal.{TypeAction, Cible, Payload, Event, BudgetEvent, CrEvent}
use budget_backend.VersionWorkflow.{save_version}
use budget_backend.CrWorkflow.Helpers.{resolve_cr, update_statut, update_version, emit_cr}
use budget_backend.CrWorkflow.Transitions.{require_statut}

module _ (now : ℕ) where
  -- PRE_VALIDE → SOUMIS_COMITE
  unfoldable pub soumettre_comite : ℕ → Option String → AuthUser → Call DimVersion
  unfolding find_version log emit
  soumettre_comite version_id commentaire user = in_transaction (do
    v ← find_version version_id
    require (is_pre_valide v.statut) (statut_version v.statut)
    saved ← save_version (record v {
      statut = soumis_comite;
      date_modification = some now;
      utilisateur_modification = some user.email;
    })
    log user TypeAction.soumettre_comite (Cible.dim_version version_id)
        (Payload.transition_version v.code_version pre_valide soumis_comite commentaire none)
    emit (
        Event.budget BudgetEvent.version_submitted_comite version_id v.code_version user.email
          user.user_id commentaire)
    pure saved)

  -- SOUMIS_COMITE → VALIDE
  unfoldable pub approuver_comite : ℕ → Option String → AuthUser → Call DimVersion
  unfolding find_version log
  approuver_comite version_id commentaire user = in_transaction (do
    v ← find_version version_id
    require (is_soumis_comite v.statut) (statut_version v.statut)
    saved ← save_version (record v {
      statut = StatutVersion.valide;
      date_modification = some now;
      utilisateur_modification = some user.email;
    })
    log user TypeAction.approuver_comite (Cible.dim_version version_id) (
        Payload.transition_version v.code_version soumis_comite StatutVersion.valide commentaire
          none)
    pure saved)

  -- SOUMIS_COMITE → OUVERT, and one centre VALIDE → EN_SAISIE; returns that centre's row
  unfoldable pub demander_revision : ℕ → String → String → AuthUser → Call CrStatut
  unfolding find_version log emit
  demander_revision version_id code motif user = do
    version ← find_version version_id
    cr ← resolve_cr code
    require (is_soumis_comite version.statut) (statut_version version.statut)
    in_transaction (do
      statut ← require_statut is_valide version_id cr.id
      saved_cr ← update_statut (record statut {
        statut = en_saisie;
        date_reouverture = some now;
        motif_reouverture = some motif;
        fk_user_modif = some user.user_id;
        date_modification = some now;
      })
      update_version version_id StatutVersion.ouvert now user
      log user TypeAction.demander_revision_comite (Cible.dim_version version_id)
          (Payload.revision version.code_version cr.code_cr motif)
      emit_cr CrEvent.cr_revision_demandee version cr user (some motif) none
      pure saved_cr)
