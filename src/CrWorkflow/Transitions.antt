-- ===== src/CrWorkflow/Transitions.antt =====
-- cr-workflow.service.ts: the four transitions of a centre. Each returns the saved status row.
use budget_backend.Base.{
  ℕ, String, Option, none, some, Bool, false, not, pure, throw, gets, require, when, ◌>>=◌, ◌>>◌,
  ◌==◌, ◌||◌,
}
use budget_backend.Entities.{
  cr_vide, statut_cr, statut_version, pas_le_validateur, AuthUser, Call, in_transaction,
  find_version, log, emit,
}
use budget_backend.Entities.Version.{DimVersion, StatutVersion, is_ouvert, is_pre_valide}
use budget_backend.Entities.Centre.{
  DimCentre, CrStatut, StatutCr, en_saisie, soumis, valide, is_en_saisie, is_soumis, is_valide,
}
use budget_backend.Entities.Journal.{TypeAction, Cible, Payload, CrEvent}
use budget_backend.Interfaces.{PerimetreService}
use budget_backend.CrWorkflow.Helpers.{
  resolve_cr, assert_cr_autorise, find_statut, nb_lignes_cr, nouveau_statut, insert_statut,
  update_statut, update_version, basculer_version_si_tous_valides, emit_cr,
}

-- `!statut || statut.statut !== ...`, negated
abbrev pub has_statut : (StatutCr → Bool) → Option CrStatut → Bool
has_statut is none = false
has_statut is (some s) = is s.statut

-- The row, or the conflict with the status that the message names.
abbrev pub require_statut : (StatutCr → Bool) → ℕ → ℕ → Call CrStatut
require_statut is version cr db = elim (find_statut version cr db) [
  | none ↦ throw (statut_cr none) db
  | some s ↦ (require (is s.statut) (statut_cr (some s.statut)) >> pure s) db
]

-- `String(statut.fkValidateur) !== String(user.userId)`, negated
abbrev pub is_validateur : ℕ → Option ℕ → Bool
is_validateur user none = false
is_validateur user (some v) = v == user

module _ (perimetre : PerimetreService) (now : ℕ) where
  -- The reads that stand before the transaction of each method.
  abbrev resolve : ℕ → String → AuthUser → Call (DimVersion × DimCentre)
  resolve version_id code user = do
    version ← find_version version_id
    cr ← resolve_cr code
    assert_cr_autorise perimetre cr.id user
    pure (version, cr)

  abbrev tracer :
      TypeAction
      → CrEvent
      → DimVersion
      → DimCentre
      → CrStatut
      → StatutCr
      → Option String
      → Option String
      → Option String
      → AuthUser
      → Call (Unit {0})
  tracer action event version cr s avant texte motif commentaire user = do
    log user action (Cible.fait_budget_cr_statut s.id)
        (Payload.transition_cr cr.code_cr version.id avant s.statut texte)
    emit_cr event version cr user motif commentaire

  -- EN_SAISIE → SOUMIS
  unfoldable pub soumettre_cr : ℕ → String → Option String → AuthUser → Call CrStatut
  unfolding find_version log emit
  soumettre_cr version_id code commentaire user = do
    (version, cr) ← resolve version_id code user
    in_transaction (do
      nb ← gets (nb_lignes_cr version_id cr.id)
      require (not (nb == 0)) cr_vide
      existing ← gets (find_statut version_id cr.id)
      db ← gets (λ db. db)
      let statut : CrStatut = elim existing [
        | none ↦ nouveau_statut db.prochain_id version_id cr.id
        | some s ↦ s
      ]
      require (is_en_saisie statut.statut) (statut_cr (some statut.statut))
      let changed : CrStatut = record statut {
        statut = soumis;
        date_soumission = some now;
        fk_saisisseur = some user.user_id;
        motif_rejet = none;
        fk_user_modif = some user.user_id;
        date_modification = some now;
      }
      saved ← elim existing [ none ↦ insert_statut changed | some s ↦ update_statut changed ]
      tracer TypeAction.soumettre_cr CrEvent.cr_submitted version cr saved en_saisie commentaire
          none commentaire user
      pure saved)

  -- SOUMIS → VALIDE, and perhaps the pre-validation of the version
  unfoldable pub valider_cr : ℕ → String → Option String → AuthUser → Call CrStatut
  unfolding find_version log emit basculer_version_si_tous_valides
  valider_cr version_id code commentaire user = do
    (version, cr) ← resolve version_id code user
    in_transaction (do
      statut ← require_statut is_soumis version_id cr.id
      saved ← update_statut (record statut {
        statut = valide;
        date_validation = some now;
        fk_validateur = some user.user_id;
        fk_user_modif = some user.user_id;
        date_modification = some now;
      })
      tracer TypeAction.valider_cr CrEvent.cr_validated version cr saved soumis commentaire none
          commentaire user
      basculer_version_si_tous_valides now version user
      pure saved)

  -- SOUMIS → EN_SAISIE
  unfoldable pub rejeter_cr : ℕ → String → String → AuthUser → Call CrStatut
  unfolding find_version log emit
  rejeter_cr version_id code motif user = do
    (version, cr) ← resolve version_id code user
    in_transaction (do
      statut ← require_statut is_soumis version_id cr.id
      saved ← update_statut (record statut {
        statut = en_saisie;
        motif_rejet = some motif;
        fk_user_modif = some user.user_id;
        date_modification = some now;
      })
      tracer TypeAction.rejeter_cr CrEvent.cr_rejected version cr saved soumis (some motif)
          (some motif) none user
      pure saved)

  -- VALIDE → EN_SAISIE, by the user who validated; a pre-validated version opens again
  unfoldable pub rouvrir_cr : ℕ → String → String → AuthUser → Call CrStatut
  unfolding find_version log emit
  rouvrir_cr version_id code motif user = do
    (version, cr) ← resolve version_id code user
    require (is_ouvert version.statut || is_pre_valide version.statut)
        (statut_version version.statut)
    in_transaction (do
      statut ← require_statut is_valide version_id cr.id
      require (is_validateur user.user_id statut.fk_validateur) pas_le_validateur
      saved ← update_statut (record statut {
        statut = en_saisie;
        date_reouverture = some now;
        motif_reouverture = some motif;
        fk_user_modif = some user.user_id;
        date_modification = some now;
      })
      tracer TypeAction.rouvrir_cr CrEvent.cr_reopened version cr saved valide (some motif)
          (some motif) none user
      when (is_pre_valide version.statut) (do
        update_version version_id StatutVersion.ouvert now user
        log user TypeAction.reouvrir_version (Cible.dim_version version_id)
            (Payload.reouverture_version version.code_version cr.code_cr))
      pure saved)
