-- ===== src/VersionWorkflow.antt =====
-- referentiels/version/version-workflow.service.ts: the four transitions of a version under the
-- global workflow. A response copies the saved row, which is what a call returns here; `now` is the
-- instant of the call.
pub mod Transitions
use budget_backend.Base.{
  ℕ, String, Option, none, some, Bool, true, false, not, ◌≡◌, Service, pure, throw, gets, require,
  modify, ◌>>=◌, ◌>>◌, update_where, count_where, ◌==◌,
}
use budget_backend.Entities.{
  Db, Erreur, statut_version, reforecast_obsolete, version_vide, AuthUser, Call, in_transaction,
  find_version, log, emit,
}
use budget_backend.Entities.Version.{
  DimVersion, StatutVersion, ouvert, soumis, valide, gele, TypeVersion, reforecast,
  StatutPublication, obsolete, version_has_id, is_ouvert, is_soumis, is_valide,
}
use budget_backend.Entities.Journal.{TypeAction, Cible, Payload, Event, BudgetEvent}
use budget_backend.Interfaces.{
  Permission, budget_soumettre, budget_valider, budget_publier, PermissionsService,
}

pub data Transition : Type 0 where
  soumettre valider rejeter publier : Transition

-- `codeAudit`
abbrev pub code_audit : TypeVersion → Transition → TypeAction
code_audit reforecast soumettre = TypeAction.soumettre_reforecast
code_audit reforecast valider = TypeAction.valider_reforecast
code_audit reforecast rejeter = TypeAction.rejeter_reforecast
code_audit reforecast publier = TypeAction.publier_reforecast
code_audit _ soumettre = TypeAction.soumettre_budget
code_audit _ valider = TypeAction.valider_budget
code_audit _ rejeter = TypeAction.rejeter_budget
code_audit _ publier = TypeAction.publier_budget

abbrev pub is_reforecast_obsolete : TypeVersion → StatutPublication → Bool
is_reforecast_obsolete reforecast obsolete = true
is_reforecast_obsolete _ _ = false

-- `assertReforecastNonObsolete`
abbrev pub assert_reforecast_non_obsolete : DimVersion → Call (Unit {0})
assert_reforecast_non_obsolete v =
    require (not (is_reforecast_obsolete v.type_version v.statut_publication)) reforecast_obsolete

-- `repo.save(v)`
abbrev pub save_version : DimVersion → Call DimVersion
save_version v db =
    (modify (λ d. record d { versions = update_where (version_has_id v.id) (λ _. v) d.versions })
        >> pure v)
      db

-- `SELECT COUNT(*) FROM fait_budget WHERE fk_version = $1`
abbrev pub nb_lignes : ℕ → Db → ℕ
nb_lignes id db = count_where (λ l. l.fk_version == id) db.lignes

-- The tail that the four methods share: the audit line, then the event.
abbrev journaliser :
    DimVersion
    → Transition
    → BudgetEvent
    → StatutVersion
    → StatutVersion
    → Option String
    → Option ℕ
    → AuthUser
    → Call (Unit {0})
journaliser v t event avant apres commentaire via user = do
  log user (code_audit v.type_version t) (Cible.dim_version v.id)
      (Payload.transition_version v.code_version avant apres commentaire via)
  emit (Event.budget event v.id v.code_version user.email user.user_id commentaire)

module _ (permissions : PermissionsService) (now : ℕ) where
  -- ouvert → soumis
  unfoldable pub soumettre_version : ℕ → Option String → AuthUser → Call DimVersion
  unfolding find_version log emit
  soumettre_version id commentaire user =
      let via = permissions.delegation_context_pour user.user_id budget_soumettre in
      in_transaction (do
        v ← find_version id
        require (is_ouvert v.statut) (statut_version v.statut)
        assert_reforecast_non_obsolete v
        nb ← gets (nb_lignes id)
        require (not (nb == 0)) version_vide
        saved ← save_version (record v {
          statut = soumis;
          commentaire_soumission = commentaire;
          date_soumission = some now;
          utilisateur_soumission = some user.email;
          commentaire_validation = none;
          date_validation = none;
          utilisateur_validation = none;
          commentaire_rejet = none;
          date_rejet = none;
          utilisateur_rejet = none;
        })
        journaliser saved soumettre BudgetEvent.submitted ouvert soumis commentaire via user
        pure saved)

  -- soumis → valide
  unfoldable pub valider_version : ℕ → Option String → AuthUser → Call DimVersion
  unfolding find_version log emit
  valider_version id commentaire user =
      let via = permissions.delegation_context_pour user.user_id budget_valider in
      in_transaction (do
        v ← find_version id
        require (is_soumis v.statut) (statut_version v.statut)
        assert_reforecast_non_obsolete v
        saved ← save_version (record v {
          statut = valide;
          commentaire_validation = commentaire;
          date_validation = some now;
          utilisateur_validation = some user.email;
        })
        journaliser saved valider BudgetEvent.validated soumis valide commentaire via user
        pure saved)

  -- soumis → ouvert, with a comment that the controller makes mandatory
  unfoldable pub rejeter_version : ℕ → String → AuthUser → Call DimVersion
  unfolding find_version log emit
  rejeter_version id commentaire user =
      let via = permissions.delegation_context_pour user.user_id budget_valider in
      in_transaction (do
        v ← find_version id
        require (is_soumis v.statut) (statut_version v.statut)
        assert_reforecast_non_obsolete v
        saved ← save_version (record v {
          statut = ouvert;
          commentaire_rejet = some commentaire;
          date_rejet = some now;
          utilisateur_rejet = some user.email;
          commentaire_soumission = none;
          date_soumission = none;
          utilisateur_soumission = none;
        })
        journaliser saved rejeter BudgetEvent.rejected soumis ouvert (some commentaire) via user
        pure saved)

  -- valide → gele
  unfoldable pub publier_version : ℕ → Option String → AuthUser → Call DimVersion
  unfolding find_version log emit
  publier_version id commentaire user =
      let via = permissions.delegation_context_pour user.user_id budget_publier in
      in_transaction (do
        v ← find_version id
        require (is_valide v.statut) (statut_version v.statut)
        assert_reforecast_non_obsolete v
        saved ← save_version (record v {
          statut = gele;
          commentaire_publication = commentaire;
          date_gel = some now;
          utilisateur_gel = some user.email;
        })
        journaliser saved publier BudgetEvent.published valide gele commentaire via user
        pure saved)
