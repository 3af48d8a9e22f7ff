-- ===== src/VersionWorkflow/Transitions.antt =====
-- The four transitions of version-workflow.service.ts against the diagram of its header.
use budget_backend.Base.{
  ℕ, String, Option, none, some, true, false, ◌≡◌, refl, ok, arith, find_one, update_where, ◌↔◌,
  ◌<◌, ◌++◌, ◌∷◌, [], Option-cases, inl, inr, is_ok,
}
use mathlib.Core.Path.{subst}
use budget_backend.Entities.{Db, AuthUser, Call}
use budget_backend.Entities.Version.{DimVersion, StatutVersion, version_has_id}
use budget_backend.Entities.Journal.{AuditLog, Cible, Payload, Event, BudgetEvent}
use budget_backend.Interfaces.{
  Permission, budget_soumettre, budget_valider, budget_publier, PermissionsService,
}
use budget_backend.VersionWorkflow.{
  Transition, soumettre, valider, rejeter, publier, soumettre_version, valider_version,
  rejeter_version, publier_version, is_reforecast_obsolete, nb_lignes, code_audit,
}

-- The state that a transition starts in, and the state that it leads to.
abbrev pub source : Transition → StatutVersion
source soumettre = StatutVersion.ouvert
source valider = StatutVersion.soumis
source rejeter = StatutVersion.soumis
source publier = StatutVersion.valide

abbrev pub target : Transition → StatutVersion
target soumettre = StatutVersion.soumis
target valider = StatutVersion.valide
target rejeter = StatutVersion.ouvert
target publier = StatutVersion.gele

abbrev pub event_of : Transition → BudgetEvent
event_of soumettre = BudgetEvent.submitted
event_of valider = BudgetEvent.validated
event_of rejeter = BudgetEvent.rejected
event_of publier = BudgetEvent.published

-- When the diagram allows transition `t` for the version `v` that `id` names.
pub record IsAllowed (id : ℕ) (t : Transition) (db : Db) (v : DimVersion) : Type 0 where
  pub found : find_one (version_has_id id) db.versions ≡ some v
  pub at_source : v.statut ≡ source t
  pub current : is_reforecast_obsolete v.type_version v.statut_publication ≡ false
  pub not_empty : t ≡ soumettre → 0 < nb_lignes id db

abbrev pub permission_of : Transition → Permission
permission_of soumettre = budget_soumettre
permission_of valider = budget_valider
permission_of rejeter = budget_valider
permission_of publier = budget_publier

module _ (permissions : PermissionsService) (now id : ℕ) (commentaire : Option String)
    (motif : String) (user : AuthUser) where
  -- The handler of a transition: a rejection has a reason, the others an optional comment.
  abbrev pub executer : Transition → Call DimVersion
  executer soumettre = soumettre_version permissions now id commentaire user
  executer valider = valider_version permissions now id commentaire user
  executer rejeter = rejeter_version permissions now id motif user
  executer publier = publier_version permissions now id commentaire user

  abbrev pub texte : Transition → Option String
  texte rejeter = some motif
  texte _ = commentaire

  -- What a transition that went through has changed, and that it has changed nothing else.
  pub record HasMoved (t : Transition) (db : Db) (v v' : DimVersion) (db' : Db) : Type 0 where
    pub same_id : v'.id ≡ v.id
    pub at_target : v'.statut ≡ target t
    pub same_code : v'.code_version ≡ v.code_version
    pub same_type : v'.type_version ≡ v.type_version
    pub same_exercice : v'.exercice_fiscal ≡ v.exercice_fiscal
    pub stored : db'.versions ≡ update_where (version_has_id v.id) (λ _. v') db.versions
    pub centres_kept : db'.centres ≡ db.centres
    pub statuts_kept : db'.statuts ≡ db.statuts
    pub attendus_kept : db'.attendus ≡ db.attendus
    pub lignes_kept : db'.lignes ≡ db.lignes
    pub scenarios_kept : db'.scenarios ≡ db.scenarios
    pub audited :
        db'.audit
        ≡ db.audit
          ++ (record {
            utilisateur = user.email;
            type_action = code_audit v.type_version t;
            cible = Cible.dim_version v.id;
            payload_apres =
                Payload.transition_version v.code_version
                  (source t)
                  (target t)
                  (texte t)
                  (permissions.delegation_context_pour user.user_id (permission_of t));
          }
              ∷ [])
    pub emitted :
        db'.events
        ≡ db.events
          ++ (Event.budget (event_of t) v.id v.code_version user.email user.user_id (texte t) ∷ [])

  success-IsAllowed :
      (t : Transition) (db : Db) {v : DimVersion}
      → find_one (version_has_id id) db.versions ≡ some v
      → is_ok (executer t db).0 ≡ true
      → IsAllowed id t db v
  unfolding soumettre_version valider_version rejeter_version publier_version
  success-IsAllowed soumettre db e h = ground arith
  success-IsAllowed _ db e h = ground arith

  missing_fails :
      (t : Transition) (db : Db)
      → find_one (version_has_id id) db.versions ≡ none
      → is_ok (executer t db).0 ≡ false
  unfolding soumettre_version valider_version rejeter_version publier_version
  missing_fails soumettre db e = ground arith
  missing_fails _ db e = ground arith

  -- The row that a transition stores, and the database that it leaves.
  abbrev deplacee : Transition → DimVersion → DimVersion
  deplacee soumettre v = record v {
    statut = StatutVersion.soumis;
    commentaire_soumission = commentaire;
    date_soumission = some now;
    utilisateur_soumission = some user.email;
    commentaire_validation = none;
    date_validation = none;
    utilisateur_validation = none;
    commentaire_rejet = none;
    date_rejet = none;
    utilisateur_rejet = none;
  }
  deplacee valider v = record v {
    statut = StatutVersion.valide;
    commentaire_validation = commentaire;
    date_validation = some now;
    utilisateur_validation = some user.email;
  }
  deplacee rejeter v = record v {
    statut = StatutVersion.ouvert;
    commentaire_rejet = some motif;
    date_rejet = some now;
    utilisateur_rejet = some user.email;
    commentaire_soumission = none;
    date_soumission = none;
    utilisateur_soumission = none;
  }
  deplacee publier v = record v {
    statut = StatutVersion.gele;
    commentaire_publication = commentaire;
    date_gel = some now;
    utilisateur_gel = some user.email;
  }

  deplacee-same :
      (t : Transition) (v : DimVersion)
      → ((deplacee t v).id ≡ v.id)
        × ((deplacee t v).statut ≡ target t)
        × ((deplacee t v).code_version ≡ v.code_version)
        × ((deplacee t v).type_version ≡ v.type_version)
        × ((deplacee t v).exercice_fiscal ≡ v.exercice_fiscal)
  deplacee-same soumettre v = (refl, refl, refl, refl, refl)
  deplacee-same valider v = (refl, refl, refl, refl, refl)
  deplacee-same rejeter v = (refl, refl, refl, refl, refl)
  deplacee-same publier v = (refl, refl, refl, refl, refl)

  abbrev ligne_audit : Transition → DimVersion → AuditLog
  ligne_audit t v = record {
    utilisateur = user.email;
    type_action = code_audit v.type_version t;
    cible = Cible.dim_version v.id;
    payload_apres =
        Payload.transition_version v.code_version (source t) (target t) (texte t)
          (permissions.delegation_context_pour user.user_id (permission_of t));
  }

  abbrev apres : Transition → DimVersion → Db → Db
  apres t v db = record db {
    versions = update_where (version_has_id v.id) (λ _. deplacee t v) db.versions;
    audit = db.audit ++ (ligne_audit t v ∷ []);
    events =
        db.events
        ++ (Event.budget (event_of t) v.id v.code_version user.email user.user_id (texte t) ∷ []);
  }

  apres-HasMoved :
      (t : Transition) (db : Db) (v : DimVersion) → HasMoved t db v (deplacee t v) (apres t v db)
  apres-HasMoved t db v =
      let (i, a, c, k, e) = deplacee-same t v in
      record {
        same_id = i;
        at_target = a;
        same_code = c;
        same_type = k;
        same_exercice = e;
        stored = refl;
        centres_kept = refl;
        statuts_kept = refl;
        attendus_kept = refl;
        lignes_kept = refl;
        scenarios_kept = refl;
        audited = refl;
        emitted = refl;
      }

  executer-runs :
      (t : Transition) (db : Db) (v : DimVersion)
      → IsAllowed id t db v
      → executer t db ≡ (ok (deplacee t v), apres t v db)
  unfolding soumettre_version valider_version rejeter_version publier_version
  executer-runs soumettre db v a = ground (arith, a.not_empty refl)
  executer-runs _ db v a = ground arith

  -- A transition that returns has stored the version at its target, under its identifier, code,
  -- type and fiscal year, has added one audit line with the states before and after and the
  -- delegation, and one event, and has left the rows of all other tables as they were.
  pub executer-HasMoved :
      (t : Transition) (db : Db) (v v' : DimVersion)
      → find_one (version_has_id id) db.versions ≡ some v
      → (executer t db).0 ≡ ok v'
      → HasMoved t db v v' (executer t db).1
  executer-HasMoved t db v v' e h =
      let a = success-IsAllowed t db e (rw h refl) in
      let runs = executer-runs t db v a in
      let moved : deplacee t v ≡ v' = ground (arith, h, runs) in
      rw runs (subst (λ w. HasMoved t db v w (apres t v db)) moved (apres-HasMoved t db v))

  allowed_succeeds :
      (t : Transition) (db : Db) (v : DimVersion)
      → IsAllowed id t db v
      → is_ok (executer t db).0 ≡ true
  allowed_succeeds t db v h = rw (executer-runs t db v h) refl

  -- A transition returns exactly when its version exists, stands in the state that the diagram
  -- asks for, is no obsolete reforecast and, for a submission, has a budget line.
  pub executer_iff_IsAllowed :
      (t : Transition) (db : Db)
      → (is_ok (executer t db).0 ≡ true) ↔ ((v : DimVersion) × IsAllowed id t db v)
  executer_iff_IsAllowed t db = (
    λ h. elim (Option-cases (find_one (version_has_id id) db.versions)) [
      | inl e ↦ cc (missing_fails t db e)
      | inr (v, e) ↦ (v, success-IsAllowed t db e h)
    ],
    λ (v, a). allowed_succeeds t db v a,
  )
