-- ===== src/Access/Adossement.antt =====
-- The active rows that delegations add to user_perimetres stand on active delegations, whatever calls
-- follow one another.
use budget_backend.Base.{
  ℕ, suc, String, ◌≡◌, refl, Option, none, some, Bool, true, List, [], ◌∷◌, ◌++◌, arith, find_one,
  find_all, any, Bool-cases, Option-cases, Result-cases, inl, inr, length,
}
use budget_backend.Access.Store.{
  UserPerimetre, Delegation, Store, delegation_has_id, Erreur, user_has_id,
}
use budget_backend.Access.Calls.{Caller, is_doublon}
use budget_backend.Access.Delegations.{
  CreerDelegationDto, nouvelle_delegation, miroir, creer_miroirs, ecrire_delegation, creer_sauf,
  creer_delegation, sources, refus_creation, warnings, is_chevauchante,
}
use budget_backend.Access.Extinction.{
  revoquee, revoquer, expiree, expirer_une, expirer_toutes, expirer_automatiquement, is_a_expirer,
  auteur_cron,
}
use budget_backend.Access.AdossementRappel.{are_adosses-notifier_j3}
use budget_backend.Access.Affectations.{
  CreerAffectationPerimetreInput, nouvelle_affectation, ecrire_affectation, creer_affectation,
  retirer_affectation, is_perimetre_of, is_cible_coherente, is_cible_trouvee, is_date_fin_possible,
  or_else_date,
}
use budget_backend.Access.RolePermissions.{ajouter_permission, retirer_permission}
use budget_backend.Access.Requests.{Requete, Demande, executer, run_acces}
use budget_backend.Access.Miroirs.{
  is_source_of, is_adosse, are_adosses, every-append, any-append, adosses-append, adosses-fin,
  adosses-retirer,
}

-- The state after the insertion of the row of `creer_miroirs`
abbrev avec : UserPerimetre → Store → Store
avec p db = record db {
  user_perimetres = db.user_perimetres ++ (p ∷ []);
  prochain_id = suc db.prochain_id;
}

are_adosses-creer_miroirs :
    (d : Delegation) (ps : List UserPerimetre) (db : Store)
    → ((id : ℕ) (p : UserPerimetre) → any (is_source_of (miroir d id p) d.id) db.delegations ≡ true)
    → are_adosses db ≡ true
    → are_adosses (creer_miroirs d ps db).1 ≡ true
are_adosses-creer_miroirs d [] db source h = h
are_adosses-creer_miroirs d (p ∷ ps) db source h =
    let rest = are_adosses-creer_miroirs d ps (avec (miroir d db.prochain_id p) db) source (
      ground (
        arith,
        every-append (is_adosse db.delegations) db.user_perimetres (miroir d db.prochain_id p ∷ []),
        source db.prochain_id p,
      )) in
    elim (Bool-cases (any (is_doublon (miroir d db.prochain_id p)) db.user_perimetres)) [
      | inl taken ↦ ground arith
      | inr free ↦ ground arith
    ]

abbrev avec_delegation : Delegation → Store → Store
avec_delegation d db = record db {
  delegations = db.delegations ++ (d ∷ []);
  prochain_id = suc db.prochain_id;
}

are_adosses-ecrire :
    (dto : CreerDelegationDto) (user : Caller) (ps : List UserPerimetre) (nb : ℕ) (db : Store)
    → are_adosses db ≡ true
    → are_adosses (ecrire_delegation dto user ps nb db).1 ≡ true
are_adosses-ecrire dto user ps nb db h =
    let d = nouvelle_delegation db.prochain_id dto user in
    let kept =
      are_adosses-creer_miroirs d ps (avec_delegation d db)
        (λ id p.
          ground (arith, any-append (is_source_of (miroir d id p) d.id) db.delegations (d ∷ [])))
        (adosses-append db.delegations (d ∷ []) db.user_perimetres h) in
    elim (Result-cases (creer_miroirs d ps (avec_delegation d db)).0) [
      | inl (u, e) ↦ ground arith
      | inr (x, e) ↦ ground arith
    ]

are_adosses-creer_sauf :
    (refus : Option Erreur) (dto : CreerDelegationDto) (user : Caller) (db : Store)
    → are_adosses db ≡ true
    → are_adosses (creer_sauf refus dto user db).1 ≡ true
are_adosses-creer_sauf (some e) dto user db h = h
are_adosses-creer_sauf none dto user db h =
    let nb = length (warnings dto (find_all (is_chevauchante dto user.user_id) db.delegations)) in
    let kept = are_adosses-ecrire dto user (sources dto db) nb db h in
    elim (Result-cases (ecrire_delegation dto user (sources dto db) nb db).0) [
      | inl (d, e) ↦ ground arith
      | inr (x, e) ↦ ground arith
    ]

are_adosses-revoquer :
    (now id : ℕ) (motif : String) (user : Caller) (is_admin : Bool) (db : Store)
    → are_adosses db ≡ true
    → are_adosses (revoquer now id motif user is_admin db).1 ≡ true
unfolding revoquer
are_adosses-revoquer now id motif user is_admin db h =
    elim (Option-cases (find_one (delegation_has_id id) db.delegations)) [
      | inl missing ↦ ground arith
      | inr (d, found) ↦ ground (
        arith,
        adosses-fin now id user.email (revoquee now user motif) db.delegations db.user_perimetres,
      )
    ]

are_adosses-expirer_toutes :
    (now : ℕ) (ds : List Delegation) (db : Store)
    → are_adosses db ≡ true
    → are_adosses (expirer_toutes now ds db).1 ≡ true
are_adosses-expirer_toutes now [] db h = h
are_adosses-expirer_toutes now (d ∷ ds) db h =
    let kept = are_adosses-expirer_toutes now ds (expirer_une now d db).1 (
      adosses-fin now d.id auteur_cron (expiree now) db.delegations db.user_perimetres (λ e. refl)
        h) in
    elim (Result-cases (expirer_toutes now ds (expirer_une now d db).1).0) [
      | inl (nb, e) ↦ ground arith
      | inr (x, e) ↦ ground arith
    ]

are_adosses-ecrire_affectation :
    (p : UserPerimetre) (auteur : String) (db : Store)
    → p.delegation_id ≡ none
    → are_adosses db ≡ true
    → are_adosses (ecrire_affectation p auteur db).1 ≡ true
are_adosses-ecrire_affectation p auteur db own h =
    elim (Bool-cases (any (is_doublon p) db.user_perimetres)) [
      | inl taken ↦ ground arith
      | inr free ↦
          ground (arith, every-append (is_adosse db.delegations) db.user_perimetres (p ∷ []))
    ]

are_adosses-creer_affectation :
    (today user : ℕ) (dto : CreerAffectationPerimetreInput) (auteur : String) (db : Store)
    → are_adosses db ≡ true
    → are_adosses (creer_affectation today user dto auteur db).1 ≡ true
unfolding creer_affectation
are_adosses-creer_affectation today user dto auteur db h =
    let p = nouvelle_affectation db.prochain_id user today dto auteur in
    let kept = are_adosses-ecrire_affectation p auteur db refl h in
    ground (
      arith,
      Option-cases (find_one (user_has_id user) db.users),
      Bool-cases (is_cible_coherente dto.cible_type dto.cible_id dto.cible_cr_ids),
      Bool-cases (is_cible_trouvee db dto.cible_type dto.cible_id dto.cible_cr_ids),
      Bool-cases (is_date_fin_possible (or_else_date dto.date_debut today) dto.date_fin),
    )

are_adosses-retirer_affectation :
    (now user id : ℕ) (auteur : String) (db : Store)
    → are_adosses db ≡ true
    → are_adosses (retirer_affectation now user id auteur db).1 ≡ true
unfolding retirer_affectation
are_adosses-retirer_affectation now user id auteur db h =
    elim (Option-cases (find_one (is_perimetre_of id user) db.user_perimetres)) [
      | inl missing ↦ ground arith
      | inr (p, found) ↦
          ground (arith, adosses-retirer now id auteur db.delegations db.user_perimetres)
    ]

pub are_adosses-executer :
    (today now : ℕ) (r : Requete) (db : Store)
    → are_adosses db ≡ true
    → are_adosses (executer today now r db) ≡ true
unfolding creer_delegation expirer_automatiquement ajouter_permission retirer_permission
are_adosses-executer today now (Requete.deleguer dto user) db h =
    are_adosses-creer_sauf (refus_creation today dto user.user_id db) dto user db h
are_adosses-executer today now (Requete.revoquer_delegation id motif user is_admin) db h =
    are_adosses-revoquer now id motif user is_admin db h
are_adosses-executer today now Requete.expirer db h =
    are_adosses-expirer_toutes now (find_all (is_a_expirer today) db.delegations) db h
are_adosses-executer today now (Requete.rappeler_j3 dry_run) db h =
    are_adosses-notifier_j3 today now dry_run db h
are_adosses-executer today now (Requete.affecter user dto auteur) db h =
    are_adosses-creer_affectation today user dto auteur db h
are_adosses-executer today now (Requete.retirer user id auteur) db h =
    are_adosses-retirer_affectation now user id auteur db h
are_adosses-executer today now (Requete.ajouter_au_role role perm user motif) db h = ground arith
are_adosses-executer today now (Requete.retirer_du_role role perm user motif) db h = ground arith

-- Whatever calls to delegate, remind, revoke, expire, assign, withdraw and change a role follow,
-- every active row that a delegation added to user_perimetres has that delegation still active, with
-- the same delegate and the same dates, if this holds at the start.
pub run_acces-are_adosses :
    (ds : List Demande) (db : Store) → are_adosses db ≡ true → are_adosses (run_acces ds db) ≡ true
run_acces-are_adosses [] db h = h
run_acces-are_adosses (d ∷ ds) db h =
    run_acces-are_adosses ds (executer d.today d.now d.requete db)
      (are_adosses-executer d.today d.now d.requete db h)
