-- ===== src/Budget/Verrou.antt =====
-- Who may save a grid, and what a refused grid leaves.
use budget_backend.Base.{
  ℕ, ◌≡◌, some, true, false, ◌==◌, arith, ok, is_ok, find_one, every, ◌↔◌, Result-cases,
  Option-cases, inl, inr,
}
use budget_backend.Entities.{Db, AuthUser}
use budget_backend.Entities.Version.{
  DimVersion, StatutVersion, DimScenario, StatutScenario, version_has_id,
}
use budget_backend.Entities.Centre.{DimCentre, StatutCr}
use budget_backend.Interfaces.{PermissionsService, PerimetreService}
use budget_backend.CrWorkflow.Helpers.{
  assert_cr_modifiable, find_statut, is_autorise, statut_or_en_saisie,
}
use budget_backend.Budget.Referentiels.{Referentiels}
use budget_backend.Budget.Rapport.{GrilleEntree, rapport_vide}
use budget_backend.Budget.Grille.{ecrire_lignes, centre_a_saisir, save_grille_saisie}
use budget_backend.Budget.Acceptation.{is_ligne_entrable, ecrire_lignes-is_ok}

module _ (permissions : PermissionsService) (perimetre : PerimetreService) (ref : Referentiels)
    (now : ℕ) (dto : GrilleEntree) (user : AuthUser) (db : Db) where
  -- The centre is in the user's perimeter, current and active, its input is not submitted, the
  -- version is open and the scenario is not archived.
  pub record IsSaisissable (v : DimVersion) (c : DimCentre) (s : DimScenario) : Type 0 where
    pub autorise : is_autorise (perimetre.cr_autorises_pour_user user.user_id) dto.cr_id ≡ true
    pub version_found : find_one (version_has_id dto.version_id) db.versions ≡ some v
    pub ouverte : v.statut ≡ StatutVersion.ouvert
    pub centre_found : find_one (λ x. x.id == dto.cr_id) db.centres ≡ some c
    pub courant : c.version_courante ≡ true
    pub centre_actif : c.est_actif ≡ true
    pub scenario_found : find_one (λ x. x.id == dto.scenario_id) db.scenarios ≡ some s
    pub scenario_actif : s.statut ≡ StatutScenario.actif
    pub en_saisie :
        statut_or_en_saisie (find_statut dto.version_id dto.cr_id db) ≡ StatutCr.en_saisie

  pub centre_a_saisir-reads : (centre_a_saisir perimetre dto user db).1 ≡ db
  unfolding centre_a_saisir
  centre_a_saisir-reads = ground arith

  centre_a_saisir-ok :
      (v : DimVersion) (c : DimCentre) (s : DimScenario)
      → IsSaisissable v c s
      → centre_a_saisir perimetre dto user db ≡ (ok c, db)
  unfolding centre_a_saisir
  centre_a_saisir-ok v c s h = ground arith

  assert_cr_modifiable-ok :
      statut_or_en_saisie (find_statut dto.version_id dto.cr_id db) ≡ StatutCr.en_saisie
      → is_ok (assert_cr_modifiable dto.version_id dto.cr_id db).0 ≡ true
  unfolding assert_cr_modifiable
  assert_cr_modifiable-ok h = elim (Option-cases (find_statut dto.version_id dto.cr_id db)) [
    | inl absent ↦ ground arith
    | inr (s, found) ↦ ground arith
  ]

  assert_cr_modifiable-en_saisie :
      is_ok (assert_cr_modifiable dto.version_id dto.cr_id db).0 ≡ true
      → statut_or_en_saisie (find_statut dto.version_id dto.cr_id db) ≡ StatutCr.en_saisie
  unfolding assert_cr_modifiable
  assert_cr_modifiable-en_saisie h = elim (Option-cases (find_statut dto.version_id dto.cr_id db)) [
    | inl absent ↦ ground arith
    | inr (s, found) ↦ ground arith
  ]

  -- What a passed check shows, fact by fact
  module _ {c : DimCentre} (h : (centre_a_saisir perimetre dto user db).0 ≡ ok c) where
    passe-autorise : is_autorise (perimetre.cr_autorises_pour_user user.user_id) dto.cr_id ≡ true
    unfolding centre_a_saisir
    passe-autorise = ground (arith, h)

    passe-version :
        (v : DimVersion) × (find_one (version_has_id dto.version_id) db.versions ≡ some v)
        × (v.statut ≡ StatutVersion.ouvert)
    unfolding centre_a_saisir
    passe-version = elim (Option-cases (find_one (version_has_id dto.version_id) db.versions)) [
      | inl missing ↦ ground (arith, h)
      | inr (v, found) ↦ (v, found, ground (arith, h))
    ]

    passe-centre : find_one (λ x. x.id == dto.cr_id) db.centres ≡ some c
    unfolding centre_a_saisir
    passe-centre = ground (arith, h)

    passe-courant : c.version_courante ≡ true
    unfolding centre_a_saisir
    passe-courant = let found = passe-centre in ground (arith, h, found)

    passe-actif : c.est_actif ≡ true
    unfolding centre_a_saisir
    passe-actif = let found = passe-centre in ground (arith, h, found)

    passe-scenario :
        (s : DimScenario) × (find_one (λ x. x.id == dto.scenario_id) db.scenarios ≡ some s)
        × (s.statut ≡ StatutScenario.actif)
    unfolding centre_a_saisir
    passe-scenario = elim (Option-cases (find_one (λ x. x.id == dto.scenario_id) db.scenarios)) [
      | inl missing ↦ ground (arith, h)
      | inr (s, found) ↦ (s, found, ground (arith, h))
    ]

    centre_a_saisir-IsSaisissable :
        statut_or_en_saisie (find_statut dto.version_id dto.cr_id db) ≡ StatutCr.en_saisie
        → (v : DimVersion) × (s : DimScenario) × IsSaisissable v c s
    centre_a_saisir-IsSaisissable libre =
        let (v, v_found, ouverte) = passe-version in
        let (s, s_found, scenario_actif) = passe-scenario in
        (
          v,
          s,
          record {
            autorise = passe-autorise;
            version_found = v_found;
            ouverte = ouverte;
            centre_found = passe-centre;
            courant = passe-courant;
            centre_actif = passe-actif;
            scenario_found = s_found;
            scenario_actif = scenario_actif;
            en_saisie = libre;
          },
        )

  -- The transaction of `saveGrilleSaisie` for a grid that the database can take
  save_grille_saisie-is_ok :
      (v : DimVersion) (c : DimCentre) (s : DimScenario)
      → every (is_ligne_entrable ref) dto.lignes ≡ true
      → IsSaisissable v c s
      → is_ok (save_grille_saisie permissions perimetre ref now dto user db).0 ≡ true
  unfolding save_grille_saisie
  save_grille_saisie-is_ok v c s connus h =
      let checks = centre_a_saisir-ok v c s h in
      let lock = assert_cr_modifiable dto.version_id dto.cr_id db in
      let free = assert_cr_modifiable-ok h.en_saisie in
      let written =
        ecrire_lignes-is_ok ref dto c now user.email 0 dto.lignes rapport_vide lock.1 connus in
      elim (Result-cases lock.0) [
        | inr (x, failed) ↦ ground arith
        | inl (u, went) ↦
            elim (Result-cases
              (ecrire_lignes ref dto c now user.email 0 dto.lignes rapport_vide lock.1).0) [
                | inr (x, failed) ↦ ground arith
                | inl (r, done) ↦ ground (arith, checks)
              ]
      ]

  -- A grid whose lines of business exist, whose months are days of the calendar and whose amounts fit
  -- their columns is saved exactly when the centre is in the user's perimeter, current and active and
  -- its input is not submitted, the version is open and the scenario is not archived.
  pub save_grille_saisie_iff_IsSaisissable :
      every (is_ligne_entrable ref) dto.lignes ≡ true
      → (is_ok (save_grille_saisie permissions perimetre ref now dto user db).0 ≡ true)
        ↔ ((v : DimVersion) × (c : DimCentre) × (s : DimScenario) × IsSaisissable v c s)
  unfolding save_grille_saisie
  save_grille_saisie_iff_IsSaisissable connus = (
    λ h. elim (Result-cases (centre_a_saisir perimetre dto user db).0) [
      | inr (x, failed) ↦ ground arith
      | inl (c, checked) ↦
          let reads = centre_a_saisir-reads in
          let free : is_ok (assert_cr_modifiable dto.version_id dto.cr_id db).0 ≡ true =
            elim (Result-cases (assert_cr_modifiable dto.version_id dto.cr_id db).0) [
              | inl (u, went) ↦ ground arith
              | inr (x, failed) ↦ ground (arith, reads)
            ] in
          let (v, s, all) =
            centre_a_saisir-IsSaisissable checked (assert_cr_modifiable-en_saisie free) in
          (v, c, s, all)
    ],
    λ (v, c, s, h). save_grille_saisie-is_ok v c s connus h,
  )

  -- A grid that is refused leaves the budget lines, the statuses of the centres and the audit trail
  -- as they were.
  pub save_grille_saisie-refusee :
      is_ok (save_grille_saisie permissions perimetre ref now dto user db).0 ≡ false
      → ((save_grille_saisie permissions perimetre ref now dto user db).1.lignes ≡ db.lignes)
        × ((save_grille_saisie permissions perimetre ref now dto user db).1.statuts ≡ db.statuts)
        × ((save_grille_saisie permissions perimetre ref now dto user db).1.audit ≡ db.audit)
  unfolding save_grille_saisie
  save_grille_saisie-refusee h =
      let reads = centre_a_saisir-reads in
      let checks = centre_a_saisir perimetre dto user db in
      elim (Result-cases checks.0) [
        | inr (x, failed) ↦ (ground (arith, reads), ground (arith, reads), ground (arith, reads))
        | inl (c, checked) ↦
            let lock = assert_cr_modifiable dto.version_id dto.cr_id checks.1 in
            elim (Result-cases lock.0) [
              | inr (x, failed) ↦
                  (ground (arith, reads), ground (arith, reads), ground (arith, reads))
              | inl (u, went) ↦
                  elim (Result-cases
                    (ecrire_lignes ref dto c now user.email 0 dto.lignes rapport_vide lock.1).0) [
                      | inr (x, failed) ↦
                          (ground (arith, reads), ground (arith, reads), ground (arith, reads))
                      | inl (r, done) ↦ ground arith
                    ]
            ]
      ]
