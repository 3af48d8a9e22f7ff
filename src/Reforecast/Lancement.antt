-- ===== src/Reforecast/Lancement.antt =====
-- reforecast.service.ts: the lines of a reforecast, and `lancer`.
use budget_backend.Base.{
  ℕ, suc, ◌+◌, ◌-◌, ◌*◌, none, Bool, not, List, [], ◌∷◌, ◌++◌, map, ◌==◌, ◌&&◌, str_eq, pure, gets,
  require, modify, transaction, ◌>>=◌, ◌>>◌, find_all, any, count_where, ℤ, pos,
}
use budget_backend.Entities.{
  Db, AuthUser, Call, find_version, log, scenario_introuvable, statut_version, aucun_realise,
  code_version_existe,
}
use budget_backend.Entities.Version.{DimVersion, MethodeExtrapolation, moyenne_trimestre, is_gele}
use budget_backend.Entities.Ligne.{LigneBudget, ModeSaisie}
use budget_backend.Entities.Journal.{TypeAction, Cible, Payload}
use budget_backend.Budget.Lignes.{insert_ligne}
use budget_backend.Reforecast.Versions.{
  FaitRealise, Realise, LancerReforecastDto, is_actif_de, est_du_mois, nb_realises,
  nouvelle_version, marquer_obsoletes,
}

-- The lines of the source in the months from `debut` to `fin` of the year; no month is after the 12th.
abbrev lignes_source : Realise → LancerReforecastDto → ℕ → ℕ → List LigneBudget → List LigneBudget
lignes_source r dto debut fin = find_all (λ l.
    l.fk_version == dto.fk_version_source
    && l.fk_scenario == dto.fk_scenario_source
    && est_du_mois dto.annee_consolide debut fin r.temps l.fk_temps)

abbrev same_axes : LigneBudget → FaitRealise → Bool
same_axes l f =
    f.fk_centre_responsabilite == l.fk_centre
    && f.fk_compte == l.fk_compte
    && f.fk_ligne_metier == l.fk_ligne_metier
    && f.fk_devise == l.fk_devise

-- A line of the new version, on the keys of a line of the source
abbrev pub ligne_reforecast : ℕ → ℕ → AuthUser → ℤ → ℤ → LigneBudget → LigneBudget
ligne_reforecast version now user devise fcfa l = record l {
  fk_version = version;
  montant_devise = devise;
  montant_fcfa = fcfa;
  mode_saisie = ModeSaisie.montant;
  encours_moyen = none;
  tie = none;
  commentaire = none;
  date_creation = now;
  utilisateur_creation = user.email;
  date_modification = none;
  utilisateur_modification = none;
}

-- COALESCE(montant, 0) where no actual matches
abbrev ou_zero : List ℤ → List ℤ
ou_zero [] = pos 0 ∷ []
ou_zero (m ∷ ms) = m ∷ ms

-- LEFT JOIN: one amount for each actual that matches, or 0
abbrev montants_realises : Realise → LigneBudget → List ℤ
montants_realises r l = ou_zero (
    map (λ f. f.montant)
      (find_all (λ f. same_axes l f && f.fk_temps == l.fk_temps && f.est_valide) r.realises))

abbrev concat_map : {A B : Type 0} → (A → List B) → List A → List B
concat_map f [] = []
concat_map f (a ∷ xs) = f a ++ concat_map f xs

-- The actuals of the quarter that the average of a line is made of
abbrev du_trimestre : Realise → LancerReforecastDto → LigneBudget → List ℤ
du_trimestre r dto l =
    map (λ f. f.montant)
      (find_all
        (λ f.
          same_axes l f
          && f.est_valide
          && est_du_mois dto.annee_consolide ((dto.trimestre_consolide - 1) * 3 + 1)
              (dto.trimestre_consolide * 3) r.temps f.fk_temps)
        r.realises)

-- `moyMap.get(...) ?? 0`
abbrev moyenne_de : Realise → List ℤ → ℤ
moyenne_de r [] = pos 0
moyenne_de r (m ∷ ms) = r.tiers_de_somme (m ∷ ms)

-- The two amounts of a future month
abbrev montants_futurs : Realise → LancerReforecastDto → MethodeExtrapolation → LigneBudget → ℤ × ℤ
montants_futurs r dto MethodeExtrapolation.budget_initial l = (l.montant_devise, l.montant_fcfa)
montants_futurs r dto MethodeExtrapolation.manuelle l = (pos 0, pos 0)
montants_futurs r dto moyenne_trimestre l =
    (moyenne_de r (du_trimestre r dto l), moyenne_de r (du_trimestre r dto l))

-- The rows of both insertions of `genererLignes`, before they get their numbers
unfoldable pub lignes_generees :
    Realise → LancerReforecastDto → ℕ → ℕ → AuthUser → List LigneBudget → List LigneBudget
lignes_generees r dto version now user lignes =
    concat_map (λ l. map (λ m. ligne_reforecast version now user m m l) (montants_realises r l))
      (lignes_source r dto 0 (dto.trimestre_consolide * 3) lignes)
    ++ map
        (λ l.
          let (devise, fcfa) = montants_futurs r dto dto.methode_extrapolation l in
          ligne_reforecast version now user devise fcfa l)
        (lignes_source r dto (dto.trimestre_consolide * 3 + 1) 12 lignes)

-- `INSERT INTO fait_budget`, row by row
unfoldable pub insert_lignes : List LigneBudget → Call (Unit {0})
insert_lignes [] = pure tt
insert_lignes (l ∷ ls) =
    (λ db. insert_ligne (record l { id = db.prochain_id }) db) >> insert_lignes ls

-- `genererLignes`: the number of lines of the new version
unfoldable pub generer_lignes : Realise → LancerReforecastDto → ℕ → ℕ → AuthUser → Call ℕ
generer_lignes r dto version now user = do
  rows ← gets (λ db. lignes_generees r dto version now user db.lignes)
  insert_lignes rows
  gets (λ db. count_where (λ l. l.fk_version == version) db.lignes)

-- The checks of `lancer`; they give the numbers of the reforecasts to replace.
unfoldable pub reforecasts_a_remplacer : Realise → LancerReforecastDto → Call (List ℕ)
unfolding find_version
reforecasts_a_remplacer r dto = do
  source ← find_version dto.fk_version_source
  require (is_gele source.statut) (statut_version source.statut)
  scenario ← gets (λ db. any (λ s. s.id == dto.fk_scenario_source) db.scenarios)
  require scenario scenario_introuvable
  require (not (nb_realises r dto == 0)) aucun_realise
  gets (λ db. map (λ v. v.id) (find_all (is_actif_de dto) db.versions))

-- `INSERT INTO dim_version`, under the unique index uq_dim_version_code
unfoldable pub insert_reforecast : ℕ → AuthUser → LancerReforecastDto → Call ℕ
insert_reforecast now user dto db =
    let v = nouvelle_version db.prochain_id now user dto in
    (do
      pris ← gets (λ d. any (λ w. str_eq w.code_version v.code_version) d.versions)
      require (not pris) code_version_existe
      modify (λ d. record d { versions = d.versions ++ (v ∷ []); prochain_id = suc d.prochain_id })
      pure v.id)
      db

-- A rollback keeps the lines of the audit trail: `auditService.log` is called without the manager of
-- the transaction and inserts on its own connection.
abbrev pub rollback_sauf_audit : Db → Db → Db
rollback_sauf_audit before after = record before { events = after.events; audit = after.audit }

-- `lancer` from the creation of the version on: the marks, the lines, the audit line, the answer
unfoldable pub remplacer :
    Realise → ℕ → LancerReforecastDto → AuthUser → List ℕ → ℕ → Call (DimVersion × ℕ)
unfolding find_version log
remplacer r now dto user anciens id = do
  marquer_obsoletes id now user anciens
  nb ← generer_lignes r dto id now user
  log user TypeAction.lancer_reforecast (Cible.dim_version id) (
      Payload.lancement dto.fk_version_source dto.fk_scenario_source dto.trimestre_consolide
        dto.annee_consolide dto.methode_extrapolation nb anciens)
  v ← find_version id
  pure (v, nb)

-- `lancer`; it returns the new version and the number of its lines.
unfoldable pub lancer : Realise → ℕ → LancerReforecastDto → AuthUser → Call (DimVersion × ℕ)
lancer r now dto user = transaction rollback_sauf_audit (do
  anciens ← reforecasts_a_remplacer r dto
  id ← insert_reforecast now user dto
  remplacer r now dto user anciens id)
