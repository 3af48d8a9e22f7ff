-- ===== src/Reforecast/Versions.antt =====
-- reforecast.service.ts: the tables and the request, the new version, the older ones made obsolete.
use budget_backend.Base.{
  ℕ, ◌+◌, ◌-◌, ◌*◌, String, concat, decimal, Option, none, some, Bool, true, false, List, [], ◌∷◌,
  ◌==◌, ◌&&◌, leb, pure, modify, ◌>>◌, update_where, any, count_where, ℤ,
}
use budget_backend.Entities.{AuthUser, Call, log}
use budget_backend.Entities.Version.{
  DimVersion, StatutVersion, TypeVersion, StatutPublication, MethodeExtrapolation, reforecast,
}
use budget_backend.Entities.Journal.{TypeAction, Cible, Payload}
use budget_backend.Budget.Referentiels.{DimTemps}

-- `fait_realise`, as far as this service reads it
pub record FaitRealise : Type 0 where
  pub fk_centre_responsabilite : ℕ
  pub fk_compte : ℕ
  pub fk_ligne_metier : ℕ
  pub fk_devise : ℕ
  pub fk_temps : ℕ
  pub est_valide : Bool
  pub montant : ℤ

-- The tables that the service only reads, and how the database computes
-- `SUM(montant)::float / 3.0` and stores it as numeric(20,4).
pub record Realise : Type 0 where
  pub temps : List DimTemps
  pub realises : List FaitRealise
  pub tiers_de_somme : List ℤ → ℤ

-- `LancerReforecastDto`
pub record LancerReforecastDto : Type 0 where
  pub fk_version_source : ℕ
  pub fk_scenario_source : ℕ
  pub trimestre_consolide : ℕ
  pub annee_consolide : ℕ
  pub methode_extrapolation : MethodeExtrapolation
  pub libelle_nouveau_version : String
  pub commentaire : Option String

abbrev pub same_option : Option ℕ → ℕ → Bool
same_option none n = false
same_option (some m) n = m == n

abbrev pub is_active : StatutPublication → Bool
is_active StatutPublication.active = true
is_active StatutPublication.obsolete = false

abbrev pub is_reforecast : TypeVersion → Bool
is_reforecast reforecast = true
is_reforecast _ = false

-- The query for the reforecasts that the new one replaces
abbrev pub is_actif_de : LancerReforecastDto → DimVersion → Bool
is_actif_de dto v =
    is_reforecast v.type_version
    && is_active v.statut_publication
    && same_option v.fk_version_source dto.fk_version_source
    && same_option v.fk_scenario_source dto.fk_scenario_source
    && same_option v.trimestre_consolide dto.trimestre_consolide
    && same_option v.annee_consolide dto.annee_consolide

abbrev pub est_du_mois : ℕ → ℕ → ℕ → List DimTemps → ℕ → Bool
est_du_mois annee debut fin temps id =
    any (λ t. t.id == id && t.annee == annee && leb debut t.mois && leb t.mois fin) temps

-- `COUNT(*)` of the validated actuals of the quarter
abbrev pub nb_realises : Realise → LancerReforecastDto → ℕ
nb_realises r dto =
    count_where
      (λ f.
        f.est_valide
        && est_du_mois dto.annee_consolide ((dto.trimestre_consolide - 1) * 3 + 1)
            (dto.trimestre_consolide * 3) r.temps f.fk_temps)
      r.realises

-- `genererCodeVersion`
abbrev pub generer_code_version : ℕ → ℕ → ℕ → String
generer_code_version ts trimestre annee =
    concat "REFORECAST_T"
      (concat (decimal trimestre) (concat "_" (concat (decimal annee) (concat "_" (decimal ts)))))

abbrev pub nouvelle_version : ℕ → ℕ → AuthUser → LancerReforecastDto → DimVersion
nouvelle_version id now user dto = record {
  id = id;
  code_version = generer_code_version now dto.trimestre_consolide dto.annee_consolide;
  libelle = dto.libelle_nouveau_version;
  type_version = reforecast;
  exercice_fiscal = dto.annee_consolide;
  statut = StatutVersion.ouvert;
  date_gel = none;
  utilisateur_gel = none;
  commentaire = dto.commentaire;
  commentaire_soumission = none;
  commentaire_validation = none;
  commentaire_rejet = none;
  commentaire_publication = none;
  date_soumission = none;
  utilisateur_soumission = none;
  date_validation = none;
  utilisateur_validation = none;
  date_rejet = none;
  utilisateur_rejet = none;
  date_creation = now;
  utilisateur_creation = user.email;
  date_modification = none;
  utilisateur_modification = none;
  fk_version_source = some dto.fk_version_source;
  fk_scenario_source = some dto.fk_scenario_source;
  trimestre_consolide = some dto.trimestre_consolide;
  annee_consolide = some dto.annee_consolide;
  methode_extrapolation = some dto.methode_extrapolation;
  statut_publication = StatutPublication.active;
  date_obsolescence = none;
  fk_version_remplacante = none;
}

-- The columns of `marquerObsolete`
abbrev pub obsolete_par : ℕ → ℕ → AuthUser → DimVersion → DimVersion
obsolete_par remplacante now user v = record v {
  statut_publication = StatutPublication.obsolete;
  date_obsolescence = some now;
  fk_version_remplacante = some remplacante;
  date_modification = some now;
  utilisateur_modification = some user.email;
}

abbrev pub is_active_of : ℕ → DimVersion → Bool
is_active_of id v = v.id == id && is_active v.statut_publication

-- `marquerObsolete`
unfoldable pub marquer_obsolete : ℕ → ℕ → AuthUser → ℕ → Call (Unit {0})
unfolding log
marquer_obsolete remplacante now user id = do
  modify (λ db. record db {
    versions = update_where (is_active_of id) (obsolete_par remplacante now user) db.versions;
  })
  log user TypeAction.marquer_reforecast_obsolete (Cible.dim_version id)
      (Payload.obsolescence remplacante)

-- The loop over the older reforecasts
unfoldable pub marquer_obsoletes : ℕ → ℕ → AuthUser → List ℕ → Call (Unit {0})
marquer_obsoletes remplacante now user [] = pure tt
marquer_obsoletes remplacante now user (id ∷ ids) =
    marquer_obsolete remplacante now user id >> marquer_obsoletes remplacante now user ids
