-- ===== src/Entities.antt =====
-- The database of the budget workflow, what its services throw, and the calls that they share.
pub mod Version
pub mod Centre
pub mod Ligne
pub mod Journal
use budget_backend.Base.{
  ℕ, String, Option, List, [], ◌∷◌, ◌++◌, Service, pure, gets, or_throw, modify, transaction, ◌>>=◌,
  find_one,
}
use Version.{DimVersion, DimScenario, StatutVersion, version_has_id}
use Centre.{DimCentre, CrStatut, CrAttendu, StatutCr}
use Ligne.{LigneBudget}
use Journal.{AuditLog, TypeAction, Cible, Payload, Event}

pub record Db : Type 0 where
  pub versions : List DimVersion
  pub scenarios : List DimScenario
  pub centres : List DimCentre
  pub statuts : List CrStatut
  pub attendus : List CrAttendu
  pub lignes : List LigneBudget
  pub audit : List AuditLog
  pub events : List Event
  -- the next identifier that the database generates
  pub prochain_id : ℕ

-- The NestJS exceptions, each with the cause that its message names.
pub data Erreur : Type 0 where
  version_introuvable cr_introuvable : Erreur
  statut_version : StatutVersion → Erreur
  reforecast_obsolete : Erreur
  version_vide cr_vide : Erreur
  code_version_existe : Erreur
  hors_perimetre : Erreur
  statut_cr : Option StatutCr → Erreur
  pas_le_validateur : Erreur
  cr_verrouille : StatutCr → Erreur
  absent_du_snapshot : Erreur
  cr_non_retirable_lignes : ℕ → Erreur
  cr_non_retirable_statut : StatutCr → Erreur
  version_non_ouverte : StatutVersion → Erreur
  version_referencee : Erreur
  -- budget input
  saisie_interdite : StatutVersion → Erreur
  cr_inactif scenario_introuvable scenario_archive : Erreur
  ligne_introuvable compte_introuvable grain_existant fk_inexistante : Erreur
  date_invalide depassement_numerique : Erreur
  fk_non_modifiable mode_incompatible encours_tie_incomplet compte_non_porteur : Erreur
  montant_sans_bascule : Erreur
  -- reforecast
  aucun_realise : Erreur

-- `AuthUser`, `AuthCaller`
pub record AuthUser : Type 0 where
  pub user_id : ℕ
  pub email : String

abbrev pub Call : Type 0 → Type 0
Call = Service Db Erreur

-- A rollback restores the tables; an event that was emitted stays emitted.
abbrev pub rollback : Db → Db → Db
rollback before after = record before { events = after.events }

abbrev pub in_transaction : {A : Type 0} → Call A → Call A
in_transaction = transaction rollback

-- `repo.findOne({ where: { id } })`, and the 404 when there is no such row
unfoldable pub find_version : ℕ → Call DimVersion
find_version id db = or_throw (find_one (version_has_id id) db.versions) version_introuvable db

-- `auditService.log(...)`
unfoldable pub log : AuthUser → TypeAction → Cible → Payload → Call (Unit {0})
log user action cible payload = modify (λ db. record db {
  audit =
      db.audit
      ++ (record {
        utilisateur = user.email;
        type_action = action;
        cible = cible;
        payload_apres = payload;
      }
          ∷ []);
})

-- `events.emit(...)`
unfoldable pub emit : Event → Call (Unit {0})
emit e = modify (λ db. record db { events = db.events ++ (e ∷ []) })
