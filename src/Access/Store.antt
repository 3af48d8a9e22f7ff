-- ===== src/Access/Store.antt =====
-- The tables behind a user's rights (users/entities, roles/entities, delegations/entities), the part
-- of the hierarchy of structures and centres that they point to, the audit lines and the events of
-- the services that write them, and what these services throw. A date is the number of its day.
use budget_backend.Base.{
  ℕ, String, Option, none, some, Bool, true, false, List, ◌==◌, ◌&&◌, leb, Service,
}

pub record User : Type 0 where
  pub id : ℕ
  pub email : String
  pub est_actif : Bool
  pub notifications_email_actives : Bool
  pub notifications_email_types : Option (List String)

pub record Role : Type 0 where
  pub id : ℕ
  pub code_role : String
  pub est_actif : Bool

pub record Permission : Type 0 where
  pub id : ℕ
  pub code_permission : String
  pub module_code : String

pub record RolePermission : Type 0 where
  pub id : ℕ
  pub fk_role : ℕ
  pub fk_permission : ℕ

pub data PerimetreType : Type 0 where
  global structure centre_responsabilite : PerimetreType

-- `bridge_user_role`
pub record UserRole : Type 0 where
  pub id : ℕ
  pub fk_user : ℕ
  pub fk_role : ℕ
  pub perimetre_type : Option PerimetreType
  pub perimetre_id : Option ℕ
  pub date_debut_validite : Option ℕ
  pub date_fin_validite : Option ℕ
  pub est_actif : Bool

pub data CiblePerimetreType : Type 0 where
  cible_structure cible_cr cible_cr_set cible_global : CiblePerimetreType

pub data OriginePerimetre : Type 0 where
  principal affectation delegation : OriginePerimetre

-- A motive as a person wrote it, or the sentence that names a delegation, as its parts: the number
-- of the delegation, the e-mail of the delegant, the motive of the delegation.
pub data Motif : Type 0 where
  saisi : String → Motif
  de_delegation : ℕ → String → String → Motif

pub record UserPerimetre : Type 0 where
  pub id : ℕ
  pub fk_user : ℕ
  pub cible_type : CiblePerimetreType
  pub cible_id : Option ℕ
  pub cible_cr_ids : Option (List ℕ)
  pub origine : OriginePerimetre
  pub delegation_id : Option ℕ
  pub date_debut : ℕ
  pub date_fin : Option ℕ
  pub actif : Bool
  pub motif : Option Motif
  pub utilisateur_creation : String
  pub date_modification : Option ℕ
  pub utilisateur_modification : Option String

pub data PermissionDelegable : Type 0 where
  saisie soumission validation publication : PermissionDelegable

pub record Delegation : Type 0 where
  pub id : ℕ
  pub fk_delegant : ℕ
  pub fk_delegataire : ℕ
  pub perimetre_user_perimetre_ids : List ℕ
  pub permissions : List PermissionDelegable
  pub motif : String
  pub date_debut : ℕ
  pub date_fin : ℕ
  pub actif : Bool
  pub revoquee_le : Option ℕ
  pub fk_revoque_par : Option ℕ
  pub motif_revocation : Option String
  pub utilisateur_creation : String
  pub derniere_notification_j3 : Option ℕ
  pub date_modification : Option ℕ
  pub utilisateur_modification : Option String

-- dim_structure and dim_centre_responsabilite, as far as a perimeter reads them
pub record Structure : Type 0 where
  pub id : ℕ
  pub fk_structure_parent : Option ℕ
  pub version_courante : Bool
  pub est_actif : Bool

pub record Centre : Type 0 where
  pub id : ℕ
  pub fk_structure : ℕ
  pub version_courante : Bool
  pub est_actif : Bool

pub data TypeAction : Type 0 where
  creer_delegation revoquer_delegation expirer_delegation delegation_rappel_j3 : TypeAction
  creer_affectation retirer_affectation : TypeAction
  attribuer_permission retirer_permission : TypeAction

-- `idCible`, and the row whose columns the payload shows
pub data Payload : Type 0 where
  de_la_delegation : Delegation → (warnings : ℕ) (is_admin : Bool) → Payload
  du_perimetre : UserPerimetre → Payload
  du_role : Role → Permission → (motif : Option String) → Payload

pub record AuditLog : Type 0 where
  pub utilisateur : String
  pub type_action : TypeAction
  pub payload : Payload

pub data Event : Type 0 where
  delegation_created delegation_revoked delegation_expired : Delegation → Event
  affectation_created : UserPerimetre → Event

pub data MotifSuppression : Type 0 where
  pref_toggle_global_off pref_type_non_souscrit email_dry_run : MotifSuppression

-- A reminder about a delegation. It is EN_ATTENTE, or SUPPRIME with a reason.
pub record EmailLog : Type 0 where
  pub id : ℕ
  pub evenement : String
  pub fk_destinataire : ℕ
  pub destinataire_email : String
  pub delegation : ℕ
  pub suppression : Option MotifSuppression

pub data Erreur : Type 0 where
  soi_meme : Erreur
  delegataire_inactif dates_incoherentes perimetres_introuvables : Erreur
  permission_absente : PermissionDelegable → Erreur
  perimetre_etranger perimetre_inactif perimetre_futur perimetre_expire chaine : ℕ → Erreur
  delegation_introuvable delegation_inactive reserve_delegant : ℕ → Erreur
  aucun_role utilisateur_introuvable affectation_introuvable affectation_inactive : ℕ → Erreur
  cible_incoherente : CiblePerimetreType → Erreur
  cible_introuvable : CiblePerimetreType → Erreur
  affectation_existante violation_unicite : Erreur
  role_introuvable permission_introuvable lien_absent : ℕ → Erreur
  permission_verrouillee anti_lockout : String → Erreur

-- One counter gives the identifiers of all tables.
pub record Store : Type 0 where
  pub users : List User
  pub roles : List Role
  pub permissions : List Permission
  pub role_permissions : List RolePermission
  pub user_roles : List UserRole
  pub user_perimetres : List UserPerimetre
  pub delegations : List Delegation
  pub structures : List Structure
  pub centres : List Centre
  pub audit_log : List AuditLog
  pub events : List Event
  pub email_log : List EmailLog
  -- the rows of email_log handed to the queue
  pub publies : List ℕ
  pub prochain_id : ℕ

abbrev pub AccessCall : Type 0 → Type 0
AccessCall A = Service Store Erreur A

-- `date IS NULL OR date <= :today`, and `date IS NULL OR date >= :today`
abbrev pub is_null_or_before : ℕ → Option ℕ → Bool
is_null_or_before today none = true
is_null_or_before today (some date) = leb date today

abbrev pub is_null_or_after : ℕ → Option ℕ → Bool
is_null_or_after today none = true
is_null_or_after today (some date) = leb today date

abbrev pub user_has_id : ℕ → User → Bool
user_has_id id u = u.id == id

abbrev pub delegation_has_id : ℕ → Delegation → Bool
delegation_has_id id d = d.id == id

abbrev pub perimetre_has_id : ℕ → UserPerimetre → Bool
perimetre_has_id id p = p.id == id

-- `delegation_id = :id`
abbrev pub is_miroir_of : ℕ → UserPerimetre → Bool
is_miroir_of id p = elim p.delegation_id [ none ↦ false | some d ↦ d == id ]

-- Active rows at a day: `fkUser = :userId AND actif AND dateDebut <= :today AND ...`
abbrev pub is_perimetre_actif : ℕ → ℕ → UserPerimetre → Bool
is_perimetre_actif user today p =
    (p.fk_user == user) && p.actif && leb p.date_debut today && is_null_or_after today p.date_fin

-- `fk_delegataire = $1 AND actif AND date_debut <= $2 AND date_fin >= $2`
abbrev pub is_delegation_active : ℕ → ℕ → Delegation → Bool
is_delegation_active user today d =
    (d.fk_delegataire == user) && d.actif && leb d.date_debut today && leb today d.date_fin
