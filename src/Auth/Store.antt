-- ===== src/Auth/Store.antt =====
-- The rows and the calls behind auth/auth.service.ts and auth/password-reset.service.ts: the columns
-- of users/entities/user.entity.ts that they use, auth/entities/refresh-token.entity.ts,
-- auth/entities/password-reset-token.entity.ts, the mail that waits (notifications/entities,
-- email_log), the audit lines, and what the calls throw. Address and browser of a request are left out.
use budget_backend.Base.{
  ℕ, suc, String, Option, Bool, true, false, List, [], ◌∷◌, ◌++◌, Service, modify, throw,
  transaction, any, str_eq, ◌==◌, pure,
}

pub record User : Type 0 where
  pub id : ℕ
  pub email : String
  pub mot_de_passe_hash : String
  pub est_actif : Bool
  pub date_derniere_connexion : Option ℕ
  pub date_expiration_mdp : Option ℕ
  pub doit_changer_mdp : Bool
  pub date_modification : Option ℕ
  pub utilisateur_modification : Option String

pub data MotifRevocation : Type 0 where
  motif_logout motif_rotation motif_forced : MotifRevocation

pub record RefreshToken : Type 0 where
  pub id : ℕ
  pub fk_user : ℕ
  pub token_hash : String
  pub date_expiration : ℕ
  pub date_revocation : Option ℕ
  pub motif_revocation : Option MotifRevocation

pub record PasswordResetToken : Type 0 where
  pub id : ℕ
  pub fk_user : ℕ
  pub token : String
  pub date_expiration : ℕ
  pub utilise : Bool
  pub utilisateur_creation : String
  pub date_modification : Option ℕ
  pub utilisateur_modification : Option String

pub record EmailLog : Type 0 where
  pub id : ℕ
  pub fk_destinataire : ℕ
  pub destinataire_email : String
  pub expiration_minutes : ℕ

pub data TypeAction : Type 0 where
  login_ok login_failed password_changed refresh_ok refresh_forced_revocation logout_ok : TypeAction
  demande_reset_mdp_inconnu demande_reset_mdp_user reset_mdp_user_valide : TypeAction
  nettoyage_reset_tokens : TypeAction

pub record AuditLog : Type 0 where
  pub utilisateur : String
  pub type_action : TypeAction
  pub id_cible : Option ℕ
  pub success : Bool

pub data Erreur : Type 0 where
  identifiants_incorrects utilisateur_introuvable ancien_incorrect mdp_identique : Erreur
  politique_violee refresh_invalide refresh_expire reset_invalide reset_expire : Erreur
  violation_unicite : Erreur

pub record Store : Type 0 where
  pub users : List User
  pub refresh_tokens : List RefreshToken
  pub reset_tokens : List PasswordResetToken
  pub email_log : List EmailLog
  pub audit_log : List AuditLog
  -- the mails handed to the queue: the row of email_log and the token in clear
  pub publies : List (ℕ × String)
  pub prochain_id : ℕ

abbrev pub AuthCall : Type 0 → Type 0
AuthCall A = Service Store Erreur A

abbrev pub log : String → TypeAction → Option ℕ → Bool → AuthCall (Unit {0})
log utilisateur action cible success = modify (λ db. record db {
  audit_log =
      db.audit_log
      ++ (record {
        utilisateur = utilisateur;
        type_action = action;
        id_cible = cible;
        success = success;
      }
          ∷ []);
})

-- A throw restores the tables; what the queue was given stays given.
abbrev pub in_transaction : {A : Type 0} → AuthCall A → AuthCall A
in_transaction =
    transaction
      (λ before after. record before { prochain_id = after.prochain_id; publies = after.publies })

abbrev pub user_has_id : ℕ → User → Bool
user_has_id id u = u.id == id

abbrev pub user_has_email : String → User → Bool
user_has_email email u = str_eq u.email email

abbrev pub refresh_has_hash : String → RefreshToken → Bool
refresh_has_hash h t = str_eq t.token_hash h

abbrev pub reset_has_hash : String → PasswordResetToken → Bool
reset_has_hash h t = str_eq t.token h

-- `save` of a new row under the unique index on its hash
abbrev pub inserer_refresh : Bool → RefreshToken → AuthCall (Unit {0})
inserer_refresh true t db = throw violation_unicite (record db { prochain_id = suc db.prochain_id })
inserer_refresh false t db =
    pure tt (record db {
      refresh_tokens = db.refresh_tokens ++ (t ∷ []);
      prochain_id = suc db.prochain_id;
    })

abbrev pub insert_refresh : RefreshToken → AuthCall (Unit {0})
insert_refresh t db = inserer_refresh (any (refresh_has_hash t.token_hash) db.refresh_tokens) t db

abbrev pub inserer_reset : Bool → PasswordResetToken → AuthCall (Unit {0})
inserer_reset true t db = throw violation_unicite (record db { prochain_id = suc db.prochain_id })
inserer_reset false t db =
    pure tt
      (record db { reset_tokens = db.reset_tokens ++ (t ∷ []); prochain_id = suc db.prochain_id })

abbrev pub insert_reset : PasswordResetToken → AuthCall (Unit {0})
insert_reset t db = inserer_reset (any (reset_has_hash t.token) db.reset_tokens) t db
