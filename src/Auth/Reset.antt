-- ===== src/Auth/Reset.antt =====
-- auth/password-reset.service.ts: the link by mail for a forgotten password, its use, and the daily
-- deletion of old links. The key of an e-mail (trimmed, in lower case) is the argument `cle_email`.
use budget_backend.Base.{
  ℕ, suc, String, ◌+◌, ◌*◌, Option, none, some, Bool, true, false, [], ◌∷◌, ◌++◌, ok, pure, throw,
  gets, require, or_throw, modify, when, ◌>>=◌, ◌>>◌, ◌==◌, not, ltb, str_eq, find_one,
  update_where, delete_where, count_where, if◌then◌else◌,
}
use budget_backend.Auth.Store.{
  User, PasswordResetToken, TypeAction, politique_violee, reset_invalide, reset_expire, AuthCall,
  log, in_transaction, user_has_id, user_has_email, reset_has_hash, insert_reset,
}
use budget_backend.Auth.Politique.{unites, is_ok_politique}
use budget_backend.Auth.Sessions.{actif, save_user, nouvelle_date_expiration}
use budget_backend.Auth.Tokens.{Crypto, Config, ms_par_jour}

abbrev pub token_duree_minutes : ℕ
token_duree_minutes = 30

abbrev pub token_retention_jours : ℕ
token_retention_jours = 30

abbrev pub nouveau_token : ℕ → ℕ → String → ℕ → PasswordResetToken
nouveau_token id user h expiration = record {
  id = id;
  fk_user = user;
  token = h;
  date_expiration = expiration;
  utilise = false;
  utilisateur_creation = "forgot-password";
  date_modification = none;
  utilisateur_modification = none;
}

-- The row of email_log, without the token in clear; its number.
abbrev pub insert_email : User → AuthCall ℕ
insert_email user db = (
  ok db.prochain_id,
  record db {
    email_log =
        db.email_log
        ++ (record {
          id = db.prochain_id;
          fk_destinataire = user.id;
          destinataire_email = user.email;
          expiration_minutes = token_duree_minutes;
        }
            ∷ []);
    prochain_id = suc db.prochain_id;
  },
)

abbrev pub publier : ℕ → String → AuthCall (Unit {0})
publier id token = modify (λ db. record db { publies = db.publies ++ ((id, token) ∷ []) })

abbrev pub or_anonyme : String → String
or_anonyme email = if str_eq email "" then "anonymous" else email

abbrev pub utiliser : ℕ → PasswordResetToken → PasswordResetToken
utiliser now t = record t {
  utilise = true;
  date_modification = some now;
  utilisateur_modification = some "reset-password-self-service";
}

abbrev pub reset_has_id : ℕ → PasswordResetToken → Bool
reset_has_id id t = t.id == id

module _ (crypto : Crypto) (config : Config) where
  -- The two ways of `demanderReset`, which answer the same
  abbrev pub envoyer_lien : ℕ → String → String → Option User → AuthCall (Unit {0})
  envoyer_lien now uuid email none =
      log (or_anonyme email) TypeAction.demande_reset_mdp_inconnu none false
  envoyer_lien now uuid email (some user) = do
    mail ← in_transaction (do
      id ← gets (λ db. db.prochain_id)
      insert_reset
          (nouveau_token id user.id (crypto.hash_token uuid) (now + token_duree_minutes * 60_000))
      mail ← insert_email user
      log user.email TypeAction.demande_reset_mdp_user (some user.id) true
      pure mail)
    publier mail uuid

  unfoldable pub demander_reset : (String → String) → ℕ → String → String → AuthCall (Unit {0})
  demander_reset cle_email now uuid email db =
      envoyer_lien now uuid (cle_email email)
        (actif (find_one (user_has_email (cle_email email)) db.users)) db

  abbrev pub reinitialise : ℕ → String → User → User
  reinitialise now h user = record user {
    mot_de_passe_hash = h;
    doit_changer_mdp = false;
    date_expiration_mdp = some (nouvelle_date_expiration crypto config now);
    date_modification = some now;
    utilisateur_modification = some "reset-password-self-service";
  }

  -- The writes of `executerReset`
  abbrev pub ecrire_reset : ℕ → String → PasswordResetToken → User → AuthCall (Unit {0})
  ecrire_reset now h t user = in_transaction (do
    save_user (reinitialise now h user)
    modify (λ db. record db {
      reset_tokens = update_where (reset_has_id t.id) (utiliser now) db.reset_tokens;
    })
    log user.email TypeAction.reset_mdp_user_valide (some user.id) true)

  -- `executerReset` with the row of the token. The foreign key of the row always leads to a user.
  abbrev pub appliquer_reset : ℕ → String → String → Option PasswordResetToken → AuthCall (Unit {0})
  appliquer_reset now sel nouveau none = throw reset_invalide
  appliquer_reset now sel nouveau (some t) = if t.utilise then throw reset_invalide else do
    require (not (ltb t.date_expiration now)) reset_expire
    require (is_ok_politique (unites nouveau)) politique_violee
    found ← gets (λ db. find_one (user_has_id t.fk_user) db.users)
    user ← or_throw found reset_invalide
    ecrire_reset now (crypto.bcrypt_hash sel nouveau) t user

  unfoldable pub executer_reset : ℕ → String → String → String → AuthCall (Unit {0})
  executer_reset now sel clair nouveau db =
      appliquer_reset now sel nouveau
        (find_one (reset_has_hash (crypto.hash_token clair)) db.reset_tokens) db

-- `date_expiration < now - 30 days`
abbrev pub is_vieux : ℕ → PasswordResetToken → Bool
is_vieux now t = ltb (t.date_expiration + token_retention_jours * ms_par_jour) now

unfoldable pub nettoyer_tokens_expires : ℕ → AuthCall ℕ
nettoyer_tokens_expires now = do
  supprimes ← gets (λ db. count_where (is_vieux now) db.reset_tokens)
  modify (λ db. record db { reset_tokens = delete_where (is_vieux now) db.reset_tokens })
  when (ltb 0 supprimes) (log "system (cron)" TypeAction.nettoyage_reset_tokens none true)
  pure supprimes
