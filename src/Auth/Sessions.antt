-- ===== src/Auth/Sessions.antt =====
-- auth/auth.service.ts. What randomUUID and bcrypt's salt draw are arguments of the calls.
use budget_backend.Base.{
  ℕ, String, ◌+◌, ◌*◌, Option, none, some, Bool, true, false, pure, throw, gets, require, or_throw,
  modify, when, ◌>>=◌, ◌>>◌, ◌==◌, ◌&&◌, not, ltb, str_eq, find_one, update_where, if◌then◌else◌,
}
use budget_backend.Auth.Store.{
  User, MotifRevocation, motif_logout, motif_rotation, motif_forced, RefreshToken, TypeAction,
  identifiants_incorrects, utilisateur_introuvable, ancien_incorrect, mdp_identique,
  politique_violee, refresh_invalide, refresh_expire, Store, AuthCall, log, user_has_id,
  user_has_email, refresh_has_hash, insert_refresh,
}
use budget_backend.Auth.Politique.{unites, is_ok_politique}
use budget_backend.Auth.Tokens.{
  Config, Crypto, IssuedTokens, LoginResult, PasswordFlags, is_mdp_expire,
  is_mdp_expire_prochainement, ms_par_jour, sans_flags,
}

abbrev pub save_user : User → AuthCall (Unit {0})
save_user u = modify (λ db. record db { users = update_where (user_has_id u.id) (λ _. u) db.users })

abbrev pub is_revoque : RefreshToken → Bool
is_revoque t = elim t.date_revocation [ none ↦ false | some d ↦ true ]

abbrev pub revoque : ℕ → MotifRevocation → RefreshToken → RefreshToken
revoque now motif t = record t { date_revocation = some now; motif_revocation = some motif }

abbrev pub refresh_has_id : ℕ → RefreshToken → Bool
refresh_has_id id t = t.id == id

abbrev pub is_actif_of : ℕ → RefreshToken → Bool
is_actif_of user t = (t.fk_user == user) && not (is_revoque t)

abbrev pub revoke_all_active_tokens : ℕ → ℕ → MotifRevocation → AuthCall (Unit {0})
revoke_all_active_tokens now user motif = modify (λ db. record db {
  refresh_tokens = update_where (is_actif_of user) (revoque now motif) db.refresh_tokens;
})

abbrev pub nouveau_refresh : ℕ → ℕ → String → ℕ → RefreshToken
nouveau_refresh id user h expiration = record {
  id = id;
  fk_user = user;
  token_hash = h;
  date_expiration = expiration;
  date_revocation = none;
  motif_revocation = none;
}

-- `find_one` with the check that the account is active
abbrev pub actif : Option User → Option User
actif none = none
actif (some u) = if u.est_actif then some u else none

module _ (crypto : Crypto) (config : Config) where
  abbrev pub nouvelle_date_expiration : ℕ → ℕ
  nouvelle_date_expiration now = now + config.mdp_duree_validite_jours * ms_par_jour

  abbrev pub issue_tokens : ℕ → String → User → PasswordFlags → AuthCall IssuedTokens
  issue_tokens now uuid user flags = do
    id ← gets (λ db. db.prochain_id)
    insert_refresh
        (nouveau_refresh id user.id (crypto.hash_token uuid) (now + config.refresh_expires_in_ms))
    pure (record {
      access_token = record { sub = user.id; email = user.email; flags = flags };
      refresh_token = uuid;
    })

  abbrev pub validate_user : String → String → Store → Option User
  validate_user email mot_de_passe db = elim (actif (find_one (user_has_email email) db.users)) [
    | none ↦ none
    | some u ↦ if crypto.bcrypt_compare mot_de_passe u.mot_de_passe_hash then some u else none
  ]

  abbrev pub flags_of : ℕ → User → PasswordFlags
  flags_of now u = record {
    mdp_expire = is_mdp_expire now u.date_expiration_mdp;
    doit_changer_mdp = u.doit_changer_mdp;
  }

  -- `login`, once the user is validated or not
  abbrev pub connecter : ℕ → String → String → Option User → AuthCall LoginResult
  connecter now uuid email none = do
    log (if str_eq email "" then "anonymous" else email) TypeAction.login_failed none false
    throw identifiants_incorrects
  connecter now uuid email (some user) = do
    let connected : User = record user { date_derniere_connexion = some now }
    save_user connected
    tokens ← issue_tokens now uuid connected (flags_of now user)
    log user.email TypeAction.login_ok (some user.id) true
    pure (record {
      tokens = tokens;
      user = connected;
      mdp_expire = is_mdp_expire now user.date_expiration_mdp;
      mdp_expire_prochainement = is_mdp_expire_prochainement now user.date_expiration_mdp;
      doit_changer_mdp = user.doit_changer_mdp;
    })

  unfoldable pub login : ℕ → String → String → String → AuthCall LoginResult
  login now uuid email mot_de_passe db =
      connecter now uuid email (validate_user email mot_de_passe db) db

  abbrev pub avec_mdp : ℕ → String → User → User
  avec_mdp now h user = record user {
    mot_de_passe_hash = h;
    date_expiration_mdp = some (nouvelle_date_expiration now);
    doit_changer_mdp = false;
    date_modification = some now;
    utilisateur_modification = some user.email;
  }

  -- The writes of `changerMdp`, with the new row, and its result
  abbrev pub ecrire_mdp : ℕ → String → User → AuthCall LoginResult
  ecrire_mdp now uuid user = do
    save_user user
    log user.email TypeAction.password_changed (some user.id) true
    tokens ← issue_tokens now uuid user sans_flags
    pure (record {
      tokens = tokens;
      user = user;
      mdp_expire = false;
      mdp_expire_prochainement = false;
      doit_changer_mdp = false;
    })

  unfoldable pub changer_mdp : ℕ → String → String → ℕ → String → String → AuthCall LoginResult
  changer_mdp now uuid sel user_id ancien nouveau db =
      (do
        user ← or_throw (actif (find_one (user_has_id user_id) db.users)) utilisateur_introuvable
        when (not (crypto.bcrypt_compare ancien user.mot_de_passe_hash))
            (log user.email TypeAction.password_changed (some user.id) false)
        require (crypto.bcrypt_compare ancien user.mot_de_passe_hash) ancien_incorrect
        require (not (str_eq ancien nouveau)) mdp_identique
        require (is_ok_politique (unites nouveau)) politique_violee
        ecrire_mdp now uuid (avec_mdp now (crypto.bcrypt_hash sel nouveau) user))
        db

  -- The new use of a token that was revoked
  abbrev pub refuser_revoque : ℕ → RefreshToken → AuthCall IssuedTokens
  refuser_revoque now t = do
    revoke_all_active_tokens now t.fk_user motif_forced
    log "system" TypeAction.refresh_forced_revocation (some t.id) false
    throw refresh_invalide

  -- The rotation of a token that was not revoked
  abbrev pub tourner : ℕ → String → RefreshToken → AuthCall IssuedTokens
  tourner now uuid t = do
    require (not (ltb t.date_expiration now)) refresh_expire
    found ← gets (λ db. actif (find_one (user_has_id t.fk_user) db.users))
    user ← or_throw found refresh_invalide
    modify (λ db. record db {
      refresh_tokens =
          update_where (refresh_has_id t.id) (revoque now motif_rotation) db.refresh_tokens;
    })
    tokens ← issue_tokens now uuid user sans_flags
    log user.email TypeAction.refresh_ok (some user.id) true
    pure tokens

  abbrev pub rafraichir : ℕ → String → Option RefreshToken → AuthCall IssuedTokens
  rafraichir now uuid none = throw refresh_invalide
  rafraichir now uuid (some t) = if is_revoque t then refuser_revoque now t else tourner now uuid t

  unfoldable pub refresh : ℕ → String → String → AuthCall IssuedTokens
  refresh now uuid clear db =
      rafraichir now uuid (find_one (refresh_has_hash (crypto.hash_token clear)) db.refresh_tokens)
        db

  abbrev pub is_actif_avec_hash : ℕ → String → RefreshToken → Bool
  is_actif_avec_hash user h t = refresh_has_hash h t && is_actif_of user t

  abbrev pub revoquer_un : ℕ → ℕ → String → AuthCall (Unit {0})
  revoquer_un now user clear = modify (λ db. record db {
    refresh_tokens =
        update_where (is_actif_avec_hash user (crypto.hash_token clear)) (revoque now motif_logout)
          db.refresh_tokens;
  })

  -- With a refresh token, that one; without, or with the empty string, all of the user's
  abbrev pub revoquer_a_la_sortie : ℕ → ℕ → Option String → AuthCall (Unit {0})
  revoquer_a_la_sortie now user none = revoke_all_active_tokens now user motif_logout
  revoquer_a_la_sortie now user (some clear) =
      if str_eq clear ""
      then revoke_all_active_tokens now user motif_logout
      else revoquer_un now user clear

  unfoldable pub logout : ℕ → ℕ → String → Option String → AuthCall (Unit {0})
  logout now user_id email clear = do
    revoquer_a_la_sortie now user_id clear
    log email TypeAction.logout_ok (some user_id) true
