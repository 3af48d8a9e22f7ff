-- ===== src/Auth/Garde.antt =====
-- auth/auth.service.ts and auth/guards/password-expired.guard.ts: which access tokens the guard stops.
use budget_backend.Base.{
  ℕ, String, ◌≡◌, ◌≢◌, refl, Option, none, some, true, false, arith, ok, ◌&&◌, ◌||◌, find_one,
  Result-cases, inl, inr,
}
use budget_backend.Auth.Store.{User, Store, refresh_has_hash}
use budget_backend.Auth.Sessions.{
  flags_of, save_user, issue_tokens, connecter, login, validate_user, refresh,
}
use budget_backend.Auth.Tokens.{
  Crypto, Config, IssuedTokens, LoginResult, garde, is_mdp_expire, is_mdp_expire_prochainement,
}
use budget_backend.Auth.Jetons.{issue_tokens-ok, rafraichir-mort}

exclusive :
    (now : ℕ) (date : Option ℕ)
    → (is_mdp_expire now date && is_mdp_expire_prochainement now date) ≡ false
exclusive now none = refl
exclusive now (some date) = ground arith

module _ (crypto : Crypto) (config : Config) where
  connecter-flags :
      (now : ℕ) (uuid email : String) (who : Option User) (db : Store) {r : LoginResult}
      → (connecter crypto config now uuid email who db).0 ≡ ok r
      → (r.tokens.access_token.flags.mdp_expire ≡ r.mdp_expire)
        × (r.tokens.access_token.flags.doit_changer_mdp ≡ r.doit_changer_mdp)
        × ((r.mdp_expire && r.mdp_expire_prochainement) ≡ false)
  connecter-flags now uuid email none db {r = r} e = cc
  connecter-flags now uuid email (some user) db {r = r} e =
      let connected : User = record user { date_derniere_connexion = some now } in
      let saved = (save_user connected db).1 in
      let flags = flags_of crypto config now user in
      elim (Result-cases (issue_tokens crypto config now uuid connected flags saved).0) [
        | inr (x, failed) ↦ ground arith
        | inl (new, went) ↦ ground (
          arith,
          issue_tokens-ok crypto config now uuid connected flags saved {tokens = new} went,
          exclusive now user.date_expiration_mdp,
        )
      ]

  -- A login tells that a password is expired or that it will be soon, never both. Where it tells that
  -- the password is expired or must be changed, the guard stops its access token on an ordinary
  -- route; but the access token that any refresh gives, also the one by this login's refresh token,
  -- passes the guard, whatever the state of the password.
  pub login-garde :
      (now later : ℕ) (uuid uuid' email mot_de_passe : String) (db db' : Store) {r : LoginResult}
      {tokens : IssuedTokens}
      → (login crypto config now uuid email mot_de_passe db).0 ≡ ok r
      → (r.doit_changer_mdp || r.mdp_expire) ≡ true
      → (refresh crypto config later uuid' r.tokens.refresh_token db').0 ≡ ok tokens
      → ((r.mdp_expire && r.mdp_expire_prochainement) ≡ false)
        × (garde false false r.tokens.access_token ≢ none)
        × (garde false false tokens.access_token ≡ none)
  unfolding login refresh
  login-garde now later uuid uuid' email mot_de_passe db db' {r = r} {tokens = tokens} e flagged
        e' =
      let (expire, change, once) =
        connecter-flags now uuid email (validate_user crypto config email mot_de_passe db) db
          {r = r} e in
      let h = crypto.hash_token r.tokens.refresh_token in
      let (clean, dead) =
        rafraichir-mort crypto config h later uuid'
          (find_one (refresh_has_hash h) db'.refresh_tokens) db' {tokens = tokens} refl e' in
      (once, λ passes. ground arith, ground arith)
