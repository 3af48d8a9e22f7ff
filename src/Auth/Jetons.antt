-- ===== src/Auth/Jetons.antt =====
-- auth/auth.service.ts: what a refresh token is good for.
use budget_backend.Base.{
  ℕ, String, ◌+◌, ◌≡◌, refl, Option, none, some, Bool, true, List, [], ◌∷◌, ◌++◌, arith, ok, err,
  ◌==◌, not, any, every, find_one, find_one_sound, find_one-update_where, update_where, Bool-cases,
  Option-cases, Result-cases, inl, inr, ==_refl,
}
use budget_backend.Auth.Store.{
  User, MotifRevocation, motif_rotation, motif_forced, RefreshToken, refresh_invalide, Store,
  refresh_has_hash, user_has_id,
}
use budget_backend.Auth.Sessions.{
  is_revoque, revoque, is_actif_of, refresh_has_id, nouveau_refresh, actif, issue_tokens, tourner,
  rafraichir, refresh,
}
use budget_backend.Auth.Tokens.{Crypto, Config, PasswordFlags, sans_flags, IssuedTokens}
use budget_backend.Auth.Requests.{Demande, run_auth}
use budget_backend.Auth.Rotation.{is_mort, mort-append, mort-run_auth}

abbrev pub sans_actif : ℕ → List RefreshToken → Bool
sans_actif user ts = every (λ t. not (is_actif_of user t)) ts

sans_actif-revoques :
    (user now : ℕ) (motif : MotifRevocation) (ts : List RefreshToken)
    → sans_actif user (update_where (is_actif_of user) (revoque now motif) ts) ≡ true
sans_actif-revoques user now motif [] = refl
sans_actif-revoques user now motif (t ∷ ts) = ground (arith, sans_actif-revoques user now motif ts)

mort-rotation :
    (h : String) (now w : ℕ) (t : RefreshToken) (ts : List RefreshToken)
    → find_one (refresh_has_hash h) ts ≡ some t
    → (t.fk_user == w) ≡ true
    → is_mort w h (update_where (refresh_has_id t.id) (revoque now motif_rotation) ts) ≡ true
mort-rotation h now w t ts found own = ground (
  arith,
  find_one-update_where (refresh_has_hash h) (refresh_has_id t.id) (revoque now motif_rotation) ts
      (λ r e. refl),
  ==_refl t.id,
)

actif-some : (o : Option User) {u : User} → actif o ≡ some u → o ≡ some u
actif-some none e = cc
actif-some (some x) {u = u} e = ground arith

module _ (crypto : Crypto) (config : Config) where
  pub issue_tokens-ok :
      (now : ℕ) (uuid : String) (user : User) (flags : PasswordFlags) (db : Store)
      {tokens : IssuedTokens}
      → (issue_tokens crypto config now uuid user flags db).0 ≡ ok tokens
      → (tokens.access_token.sub ≡ user.id)
        × (tokens.access_token.flags ≡ flags)
        × ((issue_tokens crypto config now uuid user flags db).1.refresh_tokens
            ≡ db.refresh_tokens
              ++ (nouveau_refresh db.prochain_id user.id
                    (crypto.hash_token uuid)
                    (now + config.refresh_expires_in_ms)
                  ∷ []))
  issue_tokens-ok now uuid user flags db {tokens = tokens} e =
      elim (Bool-cases (any (refresh_has_hash (crypto.hash_token uuid)) db.refresh_tokens)) [
        | inl taken ↦ ground arith
        | inr free ↦ ground arith
      ]

  tourner-mort :
      (h : String) (now : ℕ) (uuid : String) (t : RefreshToken) (db : Store) {tokens : IssuedTokens}
      → find_one (refresh_has_hash h) db.refresh_tokens ≡ some t
      → (tourner crypto config now uuid t db).0 ≡ ok tokens
      → (tokens.access_token.flags ≡ sans_flags)
        × (is_mort tokens.access_token.sub h (tourner crypto config now uuid t db).1.refresh_tokens
            ≡ true)
  tourner-mort h now uuid t db {tokens = tokens} found e =
      elim (Option-cases (actif (find_one (user_has_id t.fk_user) db.users))) [
        | inl nobody ↦ ground arith
        | inr (user, active) ↦
            let own : (user.id == t.fk_user) ≡ true =
              find_one_sound (user_has_id t.fk_user) db.users {r = user}
                (actif-some (find_one (user_has_id t.fk_user) db.users) {u = user} active) in
            let revoked : Store = record db {
              refresh_tokens =
                  update_where (refresh_has_id t.id) (revoque now motif_rotation) db.refresh_tokens;
            } in
            let dead = mort-rotation h now user.id t db.refresh_tokens found (ground arith) in
            elim (Result-cases (issue_tokens crypto config now uuid user sans_flags revoked).0) [
              | inr (x, failed) ↦ ground arith
              | inl (new, went) ↦ ground (
                arith,
                issue_tokens-ok now uuid user sans_flags revoked {tokens = new} went,
                mort-append user.id h
                    (nouveau_refresh revoked.prochain_id user.id (crypto.hash_token uuid)
                      (now + config.refresh_expires_in_ms))
                    revoked.refresh_tokens dead,
              )
            ]
      ]

  pub rafraichir-mort :
      (h : String) (now : ℕ) (uuid : String) (found : Option RefreshToken) (db : Store)
      {tokens : IssuedTokens}
      → find_one (refresh_has_hash h) db.refresh_tokens ≡ found
      → (rafraichir crypto config now uuid found db).0 ≡ ok tokens
      → (tokens.access_token.flags ≡ sans_flags)
        × (is_mort tokens.access_token.sub h
              (rafraichir crypto config now uuid found db).1.refresh_tokens
            ≡ true)
  rafraichir-mort h now uuid none db {tokens = tokens} f e = cc
  rafraichir-mort h now uuid (some t) db {tokens = tokens} f e = elim (Bool-cases (is_revoque t)) [
    | inl used ↦ ground arith
    | inr fresh ↦ ground (arith, tourner-mort h now uuid t db {tokens = tokens} f)
  ]

  refuse :
      (w : ℕ) (h : String) (now : ℕ) (uuid : String) (found : Option RefreshToken) (db : Store)
      → find_one (refresh_has_hash h) db.refresh_tokens ≡ found
      → is_mort w h db.refresh_tokens ≡ true
      → ((rafraichir crypto config now uuid found db).0 ≡ err refresh_invalide)
        × (sans_actif w (rafraichir crypto config now uuid found db).1.refresh_tokens ≡ true)
  refuse w h now uuid none db f dead = ground arith
  refuse w h now uuid (some t) db f dead =
      ground (arith, sans_actif-revoques t.fk_user now motif_forced db.refresh_tokens)

  -- A refresh token serves once: after it has given new tokens, whatever calls of the services of
  -- authentication follow, to present it again is refused, and then no refresh token of the user is
  -- active, not even one issued in between.
  pub refresh-sans_actif :
      (cle_email : String → String) (now later : ℕ) (uuid uuid' clear : String) (ds : List Demande)
      (db : Store) {tokens : IssuedTokens}
      → (refresh crypto config now uuid clear db).0 ≡ ok tokens
      → ((refresh crypto config later uuid' clear
            (run_auth crypto config cle_email ds (refresh crypto config now uuid clear db).1)).0
          ≡ err refresh_invalide)
        × (sans_actif tokens.access_token.sub
              (refresh crypto config later uuid' clear (
                run_auth crypto config cle_email ds
                  (refresh crypto config now uuid clear db).1)).1.refresh_tokens
            ≡ true)
  unfolding refresh
  refresh-sans_actif cle_email now later uuid uuid' clear ds db {tokens = tokens} e =
      let h = crypto.hash_token clear in
      let (clean, dead) =
        rafraichir-mort h now uuid (find_one (refresh_has_hash h) db.refresh_tokens) db
          {tokens = tokens} refl e in
      let after = run_auth crypto config cle_email ds (refresh crypto config now uuid clear db).1 in
      refuse tokens.access_token.sub h later uuid'
        (find_one (refresh_has_hash h) after.refresh_tokens) after refl
        (mort-run_auth crypto config tokens.access_token.sub h cle_email ds
          (refresh crypto config now uuid clear db).1 dead)
