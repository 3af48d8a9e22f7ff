-- ===== src/Auth/Separation.antt =====
-- auth/auth.service.ts: the sessions leave the links of password-reset.service.ts alone.
use budget_backend.Base.{
  ℕ, String, ◌≡◌, refl, Option, none, some, true, arith, str_eq, any, find_one, update_where,
  Bool-cases, Option-cases, Result-cases, inl, inr,
}
use budget_backend.Auth.Store.{
  User, motif_rotation, RefreshToken, Store, TypeAction, log, user_has_id, refresh_has_hash,
}
use budget_backend.Auth.Politique.{unites, is_ok_politique}
use budget_backend.Auth.Sessions.{
  actif, save_user, issue_tokens, connecter, changer_mdp, ecrire_mdp, avec_mdp, flags_of,
  rafraichir, tourner, revoquer_a_la_sortie, refresh_has_id, revoque,
}
use budget_backend.Auth.Tokens.{Crypto, Config, PasswordFlags, sans_flags}

module _ (crypto : Crypto) (config : Config) where
  -- The sessions leave the links.
  same-issue_tokens :
      (now : ℕ) (uuid : String) (user : User) (flags : PasswordFlags) (db : Store)
      → (issue_tokens crypto config now uuid user flags db).1.reset_tokens ≡ db.reset_tokens
  same-issue_tokens now uuid user flags db =
      elim (Bool-cases (any (refresh_has_hash (crypto.hash_token uuid)) db.refresh_tokens)) [
        | inl taken ↦ ground arith
        | inr free ↦ ground arith
      ]

  pub same-connecter :
      (now : ℕ) (uuid email : String) (who : Option User) (db : Store)
      → (connecter crypto config now uuid email who db).1.reset_tokens ≡ db.reset_tokens
  same-connecter now uuid email none db = refl
  same-connecter now uuid email (some user) db =
      let connected : User = record user { date_derniere_connexion = some now } in
      let saved = (save_user connected db).1 in
      let flags = flags_of crypto config now user in
      let same = same-issue_tokens now uuid connected flags saved in
      elim (Result-cases (issue_tokens crypto config now uuid connected flags saved).0) [
        | inl (tokens, e) ↦ ground arith
        | inr (x, e) ↦ ground arith
      ]

  same-tourner :
      (now : ℕ) (uuid : String) (t : RefreshToken) (db : Store)
      → (tourner crypto config now uuid t db).1.reset_tokens ≡ db.reset_tokens
  same-tourner now uuid t db =
      elim (Option-cases (actif (find_one (user_has_id t.fk_user) db.users))) [
        | inl nobody ↦ ground arith
        | inr (user, found) ↦
            let revoked : Store = record db {
              refresh_tokens =
                  update_where (refresh_has_id t.id) (revoque now motif_rotation) db.refresh_tokens;
            } in
            let same = same-issue_tokens now uuid user sans_flags revoked in
            elim (Result-cases (issue_tokens crypto config now uuid user sans_flags revoked).0) [
              | inl (tokens, e) ↦ ground arith
              | inr (x, e) ↦ ground arith
            ]
      ]

  pub same-rafraichir :
      (now : ℕ) (uuid : String) (found : Option RefreshToken) (db : Store)
      → (rafraichir crypto config now uuid found db).1.reset_tokens ≡ db.reset_tokens
  same-rafraichir now uuid none db = refl
  same-rafraichir now uuid (some t) db = ground (arith, same-tourner now uuid t db)

  pub same-sortie :
      (now user : ℕ) (clear : Option String) (db : Store)
      → (revoquer_a_la_sortie crypto config now user clear db).1.reset_tokens ≡ db.reset_tokens
  same-sortie now user none db = refl
  same-sortie now user (some clear) db = ground arith

  same-ecrire_mdp :
      (now : ℕ) (uuid : String) (user : User) (db : Store)
      → (ecrire_mdp crypto config now uuid user db).1.reset_tokens ≡ db.reset_tokens
  same-ecrire_mdp now uuid user db =
      let logged =
        (log user.email TypeAction.password_changed (some user.id) true (save_user user db).1).1 in
      let same = same-issue_tokens now uuid user sans_flags logged in
      elim (Result-cases (issue_tokens crypto config now uuid user sans_flags logged).0) [
        | inl (tokens, e) ↦ ground arith
        | inr (x, e) ↦ ground arith
      ]

  pub same-changer_mdp :
      (now : ℕ) (uuid sel : String) (user : ℕ) (ancien nouveau : String) (db : Store)
      → (changer_mdp crypto config now uuid sel user ancien nouveau db).1.reset_tokens
        ≡ db.reset_tokens
  unfolding changer_mdp
  same-changer_mdp now uuid sel user ancien nouveau db =
      elim (Option-cases (actif (find_one (user_has_id user) db.users))) [
        | inl nobody ↦ ground arith
        | inr (u, found) ↦
            let same =
              same-ecrire_mdp now uuid
                (avec_mdp crypto config now (crypto.bcrypt_hash sel nouveau) u) db in
            ground (
              arith,
              Bool-cases (crypto.bcrypt_compare ancien u.mot_de_passe_hash),
              Bool-cases (str_eq ancien nouveau),
              Bool-cases (is_ok_politique (unites nouveau)),
            )
      ]
