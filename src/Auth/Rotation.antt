-- ===== src/Auth/Rotation.antt =====
-- auth/auth.service.ts: a refresh token that is revoked stays revoked.
use budget_backend.Base.{
  ℕ, String, ◌+◌, ◌≡◌, refl, ◌∙◌, ap, Option, none, some, Bool, true, false, List, [], ◌∷◌, ◌++◌,
  arith, ◌==◌, ◌&&◌, ltb, str_eq, any, find_one, update_where, Bool-cases, Option-cases,
  Result-cases, inl, inr,
}
use budget_backend.Auth.Store.{
  User, MotifRevocation, motif_rotation, motif_forced, motif_logout, RefreshToken, Store,
  refresh_has_hash, user_has_id, user_has_email, log, TypeAction, PasswordResetToken,
  reset_has_hash,
}
use budget_backend.Auth.Sessions.{
  is_revoque, revoque, is_actif_of, refresh_has_id, nouveau_refresh, actif, issue_tokens,
  validate_user, connecter, login, changer_mdp, tourner, rafraichir, refresh, revoquer_a_la_sortie,
  logout, ecrire_mdp, avec_mdp, save_user, flags_of, is_actif_avec_hash,
}
use budget_backend.Auth.Tokens.{Crypto, Config, PasswordFlags, sans_flags}
use budget_backend.Auth.Reset.{
  envoyer_lien, appliquer_reset, demander_reset, executer_reset, nettoyer_tokens_expires,
}
use budget_backend.Auth.Politique.{unites, is_ok_politique}
use budget_backend.Auth.Requests.{Requete, Demande, executer, run_auth}

abbrev mort_de : ℕ → Option RefreshToken → Bool
mort_de w none = false
mort_de w (some t) = is_revoque t && (t.fk_user == w)

-- The token with this hash is in the table, of this user, revoked.
abbrev pub is_mort : ℕ → String → List RefreshToken → Bool
is_mort w h ts = mort_de w (find_one (refresh_has_hash h) ts)

pub mort-update :
    (w : ℕ) (h : String) (q : RefreshToken → Bool) (now : ℕ) (motif : MotifRevocation)
    (ts : List RefreshToken)
    → is_mort w h ts ≡ true
    → is_mort w h (update_where q (revoque now motif) ts) ≡ true
mort-update w h q now motif [] dead = cc
mort-update w h q now motif (t ∷ ts) dead = ground (arith, mort-update w h q now motif ts)

pub mort-append :
    (w : ℕ) (h : String) (t : RefreshToken) (ts : List RefreshToken)
    → is_mort w h ts ≡ true
    → is_mort w h (ts ++ (t ∷ [])) ≡ true
mort-append w h t [] dead = cc
mort-append w h t (x ∷ ts) dead = ground (arith, mort-append w h t ts)

module _ (crypto : Crypto) (config : Config) where
  pub mort-issue_tokens :
      (w : ℕ) (h : String) (now : ℕ) (uuid : String) (user : User) (flags : PasswordFlags)
      (db : Store)
      → is_mort w h db.refresh_tokens ≡ true
      → is_mort w h (issue_tokens crypto config now uuid user flags db).1.refresh_tokens ≡ true
  mort-issue_tokens w h now uuid user flags db dead =
      let t =
        nouveau_refresh db.prochain_id user.id (crypto.hash_token uuid)
          (now + config.refresh_expires_in_ms) in
      elim (Bool-cases (any (refresh_has_hash (crypto.hash_token uuid)) db.refresh_tokens)) [
        | inl taken ↦ ground arith
        | inr free ↦ ground (arith, mort-append w h t db.refresh_tokens)
      ]

  mort-connecter :
      (w : ℕ) (h : String) (now : ℕ) (uuid email : String) (who : Option User) (db : Store)
      → is_mort w h db.refresh_tokens ≡ true
      → is_mort w h (connecter crypto config now uuid email who db).1.refresh_tokens ≡ true
  mort-connecter w h now uuid email none db dead = dead
  mort-connecter w h now uuid email (some user) db dead =
      let connected : User = record user { date_derniere_connexion = some now } in
      let saved = (save_user connected db).1 in
      let flags = flags_of crypto config now user in
      let kept = mort-issue_tokens w h now uuid connected flags saved dead in
      elim (Result-cases (issue_tokens crypto config now uuid connected flags saved).0) [
        | inl (tokens, e) ↦ ground arith
        | inr (x, e) ↦ ground arith
      ]

  -- `tourner`, in the state where the token is revoked already
  mort-tourner :
      (w : ℕ) (h : String) (now : ℕ) (uuid : String) (t : RefreshToken) (db : Store)
      → is_mort w h db.refresh_tokens ≡ true
      → is_mort w h (tourner crypto config now uuid t db).1.refresh_tokens ≡ true
  mort-tourner w h now uuid t db dead = elim (Bool-cases (ltb t.date_expiration now)) [
    | inl late ↦ ground arith
    | inr in_time ↦ elim (Option-cases (actif (find_one (user_has_id t.fk_user) db.users))) [
      | inl nobody ↦ ground arith
      | inr (user, found) ↦
          let revoked : Store = record db {
            refresh_tokens =
                update_where (refresh_has_id t.id) (revoque now motif_rotation) db.refresh_tokens;
          } in
          let kept =
            mort-issue_tokens w h now uuid user sans_flags revoked
              (mort-update w h (refresh_has_id t.id) now motif_rotation db.refresh_tokens dead) in
          elim (Result-cases (issue_tokens crypto config now uuid user sans_flags revoked).0) [
            | inl (tokens, e) ↦ ground arith
            | inr (x, e) ↦ ground arith
          ]
    ]
  ]

  mort-rafraichir :
      (w : ℕ) (h : String) (now : ℕ) (uuid : String) (found : Option RefreshToken) (db : Store)
      → is_mort w h db.refresh_tokens ≡ true
      → is_mort w h (rafraichir crypto config now uuid found db).1.refresh_tokens ≡ true
  mort-rafraichir w h now uuid none db dead = dead
  mort-rafraichir w h now uuid (some t) db dead = elim (Bool-cases (is_revoque t)) [
    | inl used ↦
        ground (arith, mort-update w h (is_actif_of t.fk_user) now motif_forced db.refresh_tokens)
    | inr fresh ↦ ground (arith, mort-tourner w h now uuid t db)
  ]

  mort-sortie :
      (w : ℕ) (h : String) (now user : ℕ) (clear : Option String) (db : Store)
      → is_mort w h db.refresh_tokens ≡ true
      → is_mort w h (revoquer_a_la_sortie crypto config now user clear db).1.refresh_tokens ≡ true
  mort-sortie w h now user none db dead =
      mort-update w h (is_actif_of user) now motif_logout db.refresh_tokens dead
  mort-sortie w h now user (some clear) db dead = elim (Bool-cases (str_eq clear "")) [
    | inl empty ↦
        ground (arith, mort-update w h (is_actif_of user) now motif_logout db.refresh_tokens)
    | inr given ↦ ground (
      arith,
      mort-update w h (is_actif_avec_hash crypto config user (crypto.hash_token clear)) now
          motif_logout db.refresh_tokens,
    )
  ]

  mort-ecrire_mdp :
      (w : ℕ) (h : String) (now : ℕ) (uuid : String) (user : User) (db : Store)
      → is_mort w h db.refresh_tokens ≡ true
      → is_mort w h (ecrire_mdp crypto config now uuid user db).1.refresh_tokens ≡ true
  mort-ecrire_mdp w h now uuid user db dead =
      let logged =
        (log user.email TypeAction.password_changed (some user.id) true (save_user user db).1).1 in
      let kept = mort-issue_tokens w h now uuid user sans_flags logged dead in
      elim (Result-cases (issue_tokens crypto config now uuid user sans_flags logged).0) [
        | inl (tokens, e) ↦ ground arith
        | inr (x, e) ↦ ground arith
      ]

  mort-changer_mdp :
      (w : ℕ) (h : String) (now : ℕ) (uuid sel : String) (user : ℕ) (ancien nouveau : String)
      (db : Store)
      → is_mort w h db.refresh_tokens ≡ true
      → is_mort w h (changer_mdp crypto config now uuid sel user ancien nouveau db).1.refresh_tokens
        ≡ true
  unfolding changer_mdp
  mort-changer_mdp w h now uuid sel user ancien nouveau db dead =
      elim (Option-cases (actif (find_one (user_has_id user) db.users))) [
        | inl nobody ↦ ground arith
        | inr (u, found) ↦
            let kept =
              mort-ecrire_mdp w h now uuid
                (avec_mdp crypto config now (crypto.bcrypt_hash sel nouveau) u) db dead in
            ground (
              arith,
              Bool-cases (crypto.bcrypt_compare ancien u.mot_de_passe_hash),
              Bool-cases (str_eq ancien nouveau),
              Bool-cases (is_ok_politique (unites nouveau)),
            )
      ]

  -- The services of the forgotten password leave the refresh tokens.
  same-executer_reset :
      (now : ℕ) (sel nouveau : String) (found : Option PasswordResetToken) (db : Store)
      → (appliquer_reset crypto config now sel nouveau found db).1.refresh_tokens
        ≡ db.refresh_tokens
  same-executer_reset now sel nouveau none db = refl
  same-executer_reset now sel nouveau (some t) db =
      elim (Option-cases (find_one (user_has_id t.fk_user) db.users)) [
        | inl nobody ↦ ground arith
        | inr (user, found) ↦ ground arith
      ]

  same-envoyer_lien :
      (now : ℕ) (uuid email : String) (who : Option User) (db : Store)
      → (envoyer_lien crypto config now uuid email who db).1.refresh_tokens ≡ db.refresh_tokens
  same-envoyer_lien now uuid email none db = refl
  same-envoyer_lien now uuid email (some user) db =
      elim (Bool-cases (any (reset_has_hash (crypto.hash_token uuid)) db.reset_tokens)) [
        | inl taken ↦ ground arith
        | inr free ↦ ground arith
      ]

  mort-executer :
      (w : ℕ) (h : String) (cle_email : String → String) (now : ℕ) (r : Requete) (db : Store)
      → is_mort w h db.refresh_tokens ≡ true
      → is_mort w h (executer crypto config cle_email now r db).refresh_tokens ≡ true
  unfolding login refresh logout demander_reset executer_reset nettoyer_tokens_expires
  mort-executer w h cle_email now (Requete.se_connecter uuid email mdp) db dead =
      mort-connecter w h now uuid email (validate_user crypto config email mdp db) db dead
  mort-executer w h cle_email now (Requete.changer uuid sel user ancien nouveau) db dead =
      mort-changer_mdp w h now uuid sel user ancien nouveau db dead
  mort-executer w h cle_email now (Requete.rafraichir_session uuid clear) db dead =
      mort-rafraichir w h now uuid
        (find_one (refresh_has_hash (crypto.hash_token clear)) db.refresh_tokens) db dead
  mort-executer w h cle_email now (Requete.se_deconnecter user email clear) db dead =
      let kept = mort-sortie w h now user clear db dead in
      elim (Result-cases (revoquer_a_la_sortie crypto config now user clear db).0) [
        | inl (u, e) ↦ ground arith
        | inr (x, e) ↦ ground arith
      ]
  mort-executer w h cle_email now (Requete.demander uuid email) db dead =
      ap (is_mort w h) (
        same-envoyer_lien now uuid (cle_email email)
          (actif (find_one (user_has_email (cle_email email)) db.users)) db)
      ∙ dead
  mort-executer w h cle_email now (Requete.reinitialiser sel clair nouveau) db dead =
      ap (is_mort w h) (
        same-executer_reset now sel nouveau
          (find_one (reset_has_hash (crypto.hash_token clair)) db.reset_tokens) db)
      ∙ dead
  mort-executer w h cle_email now Requete.nettoyer db dead = ground arith

  pub mort-run_auth :
      (w : ℕ) (h : String) (cle_email : String → String) (ds : List Demande) (db : Store)
      → is_mort w h db.refresh_tokens ≡ true
      → is_mort w h (run_auth crypto config cle_email ds db).refresh_tokens ≡ true
  mort-run_auth w h cle_email [] db dead = dead
  mort-run_auth w h cle_email (d ∷ ds) db dead =
      mort-run_auth w h cle_email ds (executer crypto config cle_email d.now d.requete db)
        (mort-executer w h cle_email d.now d.requete db dead)
