-- ===== src/Auth/Lien.antt =====
-- auth/password-reset.service.ts: a link serves once, and its password is then the user's.
use budget_backend.Base.{
  ℕ, String, ◌≤◌, ◌≡◌, refl, ◌∙◌, ap, Option, none, some, Bool, true, false, List, [], ◌∷◌, arith,
  ok, err, any, find_one, update_where, count_where, Option-cases, Result-cases, inl, inr, ==_refl,
  eq_iff,
}
use budget_backend.Auth.Store.{
  User, PasswordResetToken, reset_invalide, Store, user_has_id, user_has_email, reset_has_hash,
  refresh_has_hash,
}
use budget_backend.Auth.Politique.{unites, is_ok_politique}
use budget_backend.Auth.Sessions.{
  actif, validate_user, login, refresh, revoquer_a_la_sortie, logout,
}
use budget_backend.Auth.Tokens.{Crypto, Config}
use budget_backend.Auth.Reset.{
  demander_reset, reinitialise, appliquer_reset, executer_reset, is_vieux, nettoyer_tokens_expires,
}
use budget_backend.Auth.Requests.{Requete, Demande, executer, run_auth}
use budget_backend.Auth.Epuises.{
  are_epuises, tire, epuises-delete, epuises-one, find_one-epuise, epuises-envoyer_lien,
  epuises-appliquer_reset,
}
use budget_backend.Auth.Separation.{same-connecter, same-rafraichir, same-sortie, same-changer_mdp}

find_one-overwrite :
    (p q : User → Bool) (rs : List User) (x : User) {r : User}
    → find_one p rs ≡ some r
    → q r ≡ true
    → p x ≡ true
    → find_one p (update_where q (λ _. x) rs) ≡ some x
find_one-overwrite p q [] x found here fits = cc
find_one-overwrite p q (y ∷ rs) x {r = r} found here fits =
    ground (arith, find_one-overwrite p q rs x {r = r})

module _ (crypto : Crypto) (config : Config) where
  epuises-executer :
      (h : String) (cle_email : String → String) (now : ℕ) (r : Requete) (db : Store)
      → tire crypto h (record { now = now; requete = r }) ≡ false
      → are_epuises h db.reset_tokens ≡ true
      → are_epuises h (executer crypto config cle_email now r db).reset_tokens ≡ true
  unfolding login refresh logout demander_reset executer_reset nettoyer_tokens_expires
  epuises-executer h cle_email now (Requete.se_connecter uuid email mdp) db other all =
      ap (are_epuises h)
        (same-connecter crypto config now uuid email (validate_user crypto config email mdp db) db)
      ∙ all
  epuises-executer h cle_email now (Requete.changer uuid sel user ancien nouveau) db other all =
      ap (are_epuises h) (same-changer_mdp crypto config now uuid sel user ancien nouveau db) ∙ all
  epuises-executer h cle_email now (Requete.rafraichir_session uuid clear) db other all =
      ap (are_epuises h) (
        same-rafraichir crypto config now uuid
          (find_one (refresh_has_hash (crypto.hash_token clear)) db.refresh_tokens) db)
      ∙ all
  epuises-executer h cle_email now (Requete.se_deconnecter user email clear) db other all =
      let same = same-sortie crypto config now user clear db in
      elim (Result-cases (revoquer_a_la_sortie crypto config now user clear db).0) [
        | inl (u, e) ↦ ground arith
        | inr (x, e) ↦ ground arith
      ]
  epuises-executer h cle_email now (Requete.demander uuid email) db other all =
      epuises-envoyer_lien crypto config h now uuid (cle_email email)
        (actif (find_one (user_has_email (cle_email email)) db.users)) db other all
  epuises-executer h cle_email now (Requete.reinitialiser sel clair nouveau) db other all =
      epuises-appliquer_reset crypto config h now sel nouveau
        (find_one (reset_has_hash (crypto.hash_token clair)) db.reset_tokens) db all
  epuises-executer h cle_email now Requete.nettoyer db other all =
      ground (arith, epuises-delete h (is_vieux now) db.reset_tokens)

  epuises-run_auth :
      (h : String) (cle_email : String → String) (ds : List Demande) (db : Store)
      → any (tire crypto h) ds ≡ false
      → are_epuises h db.reset_tokens ≡ true
      → are_epuises h (run_auth crypto config cle_email ds db).reset_tokens ≡ true
  epuises-run_auth h cle_email [] db other all = all
  epuises-run_auth h cle_email (d ∷ ds) db other all =
      epuises-run_auth h cle_email ds (executer crypto config cle_email d.now d.requete db)
        (ground arith) (epuises-executer h cle_email d.now d.requete db (ground arith) all)

  reset-epuises :
      (now : ℕ) (h sel nouveau : String) (found : Option PasswordResetToken) (db : Store)
      → count_where (reset_has_hash h) db.reset_tokens ≤ 1
      → find_one (reset_has_hash h) db.reset_tokens ≡ found
      → (appliquer_reset crypto config now sel nouveau found db).0 ≡ ok tt
      → are_epuises h (appliquer_reset crypto config now sel nouveau found db).1.reset_tokens ≡ true
  reset-epuises now h sel nouveau none db unique f e = cc
  reset-epuises now h sel nouveau (some t) db unique f e =
      elim (Option-cases (find_one (user_has_id t.fk_user) db.users)) [
        | inl nobody ↦ ground arith
        | inr (user, found) ↦ ground (arith, epuises-one h now db.reset_tokens {t = t} unique f)
      ]

  refuse :
      (now : ℕ) (h sel nouveau : String) (found : Option PasswordResetToken) (db : Store)
      → find_one (reset_has_hash h) db.reset_tokens ≡ found
      → are_epuises h db.reset_tokens ≡ true
      → (appliquer_reset crypto config now sel nouveau found db).0 ≡ err reset_invalide
  refuse now h sel nouveau none db f all = refl
  refuse now h sel nouveau (some t) db f all =
      ground (arith, find_one-epuise h db.reset_tokens {t = t} all)

  -- A link for a forgotten password serves once: after it has changed the password, whatever calls of
  -- the services of authentication follow, to use it again is refused as invalid. Two things are
  -- asked: the table has at most one link with this hash before, which is a unique index, and no link
  -- drawn in between has the same hash.
  pub executer_reset-reset_invalide :
      (cle_email : String → String) (now later : ℕ) (sel sel' clair nouveau nouveau' : String)
      (ds : List Demande) (db : Store)
      → count_where (reset_has_hash (crypto.hash_token clair)) db.reset_tokens ≤ 1
      → any (tire crypto (crypto.hash_token clair)) ds ≡ false
      → (executer_reset crypto config now sel clair nouveau db).0 ≡ ok tt
      → (executer_reset crypto config later sel' clair nouveau' (
          run_auth crypto config cle_email ds
            (executer_reset crypto config now sel clair nouveau db).1)).0
        ≡ err reset_invalide
  unfolding executer_reset
  executer_reset-reset_invalide cle_email now later sel sel' clair nouveau nouveau' ds db unique
        other e =
      let h = crypto.hash_token clair in
      let used =
        reset-epuises now h sel nouveau (find_one (reset_has_hash h) db.reset_tokens) db unique refl
          e in
      let after =
        run_auth crypto config cle_email ds
          (executer_reset crypto config now sel clair nouveau db).1 in
      refuse later h sel' nouveau' (find_one (reset_has_hash h) after.reset_tokens) after refl (
        epuises-run_auth h cle_email ds (executer_reset crypto config now sel clair nouveau db).1
          other used)

  -- A password that is set by a link opens the account: where the link is valid and its user active,
  -- alone with his number and his e-mail, to set a password that the policy admits goes through, and
  -- the new password is then accepted for his e-mail, if bcrypt accepts what it hashed.
  pub executer_reset-validate_user :
      (now : ℕ) (sel clair nouveau : String) (db : Store) (t : PasswordResetToken) (u : User)
      → ((m s : String) → crypto.bcrypt_compare m (crypto.bcrypt_hash s m) ≡ true)
      → find_one (reset_has_hash (crypto.hash_token clair)) db.reset_tokens ≡ some t
      → t.utilise ≡ false
      → now ≤ t.date_expiration
      → is_ok_politique (unites nouveau) ≡ true
      → find_one (user_has_id t.fk_user) db.users ≡ some u
      → find_one (user_has_email u.email) db.users ≡ some u
      → u.est_actif ≡ true
      → ((executer_reset crypto config now sel clair nouveau db).0 ≡ ok tt)
        × (validate_user crypto config u.email nouveau
              (executer_reset crypto config now sel clair nouveau db).1
            ≡ some (reinitialise crypto config now (crypto.bcrypt_hash sel nouveau) u))
  unfolding executer_reset
  executer_reset-validate_user now sel clair nouveau db t u law valid fresh in_time good owner known
        active =
      let new = reinitialise crypto config now (crypto.bcrypt_hash sel nouveau) u in
      let by_id : user_has_id u.id u ≡ true = ==_refl u.id in
      let by_email : user_has_email u.email u ≡ true = (eq_iff u.email u.email).1 refl in
      let after =
        find_one-overwrite (user_has_email u.email) (user_has_id u.id) db.users new {r = u} known
          by_id by_email in
      let accepted : crypto.bcrypt_compare nouveau new.mot_de_passe_hash ≡ true = law nouveau sel in
      (ground arith, ground arith)
