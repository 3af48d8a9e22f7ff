-- ===== src/Tests/Auth.antt =====
-- Attempts to log in, and the theorems on the limiter at them.
use budget_backend.Base.{
  ℕ, String, ◌≡◌, ◌≢◌, ◌≤◌, refl, true, false, List, [], ◌∷◌, arith, count_where, none, some, ok,
  err, ◌&&◌, concat, str_eq, eq_iff,
}
use budget_backend.Auth.Fenetre.{is_dans}
use budget_backend.Base.{◌*◌, length}
use budget_backend.Auth.Politique.{is_ok_politique}
use budget_backend.Auth.Temporaire.{generer_mot_de_passe_temporaire}
use budget_backend.Auth.Melange.{generer_mot_de_passe_temporaire-is_ok_politique}
use budget_backend.Auth.Store.{User, PasswordResetToken, Store, refresh_invalide, reset_invalide}
use budget_backend.Auth.Sessions.{login, refresh, validate_user}
use budget_backend.Auth.Tokens.{
  Crypto, Config, PasswordFlags, sans_flags, AccessToken, IssuedTokens, LoginResult, garde,
}
use budget_backend.Auth.Reset.{executer_reset, reinitialise}
use budget_backend.Auth.Requests.{Requete, Demande, run_auth}
use budget_backend.Auth.Jetons.{sans_actif, refresh-sans_actif}
use budget_backend.Auth.Garde.{login-garde}
use budget_backend.Auth.Lien.{executer_reset-reset_invalide, executer_reset-validate_user}
use budget_backend.Auth.RateLimiter.{
  Limiteur, limiteur_vide, bloque, ip, limite, fenetre_ip_ms, fenetre_email_ms,
  enregistrer_et_verifier,
}
use budget_backend.Auth.RateLimiter.Bound.{Tentative, acceptes_ip, acceptes_email, acceptes_bounded}
use budget_backend.Auth.RateLimiter.Delay.{is_bloque_ip, bloque-retry_after}

-- The key of an e-mail, for addresses that are trimmed and in lower case already
abbrev cle : String → String
cle m = m

abbrev tentative : ℕ → Tentative
tentative t = record { instant = t; adresse = "10.0.0.1"; mail = "a@bank" }

abbrev tentatives : List Tentative
tentatives =
    tentative 1_000
    ∷ tentative 2_000
    ∷ tentative 3_000
    ∷ tentative 4_000
    ∷ tentative 5_000
    ∷ tentative 6_000
    ∷ []

acceptes_bounded_example :
    (count_where (is_dans fenetre_ip_ms 0) (acceptes_ip cle "10.0.0.1" tentatives limiteur_vide)
      ≤ limite)
    × (count_where
          (is_dans fenetre_email_ms 0)
          (acceptes_email cle "10.0.0.1" tentatives limiteur_vide)
        ≤ limite)
acceptes_bounded_example =
    acceptes_bounded cle tentatives 0 0 "10.0.0.1"
      (omega arith, (omega arith, (omega arith, (omega arith, (omega arith, (omega arith, tt))))))

-- Five attempts within five seconds
abbrev plein : Limiteur
plein = record limiteur_vide { par_ip = λ k. 1_000 ∷ 2_000 ∷ 3_000 ∷ 4_000 ∷ 5_000 ∷ [] }

blocked : (enregistrer_et_verifier cle false 6_000 "10.0.0.1" "a@bank" plein).0 ≡ bloque ip 55
unfolding enregistrer_et_verifier
blocked = refl

bloque-retry_after_example :
    (1 ≤ 55)
    × (55 ≤ 60)
    × (is_bloque_ip
          (enregistrer_et_verifier cle false 61_000 "10.0.0.1" "b@bank"
            (enregistrer_et_verifier cle false 6_000 "10.0.0.1" "a@bank" plein).1).0
        ≡ false)
bloque-retry_after_example =
    bloque-retry_after cle 6_000 55 61_000 "10.0.0.1" "a@bank" "b@bank" plein (omega arith) refl
      (omega arith) blocked

-- Hashes that show what they hash
abbrev crypto : Crypto
crypto = record {
  hash_token = λ s. concat "h:" s;
  bcrypt_hash = λ sel m. concat "b:" m;
  bcrypt_compare = λ m h. str_eq (concat "b:" m) h;
}

abbrev config : Config
config = record { refresh_expires_in_ms = 604_800_000; mdp_duree_validite_jours = 90 }

-- A user with a temporary password
abbrev temporaire : User
temporaire = record {
  id = 1;
  email = "a@bank";
  mot_de_passe_hash = "b:Temporaire-01";
  est_actif = true;
  date_derniere_connexion = none;
  date_expiration_mdp = none;
  doit_changer_mdp = true;
  date_modification = none;
  utilisateur_modification = none;
}

abbrev lien : PasswordResetToken
lien = record {
  id = 3;
  fk_user = 1;
  token = "h:lien";
  date_expiration = 2_000;
  utilise = false;
  utilisateur_creation = "forgot-password";
  date_modification = none;
  utilisateur_modification = none;
}

abbrev comptes : Store
comptes = record {
  users = temporaire ∷ [];
  refresh_tokens = [];
  reset_tokens = lien ∷ [];
  email_log = [];
  audit_log = [];
  publies = [];
  prochain_id = 10;
}

abbrev acces : PasswordFlags → AccessToken
acces flags = record { sub = 1; email = "a@bank"; flags = flags }

abbrev connecte : LoginResult
connecte = record {
  tokens = record {
    access_token = acces (record { mdp_expire = false; doit_changer_mdp = true });
    refresh_token = "u1";
  };
  user = record temporaire { date_derniere_connexion = some 1_000 };
  mdp_expire = false;
  mdp_expire_prochainement = false;
  doit_changer_mdp = true;
}

connexion_ok : (login crypto config 1_000 "u1" "a@bank" "Temporaire-01" comptes).0 ≡ ok connecte
unfolding login
connexion_ok = refl

abbrev rafraichi : IssuedTokens
rafraichi = record { access_token = acces sans_flags; refresh_token = "u2" }

rafraichi_ok :
    (refresh crypto config 1_500 "u2" "u1"
      (login crypto config 1_000 "u1" "a@bank" "Temporaire-01" comptes).1).0
    ≡ ok rafraichi
unfolding login refresh
rafraichi_ok = refl

login-garde_example :
    ((false && false) ≡ false)
    × (garde false false connecte.tokens.access_token ≢ none)
    × (garde false false rafraichi.access_token ≡ none)
login-garde_example =
    login-garde crypto config 1_000 1_500 "u1" "u2" "a@bank" "Temporaire-01" comptes
      (login crypto config 1_000 "u1" "a@bank" "Temporaire-01" comptes).1 connexion_ok refl
      rafraichi_ok

-- A logout and a new link between the two uses
abbrev entre : List Demande
entre =
    record { now = 1_600; requete = Requete.se_deconnecter 1 "a@bank" none }
    ∷ record { now = 1_700; requete = Requete.demander "u3" "a@bank" }
    ∷ []

refresh-sans_actif_example :
    let after =
      run_auth crypto config cle entre
        (refresh crypto config 1_500 "u2" "u1"
          (login crypto config 1_000 "u1" "a@bank" "Temporaire-01" comptes).1).1 in
    ((refresh crypto config 1_800 "u4" "u1" after).0 ≡ err refresh_invalide)
    × (sans_actif 1 (refresh crypto config 1_800 "u4" "u1" after).1.refresh_tokens ≡ true)
refresh-sans_actif_example =
    refresh-sans_actif crypto config cle 1_500 1_800 "u2" "u4" "u1" entre
      (login crypto config 1_000 "u1" "a@bank" "Temporaire-01" comptes).1 rafraichi_ok

reset_ok : (executer_reset crypto config 1_500 "s" "lien" "Nouveau-mdp-1" comptes).0 ≡ ok tt
unfolding executer_reset
reset_ok = refl

executer_reset-reset_invalide_example :
    (executer_reset crypto config 1_900 "s" "lien" "Encore-un-mdp-2" (
      run_auth crypto config cle entre
        (executer_reset crypto config 1_500 "s" "lien" "Nouveau-mdp-1" comptes).1)).0
    ≡ err reset_invalide
executer_reset-reset_invalide_example =
    executer_reset-reset_invalide crypto config cle 1_500 1_900 "s" "s" "lien" "Nouveau-mdp-1"
      "Encore-un-mdp-2" entre comptes (omega arith) refl reset_ok

compare_law : (m s : String) → crypto.bcrypt_compare m (crypto.bcrypt_hash s m) ≡ true
compare_law m s = (eq_iff (concat "b:" m) (concat "b:" m)).1 refl

executer_reset-validate_user_example :
    ((executer_reset crypto config 1_500 "s" "lien" "Nouveau-mdp-1" comptes).0 ≡ ok tt)
    × (validate_user crypto config "a@bank" "Nouveau-mdp-1"
          (executer_reset crypto config 1_500 "s" "lien" "Nouveau-mdp-1" comptes).1
        ≡ some
            (reinitialise crypto config 1_500 (crypto.bcrypt_hash "s" "Nouveau-mdp-1") temporaire))
executer_reset-validate_user_example =
    executer_reset-validate_user crypto config 1_500 "s" "lien" "Nouveau-mdp-1" comptes lien
      temporaire compare_law refl refl (omega arith) refl refl refl refl

generer_mot_de_passe_temporaire-is_ok_politique_example :
    (mdp : List ℕ) × (generer_mot_de_passe_temporaire (λ k. 37 * k) 12 ≡ some mdp)
    × (length mdp ≡ 12)
    × (is_ok_politique mdp ≡ true)
generer_mot_de_passe_temporaire-is_ok_politique_example =
    generer_mot_de_passe_temporaire-is_ok_politique (λ k. 37 * k) 12 (omega arith)
