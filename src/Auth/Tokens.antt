-- ===== src/Auth/Tokens.antt =====
-- The tokens of auth/auth.service.ts, what the calls take of libraries and configuration, and
-- auth/guards/password-expired.guard.ts, which reads the access token. The access token is the
-- payload that is signed.
use budget_backend.Base.{
  ℕ, String, ◌+◌, ◌*◌, Option, none, some, Bool, false, ◌&&◌, ◌||◌, ltb, leb, if◌then◌else◌,
}
use budget_backend.Auth.Store.{User}

pub record Crypto : Type 0 where
  -- SHA-256, in hexadecimal
  pub hash_token : String → String
  -- salt, then password
  pub bcrypt_hash : String → String → String
  -- password, then stored hash
  pub bcrypt_compare : String → String → Bool

pub record Config : Type 0 where
  pub refresh_expires_in_ms : ℕ
  pub mdp_duree_validite_jours : ℕ

abbrev pub ms_par_jour : ℕ
ms_par_jour = 86_400_000

pub record PasswordFlags : Type 0 where
  pub mdp_expire : Bool
  pub doit_changer_mdp : Bool

abbrev pub sans_flags : PasswordFlags
sans_flags = record { mdp_expire = false; doit_changer_mdp = false }

pub record AccessToken : Type 0 where
  pub sub : ℕ
  pub email : String
  pub flags : PasswordFlags

pub record IssuedTokens : Type 0 where
  pub access_token : AccessToken
  pub refresh_token : String

pub record LoginResult : Type 0 where
  pub tokens : IssuedTokens
  pub user : User
  pub mdp_expire : Bool
  pub mdp_expire_prochainement : Bool
  pub doit_changer_mdp : Bool

pub data CodeGarde : Type 0 where
  mdp_temporaire mdp_perime : CodeGarde

-- PasswordExpiredGuard: the 403 that the guard throws, for a route that is public or not, and that
-- allows an expired password or not
abbrev pub garde : Bool → Bool → AccessToken → Option CodeGarde
garde is_public allow_expired token =
    if is_public || allow_expired
    then none
    else if token.flags.doit_changer_mdp
    then some mdp_temporaire
    else if token.flags.mdp_expire
    then some mdp_perime
    else none

-- `user.dateExpirationMdp.getTime() < Date.now()`, and the seven days before
abbrev pub is_mdp_expire : ℕ → Option ℕ → Bool
is_mdp_expire now none = false
is_mdp_expire now (some date) = ltb date now

abbrev pub is_mdp_expire_prochainement : ℕ → Option ℕ → Bool
is_mdp_expire_prochainement now none = false
is_mdp_expire_prochainement now (some date) = leb now date && ltb date (now + 7 * ms_par_jour)
