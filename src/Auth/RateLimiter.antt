-- ===== src/Auth/RateLimiter.antt =====
-- auth/login-rate-limiter.service.ts: attempts per address and per e-mail. A `Map` with `?? []` is a
-- function; `cle_email` stands for `email.toLowerCase().trim()`.
pub mod Bound
pub mod Delay
use budget_backend.Base.{
  ℕ, String, ◌+◌, ◌-◌, ◌*◌, Option, none, some, Bool, true, false, List, [], ◌∷◌, ◌++◌, ltb, leb,
  length, str_eq, if◌then◌else◌, ◌/◌,
}
use budget_backend.Auth.Fenetre.{fraiches}

abbrev pub fenetre_ip_ms : ℕ
fenetre_ip_ms = 60_000

abbrev pub fenetre_email_ms : ℕ
fenetre_email_ms = 900_000

abbrev pub limite : ℕ
limite = 5

abbrev pub fenetre_forgot_ms : ℕ
fenetre_forgot_ms = 900_000

abbrev pub limite_forgot : ℕ
limite_forgot = 3

pub data Motif : Type 0 where
  ip email : Motif

-- `{ bloque: false }`, or the reason and `retryAfterSeconds`
pub data RateLimitResult : Type 0 where
  libre : RateLimitResult
  bloque : Motif → ℕ → RateLimitResult

pub record Limiteur : Type 0 where
  pub par_ip : String → List ℕ
  pub par_email : String → List ℕ
  pub par_ip_forgot : String → List ℕ

abbrev pub limiteur_vide : Limiteur
limiteur_vide = record { par_ip = λ k. []; par_email = λ k. []; par_ip_forgot = λ k. [] }

-- `map.set(key, times)`
abbrev pub put : String → List ℕ → (String → List ℕ) → String → List ℕ
put key times map k = if str_eq k key then times else map k

-- `Math.ceil((fenetre - (now - oldest)) / 1000)`, for the first of the times
abbrev pub retry_after : ℕ → ℕ → List ℕ → ℕ
retry_after fenetre now [] = 0
retry_after fenetre now (oldest ∷ ts) = (oldest + fenetre - now + 999) / 1000

module _ (cle_email : String → String) (desactive : Bool) where
  unfoldable pub enregistrer_et_verifier :
      ℕ → String → String → Limiteur → RateLimitResult × Limiteur
  enregistrer_et_verifier now adresse mail l =
      let ip_times = fraiches fenetre_ip_ms now (l.par_ip adresse) in
      let email_times = fraiches fenetre_email_ms now (l.par_email (cle_email mail)) in
      if desactive
      then (libre, l)
      else if leb limite (length ip_times)
      then (bloque ip (retry_after fenetre_ip_ms now ip_times), l)
      else if leb limite (length email_times)
      then (bloque email (retry_after fenetre_email_ms now email_times), l)
      else (
        libre,
        record l {
          par_ip = put adresse (ip_times ++ (now ∷ [])) l.par_ip;
          par_email = put (cle_email mail) (email_times ++ (now ∷ [])) l.par_email;
        },
      )

  unfoldable pub enregistrer_et_verifier_forgot : ℕ → String → Limiteur → RateLimitResult × Limiteur
  enregistrer_et_verifier_forgot now adresse l =
      let ip_times = fraiches fenetre_forgot_ms now (l.par_ip_forgot adresse) in
      if desactive
      then (libre, l)
      else if leb limite_forgot (length ip_times)
      then (bloque ip (retry_after fenetre_forgot_ms now ip_times), l)
      else (
        libre,
        record l { par_ip_forgot = put adresse (ip_times ++ (now ∷ [])) l.par_ip_forgot },
      )
