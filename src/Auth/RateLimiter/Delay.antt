-- ===== src/Auth/RateLimiter/Delay.antt =====
-- The delay that a blocked attempt is told.
use budget_backend.Base.{
  ℕ, String, ◌+◌, ◌*◌, ◌≤◌, ◌<◌, ◌≡◌, refl, Bool, true, false, List, [], ◌∷◌, arith, leb, length,
  Bool-cases, inl, inr, count_where, find_all, every, suc,
}
use budget_backend.Auth.Fenetre.{fraiches, is_fraiche, length-fraiches}
use budget_backend.Auth.RateLimiter.{
  Limiteur, RateLimitResult, libre, bloque, ip, email, limite, fenetre_ip_ms,
  enregistrer_et_verifier, retry_after,
}

abbrev pub is_bloque_ip : RateLimitResult → Bool
is_bloque_ip libre = false
is_bloque_ip (bloque ip n) = true
is_bloque_ip (bloque email n) = false

-- Not all instants pass a test that the first of the fresh ones fails.
count-lt-length :
    (p q : ℕ → Bool) (ts : List ℕ) {o : ℕ} {rest : List ℕ}
    → find_all p ts ≡ o ∷ rest
    → q o ≡ false
    → count_where q ts < length ts
count-lt-length p q [] found off = cc
count-lt-length p q (t ∷ ts) {o = o} {rest = rest} found off = elim (Bool-cases (p t)) [
  | inl hit ↦
      let first : t ≡ o = let e : t ∷ find_all p ts ≡ o ∷ rest = rw hit at found in cc in
      rw first (rw off (count-le-length q ts))
  | inr miss ↦ ground (arith, count-lt-length p q ts (rw miss at found) off)
]
  where
    count-le-length : (q : ℕ → Bool) (ts : List ℕ) → count_where q ts < suc (length ts)
    count-le-length q [] = omega arith
    count-le-length q (t ∷ ts) = ground (arith, count-le-length q ts)

first_fresh :
    (fenetre now : ℕ) (ts : List ℕ) {o : ℕ} {rest : List ℕ}
    → fraiches fenetre now ts ≡ o ∷ rest
    → every (λ t. leb t now) ts ≡ true
    → (now < o + fenetre) × (o ≤ now)
first_fresh fenetre now [] found past = cc
first_fresh fenetre now (t ∷ ts) {o = o} {rest = rest} found past =
    elim (Bool-cases (is_fraiche fenetre now t)) [
      | inl hit ↦ ground arith
      | inr miss ↦
          first_fresh fenetre now ts {o = o} {rest = rest} (rw miss at found) (ground arith)
    ]

-- The delay of a full window: between a second and a minute, and then there is room.
delay_lem :
    (now : ℕ) (ts : List ℕ)
    → length ts ≤ limite
    → every (λ t. leb t now) ts ≡ true
    → limite ≤ length (fraiches fenetre_ip_ms now ts)
    → let r = retry_after fenetre_ip_ms now (fraiches fenetre_ip_ms now ts) in
      (1 ≤ r)
      × (r ≤ 60)
      × ((later : ℕ) → now + 1000 * r ≤ later → length (fraiches fenetre_ip_ms later ts) < limite)
delay_lem now ts short past full = go (fraiches fenetre_ip_ms now ts) refl full
  where
    go :
        (fs : List ℕ)
        → fraiches fenetre_ip_ms now ts ≡ fs
        → limite ≤ length fs
        → let r = retry_after fenetre_ip_ms now fs in
          (1 ≤ r)
          × (r ≤ 60)
          × ((later : ℕ)
              → now + 1000 * r ≤ later
              → length (fraiches fenetre_ip_ms later ts) < limite)
    go [] e h = absurd (omega arith)
    go (o ∷ rest) e h =
        let b = first_fresh fenetre_ip_ms now ts e past in
        (
          omega arith,
          omega arith,
          λ later le. ground (
            arith,
            length-fraiches fenetre_ip_ms later ts,
            count-lt-length (is_fraiche fenetre_ip_ms now) (is_fraiche fenetre_ip_ms later) ts
                {o = o} {rest = rest} e,
          ),
        )

-- The call where the window of the address is full.
full_call :
    (cle_email : String → String) (now : ℕ) (adresse mail : String) (l : Limiteur)
    → is_bloque_ip (enregistrer_et_verifier cle_email false now adresse mail l).0 ≡ true
    → let fs = fraiches fenetre_ip_ms now (l.par_ip adresse) in
      (limite ≤ length fs)
      × (enregistrer_et_verifier cle_email false now adresse mail l
          ≡ (bloque ip (retry_after fenetre_ip_ms now fs), l))
unfolding enregistrer_et_verifier
full_call cle_email now adresse mail l blocked =
    elim (Bool-cases (leb limite (length (fraiches fenetre_ip_ms now (l.par_ip adresse))))) [
      | inl full ↦ (ground arith, rw full refl)
      | inr room ↦ ground arith
    ]

room_free :
    (cle_email : String → String) (now : ℕ) (adresse mail : String) (l : Limiteur)
    → length (fraiches fenetre_ip_ms now (l.par_ip adresse)) < limite
    → is_bloque_ip (enregistrer_et_verifier cle_email false now adresse mail l).0 ≡ false
room_free cle_email now adresse mail l room =
    elim (Bool-cases
      (is_bloque_ip (enregistrer_et_verifier cle_email false now adresse mail l).0)) [
        | inl blocked ↦
            let full = (full_call cle_email now adresse mail l blocked).0 in absurd (omega arith)
        | inr free ↦ free
      ]

-- An attempt that is blocked for its address is told a delay of one to sixty seconds, and once that
-- has passed with no other attempt, an attempt from the address is not blocked for it any more. The
-- list of the address has at most five instants, none of them in the future.
pub bloque-retry_after :
    (cle_email : String → String) (now delay later : ℕ) (adresse mail mail' : String) (l : Limiteur)
    → length (l.par_ip adresse) ≤ limite
    → every (λ t. leb t now) (l.par_ip adresse) ≡ true
    → now + 1000 * delay ≤ later
    → (enregistrer_et_verifier cle_email false now adresse mail l).0 ≡ bloque ip delay
    → (1 ≤ delay)
      × (delay ≤ 60)
      × (is_bloque_ip
            (enregistrer_et_verifier cle_email false later adresse mail'
              (enregistrer_et_verifier cle_email false now adresse mail l).1).0
          ≡ false)
bloque-retry_after cle_email now delay later adresse mail mail' l short past le blocked =
    let (full, call) = full_call cle_email now adresse mail l (rw blocked refl) in
    let told : retry_after fenetre_ip_ms now (fraiches fenetre_ip_ms now (l.par_ip adresse))
        ≡ delay =
      let e = rw call at blocked in cc in
    let (low, high, free) = delay_lem now (l.par_ip adresse) short past full in
    (
      rw told at low,
      rw told at high,
      rw call (room_free cle_email later adresse mail' l (free later (rw told le))),
    )
