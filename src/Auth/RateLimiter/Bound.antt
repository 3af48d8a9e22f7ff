-- ===== src/Auth/RateLimiter/Bound.antt =====
-- No window holds more accepted attempts than the limit, whatever attempts come in.
use budget_backend.Base.{
  ℕ, String, ◌≤◌, ◌≡◌, refl, Bool, true, false, List, [], ◌∷◌, ◌++◌, arith, leb, length, str_eq,
  if◌then◌else◌, ◌&&◌, Bool-cases, inl, inr, count_where, eq_iff,
}
use mathlib.Core.List.{append-nil, append_assoc}
use mathlib.Core.Path.{subst}
use budget_backend.Auth.Fenetre.{
  fraiches, is_dans, IsJuste, IsJuste-empty, IsJuste-later, IsJuste-accept,
}
use budget_backend.Auth.RateLimiter.{
  Limiteur, limiteur_vide, RateLimitResult, libre, bloque, limite, fenetre_ip_ms, fenetre_email_ms,
  put, enregistrer_et_verifier,
}

pub record Tentative : Type 0 where
  pub instant : ℕ
  pub adresse : String
  pub mail : String

abbrev pub is_libre : RateLimitResult → Bool
is_libre libre = true
is_libre (bloque m n) = false

abbrev pub InOrder : ℕ → List Tentative → Type 0
InOrder from [] = Unit {0}
InOrder from (t ∷ ts) = (from ≤ t.instant) × InOrder t.instant ts

if_append :
    (b : Bool) (xs ys : List ℕ) → xs ++ (if b then ys else []) ≡ (if b then xs ++ ys else xs)
if_append true xs ys = refl
if_append false xs ys = append-nil xs

-- `put` at a key, and at another.
IsJuste-put :
    (fenetre n last now : ℕ) (k key : String) (hist : List ℕ) (map : String → List ℕ)
    → last ≤ now
    → leb n (length (fraiches fenetre now (map key))) ≡ false
    → IsJuste fenetre n last hist (map k)
    → IsJuste fenetre n now
        (if str_eq k key then hist ++ (now ∷ []) else hist)
        (put key (fraiches fenetre now (map key) ++ (now ∷ [])) map k)
IsJuste-put fenetre n last now k key hist map le few h = elim (Bool-cases (str_eq k key)) [
  | inl same ↦
      let is_key : k ≡ key = (eq_iff k key).0 same in
      rw same (
        IsJuste-accept fenetre n last now hist (map key) le (ground arith)
          (subst (λ c. IsJuste fenetre n last hist (map c)) is_key h))
  | inr other ↦ rw other (IsJuste-later fenetre n last now hist (map k) le h)
]

kept_ip :
    (r : RateLimitResult × Limiteur) (k : String) (now : ℕ) (hist new : List ℕ) (b : Bool)
    (l : Limiteur)
    → is_libre r.0 ≡ false
    → r.1 ≡ l
    → IsJuste fenetre_ip_ms limite now hist (l.par_ip k)
    → IsJuste fenetre_ip_ms limite now
        (hist ++ (if is_libre r.0 && b then new else []))
        (r.1.par_ip k)
kept_ip r k now hist new b l blocked same h = rw (blocked, same, append-nil) h

kept_email :
    (r : RateLimitResult × Limiteur) (k : String) (now : ℕ) (hist new : List ℕ) (b : Bool)
    (l : Limiteur)
    → is_libre r.0 ≡ false
    → r.1 ≡ l
    → IsJuste fenetre_email_ms limite now hist (l.par_email k)
    → IsJuste fenetre_email_ms limite now
        (hist ++ (if is_libre r.0 && b then new else []))
        (r.1.par_email k)
kept_email r k now hist new b l blocked same h = rw (blocked, same, append-nil) h

taken_ip :
    (r : RateLimitResult × Limiteur) (k : String) (now : ℕ) (hist new times : List ℕ) (b : Bool)
    → is_libre r.0 ≡ true
    → r.1.par_ip k ≡ times
    → IsJuste fenetre_ip_ms limite now (if b then hist ++ new else hist) times
    → IsJuste fenetre_ip_ms limite now
        (hist ++ (if is_libre r.0 && b then new else []))
        (r.1.par_ip k)
taken_ip r k now hist new times b free same h = rw (free, same, if_append b hist new) h

taken_email :
    (r : RateLimitResult × Limiteur) (k : String) (now : ℕ) (hist new times : List ℕ) (b : Bool)
    → is_libre r.0 ≡ true
    → r.1.par_email k ≡ times
    → IsJuste fenetre_email_ms limite now (if b then hist ++ new else hist) times
    → IsJuste fenetre_email_ms limite now
        (hist ++ (if is_libre r.0 && b then new else []))
        (r.1.par_email k)
taken_email r k now hist new times b free same h = rw (free, same, if_append b hist new) h

module _ (cle_email : String → String) where
  abbrev pub apres : Tentative → Limiteur → Limiteur
  apres t l = (enregistrer_et_verifier cle_email false t.instant t.adresse t.mail l).1

  abbrev pub accepte : Tentative → Limiteur → Bool
  accepte t l = is_libre (enregistrer_et_verifier cle_email false t.instant t.adresse t.mail l).0

  -- The instants at which the attempts from an address were let through.
  abbrev pub acceptes_ip : String → List Tentative → Limiteur → List ℕ
  acceptes_ip k [] l = []
  acceptes_ip k (t ∷ ts) l =
      (if accepte t l && str_eq k t.adresse then t.instant ∷ [] else [])
      ++ acceptes_ip k ts (apres t l)

  -- The instants at which the attempts for an e-mail key were let through.
  abbrev pub acceptes_email : String → List Tentative → Limiteur → List ℕ
  acceptes_email k [] l = []
  acceptes_email k (t ∷ ts) l =
      (if accepte t l && str_eq k (cle_email t.mail) then t.instant ∷ [] else [])
      ++ acceptes_email k ts (apres t l)

  step_ip :
      (k : String) (last : ℕ) (hist : List ℕ) (t : Tentative) (l : Limiteur)
      → last ≤ t.instant
      → IsJuste fenetre_ip_ms limite last hist (l.par_ip k)
      → IsJuste fenetre_ip_ms limite t.instant
          (hist ++ (if accepte t l && str_eq k t.adresse then t.instant ∷ [] else []))
          ((apres t l).par_ip k)
  unfolding enregistrer_et_verifier
  step_ip k last hist t l le h =
      let later = IsJuste-later fenetre_ip_ms limite last t.instant hist (l.par_ip k) le h in
      elim (Bool-cases
        (leb limite (length (fraiches fenetre_ip_ms t.instant (l.par_ip t.adresse))))) [
          | inl full ↦
              kept_ip (enregistrer_et_verifier cle_email false t.instant t.adresse t.mail l) k
                t.instant hist (t.instant ∷ []) (str_eq k t.adresse) l (rw full refl) (rw full refl)
                later
          | inr room ↦
              elim (Bool-cases (
                leb limite (
                  length (fraiches fenetre_email_ms t.instant (l.par_email (cle_email t.mail)))))) [
                    | inl full ↦
                        kept_ip
                          (enregistrer_et_verifier cle_email false t.instant t.adresse t.mail l) k
                          t.instant hist (t.instant ∷ []) (str_eq k t.adresse) l
                          (rw (room, full) refl) (rw (room, full) refl) later
                    | inr room' ↦
                        let times : List ℕ =
                          put t.adresse
                            (fraiches fenetre_ip_ms t.instant (l.par_ip t.adresse)
                              ++ (t.instant ∷ []))
                            l.par_ip k in
                        taken_ip
                          (enregistrer_et_verifier cle_email false t.instant t.adresse t.mail l) k
                          t.instant hist (t.instant ∷ []) times (str_eq k t.adresse)
                          (rw (room, room') refl) (rw (room, room') refl)
                          (IsJuste-put fenetre_ip_ms limite last t.instant k t.adresse hist l.par_ip
                            le room h)
                  ]
        ]

  all_ip :
      (k : String) (w last : ℕ) (hist : List ℕ) (ts : List Tentative) (l : Limiteur)
      → InOrder last ts
      → IsJuste fenetre_ip_ms limite last hist (l.par_ip k)
      → count_where (is_dans fenetre_ip_ms w) (hist ++ acceptes_ip k ts l) ≤ limite
  all_ip k w last hist [] l order h = rw append-nil (h.bounded w)
  all_ip k w last hist (t ∷ ts) l order h =
      let new : List ℕ = if accepte t l && str_eq k t.adresse then t.instant ∷ [] else [] in
      subst (λ xs. count_where (is_dans fenetre_ip_ms w) xs ≤ limite)
        (append_assoc hist new (acceptes_ip k ts (apres t l)))
        (all_ip k w t.instant (hist ++ new) ts (apres t l) order.1
          (step_ip k last hist t l order.0 h))

  step_email :
      (k : String) (last : ℕ) (hist : List ℕ) (t : Tentative) (l : Limiteur)
      → last ≤ t.instant
      → IsJuste fenetre_email_ms limite last hist (l.par_email k)
      → IsJuste fenetre_email_ms limite t.instant
          (hist ++ (if accepte t l && str_eq k (cle_email t.mail) then t.instant ∷ [] else []))
          ((apres t l).par_email k)
  unfolding enregistrer_et_verifier
  step_email k last hist t l le h =
      let later = IsJuste-later fenetre_email_ms limite last t.instant hist (l.par_email k) le h in
      elim (Bool-cases
        (leb limite (length (fraiches fenetre_ip_ms t.instant (l.par_ip t.adresse))))) [
          | inl full ↦
              kept_email (enregistrer_et_verifier cle_email false t.instant t.adresse t.mail l) k
                t.instant hist (t.instant ∷ []) (str_eq k (cle_email t.mail)) l (rw full refl)
                (rw full refl) later
          | inr room ↦
              elim (Bool-cases (
                leb limite (
                  length (fraiches fenetre_email_ms t.instant (l.par_email (cle_email t.mail)))))) [
                    | inl full ↦
                        kept_email
                          (enregistrer_et_verifier cle_email false t.instant t.adresse t.mail l) k
                          t.instant hist (t.instant ∷ []) (str_eq k (cle_email t.mail)) l
                          (rw (room, full) refl) (rw (room, full) refl) later
                    | inr room' ↦
                        let times : List ℕ =
                          put (cle_email t.mail)
                            (fraiches fenetre_email_ms t.instant (l.par_email (cle_email t.mail))
                              ++ (t.instant ∷ []))
                            l.par_email k in
                        taken_email
                          (enregistrer_et_verifier cle_email false t.instant t.adresse t.mail l) k
                          t.instant hist (t.instant ∷ []) times (str_eq k (cle_email t.mail))
                          (rw (room, room') refl) (rw (room, room') refl)
                          (IsJuste-put fenetre_email_ms limite last t.instant k (cle_email t.mail)
                            hist l.par_email le room' h)
                  ]
        ]

  all_email :
      (k : String) (w last : ℕ) (hist : List ℕ) (ts : List Tentative) (l : Limiteur)
      → InOrder last ts
      → IsJuste fenetre_email_ms limite last hist (l.par_email k)
      → count_where (is_dans fenetre_email_ms w) (hist ++ acceptes_email k ts l) ≤ limite
  all_email k w last hist [] l order h = rw append-nil (h.bounded w)
  all_email k w last hist (t ∷ ts) l order h =
      let new : List ℕ =
        if accepte t l && str_eq k (cle_email t.mail) then t.instant ∷ [] else [] in
      subst (λ xs. count_where (is_dans fenetre_email_ms w) xs ≤ limite)
        (append_assoc hist new (acceptes_email k ts (apres t l)))
        (all_email k w t.instant (hist ++ new) ts (apres t l) order.1
          (step_email k last hist t l order.0 h))

  -- Whatever attempts come in, in the order of their instants, no sixty seconds let through more than
  -- five from one address, and no fifteen minutes more than five for one e-mail.
  pub acceptes_bounded :
      (ts : List Tentative) (from w : ℕ) (key : String)
      → InOrder from ts
      → (count_where (is_dans fenetre_ip_ms w) (acceptes_ip key ts limiteur_vide) ≤ limite)
        × (count_where (is_dans fenetre_email_ms w) (acceptes_email key ts limiteur_vide) ≤ limite)
  acceptes_bounded ts from w key order = (
    all_ip key w from [] ts limiteur_vide order (IsJuste-empty fenetre_ip_ms limite from),
    all_email key w from [] ts limiteur_vide order (IsJuste-empty fenetre_email_ms limite from),
  )
