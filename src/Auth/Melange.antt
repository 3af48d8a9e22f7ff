-- ===== src/Auth/Melange.antt =====
-- auth/password-policy.ts: the temporary password keeps the policy, whatever bytes are drawn.
use budget_backend.Base.{
  ℕ, zero, suc, ◌+◌, ◌-◌, ◌%◌, ◌≤◌, ◌<◌, ◌≡◌, refl, ◌∙◌, some, Bool, true, false, List, [], ◌∷◌,
  arith, ltb, ◌==◌, any, every, length, Bool-cases, inl, inr, ==_iff,
}
use native.Mathlib.Nat.{mod-lt}
use budget_backend.Auth.Politique.{
  is_majuscule, is_minuscule, is_chiffre, is_special, is_ok_politique, password_min_length,
}
use budget_backend.Auth.Temporaire.{
  get_elem, set_elem, alpha_majuscule, alpha_minuscule, alpha_chiffre, alpha_special, pick_char,
  remplir, echanger, melanger, initiaux, generer_mot_de_passe_temporaire,
}

length-set_elem : (k v : ℕ) (xs : List ℕ) → length (set_elem k v xs) ≡ length xs
length-set_elem k v [] = refl
length-set_elem zero v (x ∷ xs) = refl
length-set_elem (suc k) v (x ∷ xs) = ground (arith, length-set_elem k v xs)

get_same : (k v : ℕ) (xs : List ℕ) → k < length xs → get_elem k (set_elem k v xs) ≡ v
get_same k v [] h = ground arith
get_same zero v (x ∷ xs) h = refl
get_same (suc k) v (x ∷ xs) h = get_same k v xs (omega arith)

get_other :
    (k i v : ℕ) (xs : List ℕ) → (k == i) ≡ false → get_elem k (set_elem i v xs) ≡ get_elem k xs
get_other k i v [] h = refl
get_other zero zero v (x ∷ xs) h = ground arith
get_other zero (suc i) v (x ∷ xs) h = refl
get_other (suc k) zero v (x ∷ xs) h = refl
get_other (suc k) (suc i) v (x ∷ xs) h = get_other k i v xs (ground arith)

any-get_elem :
    (p : ℕ → Bool) (xs : List ℕ)
    → any p xs ≡ true
    → (k : ℕ) × (k < length xs) × (p (get_elem k xs) ≡ true)
any-get_elem p [] h = cc
any-get_elem p (x ∷ xs) h = elim (Bool-cases (p x)) [
  | inl hit ↦ (0, omega arith, hit)
  | inr miss ↦ let (k, inside, has) = any-get_elem p xs (rw miss at h) in (suc k, omega arith, has)
]

get_elem-any :
    (p : ℕ → Bool) (k : ℕ) (xs : List ℕ)
    → k < length xs
    → p (get_elem k xs) ≡ true
    → any p xs ≡ true
get_elem-any p k [] h has = ground arith
get_elem-any p zero (x ∷ xs) h has = ground arith
get_elem-any p (suc k) (x ∷ xs) h has = ground (arith, get_elem-any p k xs)

length-echanger : (i j : ℕ) (xs : List ℕ) → length (echanger i j xs) ≡ length xs
length-echanger i j xs =
    length-set_elem j (get_elem i xs) (set_elem i (get_elem j xs) xs)
    ∙ length-set_elem i (get_elem j xs) xs

-- A swap keeps what is in the list.
any-echanger :
    (p : ℕ → Bool) (i j : ℕ) (xs : List ℕ)
    → i < length xs
    → j < length xs
    → any p xs ≡ true
    → any p (echanger i j xs) ≡ true
any-echanger p i j xs hi hj h =
    let (k, inside, has) = any-get_elem p xs h in
    let ys = set_elem i (get_elem j xs) xs in
    let len = length-set_elem i (get_elem j xs) xs in
    elim (Bool-cases (k == i)) [
      | inl at_i ↦
          get_elem-any p j (echanger i j xs) (ground (arith, length-echanger i j xs))
            (ground (arith, get_same j (get_elem i xs) ys, (==_iff k i).0 at_i))
      | inr not_i ↦ elim (Bool-cases (k == j)) [
        | inl at_j ↦ get_elem-any p i (echanger i j xs) (ground (arith, length-echanger i j xs)) (
            ground (
              arith,
              get_other i j (get_elem i xs) ys,
              get_same i (get_elem j xs) xs,
              (==_iff k j).0 at_j,
            ))
        | inr not_j ↦ get_elem-any p k (echanger i j xs) (ground (arith, length-echanger i j xs)) (
            ground (
              arith,
              get_other k j (get_elem i xs) ys not_j,
              get_other k i (get_elem j xs) xs not_i,
            ))
      ]
    ]

any-melanger :
    (p : ℕ → Bool) (octets : ℕ → ℕ) (k i : ℕ) (xs : List ℕ)
    → i < length xs
    → any p xs ≡ true
    → any p (melanger octets k i xs) ≡ true
any-melanger p octets k zero xs hi h = h
any-melanger p octets k (suc i) xs hi h =
    let j = octets k % (suc i + 1) in
    let small : j < suc i + 1 = mod-lt (octets k) (omega arith) in
    any-melanger p octets (suc k) i (echanger (suc i) j xs)
      (ground (arith, length-echanger (suc i) j xs))
      (any-echanger p (suc i) j xs hi (omega arith) h)

length-melanger :
    (octets : ℕ → ℕ) (k i : ℕ) (xs : List ℕ) → length (melanger octets k i xs) ≡ length xs
length-melanger octets k zero xs = refl
length-melanger octets k (suc i) xs =
    length-melanger octets (suc k) i (echanger (suc i) (octets k % (suc i + 1)) xs)
    ∙ length-echanger (suc i) (octets k % (suc i + 1)) xs

length-remplir : (octets : ℕ → ℕ) (k n : ℕ) → length (remplir octets k n) ≡ n
length-remplir octets k zero = refl
length-remplir octets k (suc n) = ground (arith, length-remplir octets (suc k) n)

every-get_elem :
    (p : ℕ → Bool) (k : ℕ) (xs : List ℕ)
    → k < length xs
    → every p xs ≡ true
    → p (get_elem k xs) ≡ true
every-get_elem p k [] h all = ground arith
every-get_elem p zero (x ∷ xs) h all = ground arith
every-get_elem p (suc k) (x ∷ xs) h all = every-get_elem p k xs (omega arith) (ground arith)

pick_char-in :
    (p : ℕ → Bool) (octet : ℕ) (alphabet : List ℕ)
    → 0 < length alphabet
    → every p alphabet ≡ true
    → p (pick_char octet alphabet) ≡ true
pick_char-in p octet alphabet some_char all =
    every-get_elem p (octet % length alphabet) alphabet (mod-lt octet some_char) all

politique-ok :
    (mdp : List ℕ)
    → 12 ≤ length mdp
    → any is_majuscule mdp ≡ true
    → any is_minuscule mdp ≡ true
    → any is_chiffre mdp ≡ true
    → any is_special mdp ≡ true
    → is_ok_politique mdp ≡ true
politique-ok mdp long a b c d = ground (arith, Bool-cases (ltb (length mdp) password_min_length))

-- A temporary password of the length asked for keeps the policy for passwords, whatever bytes are
-- drawn; only a length below the minimum of twelve is refused.
pub generer_mot_de_passe_temporaire-is_ok_politique :
    (octets : ℕ → ℕ) (longueur : ℕ)
    → 12 ≤ longueur
    → (mdp : List ℕ) × (generer_mot_de_passe_temporaire octets longueur ≡ some mdp)
      × (length mdp ≡ longueur)
      × (is_ok_politique mdp ≡ true)
unfolding generer_mot_de_passe_temporaire
generer_mot_de_passe_temporaire-is_ok_politique octets longueur h =
    let xs = initiaux octets longueur in
    let n : length xs ≡ longueur = ground (arith, length-remplir octets 4 (longueur - 4)) in
    let mdp = melanger octets longueur (length xs - 1) xs in
    let len : length mdp ≡ longueur = length-melanger octets longueur (length xs - 1) xs ∙ n in
    let within : length xs - 1 < length xs = omega arith in
    let keep = λ (p : ℕ → Bool). any-melanger p octets longueur (length xs - 1) xs within in
    (
      mdp,
      ground arith,
      len,
      politique-ok mdp (omega arith)
          (keep is_majuscule (
            get_elem-any is_majuscule 0 xs (omega arith)
              (pick_char-in is_majuscule (octets 0) alpha_majuscule (omega arith) refl)))
          (keep is_minuscule (
            get_elem-any is_minuscule 1 xs (omega arith)
              (pick_char-in is_minuscule (octets 1) alpha_minuscule (omega arith) refl)))
          (keep is_chiffre (
            get_elem-any is_chiffre 2 xs (omega arith)
              (pick_char-in is_chiffre (octets 2) alpha_chiffre (omega arith) refl)))
          (keep is_special (
            get_elem-any is_special 3 xs (omega arith)
              (pick_char-in is_special (octets 3) alpha_special (omega arith) refl))),
    )
