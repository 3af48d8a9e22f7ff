-- ===== src/Auth/Temporaire.antt =====
-- auth/password-policy.ts, `genererMotDePasseTemporaire`. The bytes that randomBytes draws, one after
-- another, are the argument `octets`; a string is the list of its UTF-16 code units.
use budget_backend.Base.{
  ℕ, zero, suc, ◌+◌, ◌-◌, ◌%◌, Option, none, some, List, [], ◌∷◌, ◌++◌, ltb, length, if◌then◌else◌,
}
use budget_backend.Auth.Politique.{unites, password_min_length}

-- `xs[k]` and `xs[k] = v`; no call is out of range
abbrev pub get_elem : ℕ → List ℕ → ℕ
get_elem k [] = 0
get_elem zero (x ∷ xs) = x
get_elem (suc k) (x ∷ xs) = get_elem k xs

abbrev pub set_elem : ℕ → ℕ → List ℕ → List ℕ
set_elem k v [] = []
set_elem zero v (x ∷ xs) = v ∷ xs
set_elem (suc k) v (x ∷ xs) = x ∷ set_elem k v xs

abbrev pub alpha_majuscule : List ℕ
alpha_majuscule = unites "ABCDEFGHJKLMNPQRSTUVWXYZ"

abbrev pub alpha_minuscule : List ℕ
alpha_minuscule = unites "abcdefghijkmnpqrstuvwxyz"

abbrev pub alpha_chiffre : List ℕ
alpha_chiffre = unites "23456789"

abbrev pub alpha_special : List ℕ
alpha_special = unites "!@#$%&*?"

abbrev pub alpha_tous : List ℕ
alpha_tous = alpha_majuscule ++ (alpha_minuscule ++ (alpha_chiffre ++ alpha_special))

-- `pickChar`
abbrev pub pick_char : ℕ → List ℕ → ℕ
pick_char octet alphabet = get_elem (octet % length alphabet) alphabet

-- `for (let i = 4; i < longueur; i++)`, for the number of turns that are left
abbrev pub remplir : (ℕ → ℕ) → ℕ → ℕ → List ℕ
remplir octets k zero = []
remplir octets k (suc n) = pick_char (octets k) alpha_tous ∷ remplir octets (suc k) n

-- `[chars[i], chars[j]] = [chars[j], chars[i]]`
abbrev pub echanger : ℕ → ℕ → List ℕ → List ℕ
echanger i j xs = set_elem j (get_elem i xs) (set_elem i (get_elem j xs) xs)

-- `for (let i = chars.length - 1; i > 0; i--)`
abbrev pub melanger : (ℕ → ℕ) → ℕ → ℕ → List ℕ → List ℕ
melanger octets k zero xs = xs
melanger octets k (suc i) xs =
    melanger octets (suc k) i (echanger (suc i) (octets k % (suc i + 1)) xs)

abbrev pub initiaux : (ℕ → ℕ) → ℕ → List ℕ
initiaux octets longueur =
    pick_char (octets 0) alpha_majuscule
    ∷ pick_char (octets 1) alpha_minuscule
    ∷ pick_char (octets 2) alpha_chiffre
    ∷ pick_char (octets 3) alpha_special
    ∷ remplir octets 4 (longueur - 4)

-- `none` is the Error for a length below the minimum.
unfoldable pub generer_mot_de_passe_temporaire : (ℕ → ℕ) → ℕ → Option (List ℕ)
generer_mot_de_passe_temporaire octets longueur =
    if ltb longueur password_min_length
    then none
    else some (
        melanger octets longueur (length (initiaux octets longueur) - 1) (initiaux octets longueur))
