-- ===== src/Auth/Politique.antt =====
-- auth/password-policy.ts, `validatePasswordPolicy`. A string of JavaScript is the list of its UTF-16
-- code units, on which `length` and the four regular expressions work.
use Prim.Native.Char.{code}
use Prim.Native.String.{String, [], ◌∷◌}
use mathlib.Core.List.{List}
use mathlib.Core.List as List
use budget_backend.Base.{
  ℕ, ◌+◌, ◌-◌, ◌/◌, ◌%◌, ◌==◌, Bool, true, false, ◌&&◌, ◌||◌, not, ltb, leb, any, length,
  if◌then◌else◌,
}

abbrev pub unites_de : ℕ → List ℕ
unites_de c =
    if ltb c 65_536
    then List.◌∷◌ c List.[]
    else List.◌∷◌ (55_296 + (c - 65_536) / 1_024) (List.◌∷◌ (56_320 + (c - 65_536) % 1_024) List.[])

abbrev pub unites : String → List ℕ
unites [] = List.[]
unites (c ∷ s) = List.◌++◌ (unites_de (code c)) (unites s)

abbrev pub password_min_length : ℕ
password_min_length = 12

abbrev pub is_majuscule : ℕ → Bool
is_majuscule n = leb 65 n && leb n 90

abbrev pub is_minuscule : ℕ → Bool
is_minuscule n = leb 97 n && leb n 122

abbrev pub is_chiffre : ℕ → Bool
is_chiffre n = leb 48 n && leb n 57

abbrev pub is_special : ℕ → Bool
is_special n = not (is_majuscule n || is_minuscule n || is_chiffre n)

pub data ErreurPolitique : Type 0 where
  trop_court sans_majuscule sans_minuscule sans_chiffre sans_special : ErreurPolitique

abbrev erreur_si : Bool → ErreurPolitique → List ErreurPolitique
erreur_si true e = List.◌∷◌ e List.[]
erreur_si false e = List.[]

-- `erreurs`, in the order in which they are pushed
abbrev pub erreurs_politique : List ℕ → List ErreurPolitique
erreurs_politique mdp = List.◌++◌ (erreur_si (ltb (length mdp) password_min_length) trop_court) (
    List.◌++◌ (erreur_si (not (any is_majuscule mdp)) sans_majuscule) (
      List.◌++◌ (erreur_si (not (any is_minuscule mdp)) sans_minuscule) (
        List.◌++◌ (erreur_si (not (any is_chiffre mdp)) sans_chiffre)
          (erreur_si (not (any is_special mdp)) sans_special))))

-- `ok`
abbrev pub is_ok_politique : List ℕ → Bool
is_ok_politique mdp = length (erreurs_politique mdp) == 0
