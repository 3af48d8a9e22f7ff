-- ===== src/Auth/Epuises.antt =====
-- auth/password-reset.service.ts: a link that is used stays used.
use budget_backend.Base.{
  ℕ, String, ◌+◌, ◌*◌, ◌≤◌, ◌≡◌, refl, Option, none, some, Bool, true, false, List, [], ◌∷◌, ◌++◌,
  arith, ◌||◌, not, str_eq, any, every, find_one, update_where, delete_where, count_where,
  Bool-cases, Option-cases, inl, inr, ==_refl,
}
use budget_backend.Auth.Store.{User, PasswordResetToken, Store, user_has_id, reset_has_hash}
use budget_backend.Auth.Tokens.{Crypto, Config}
use budget_backend.Auth.Reset.{
  nouveau_token, token_duree_minutes, utiliser, reset_has_id, envoyer_lien, appliquer_reset,
}
use budget_backend.Auth.Requests.{Requete, Demande}

abbrev pub is_epuise : String → PasswordResetToken → Bool
is_epuise h t = not (reset_has_hash h t) || t.utilise

-- Every link with this hash is used.
abbrev pub are_epuises : String → List PasswordResetToken → Bool
are_epuises h ts = every (is_epuise h) ts

epuises-append :
    (h : String) (t : PasswordResetToken) (ts : List PasswordResetToken)
    → is_epuise h t ≡ true
    → are_epuises h ts ≡ true
    → are_epuises h (ts ++ (t ∷ [])) ≡ true
epuises-append h t [] one all = ground arith
epuises-append h t (x ∷ ts) one all = ground (arith, epuises-append h t ts)

pub epuises-utiliser :
    (h : String) (id now : ℕ) (ts : List PasswordResetToken)
    → are_epuises h ts ≡ true
    → are_epuises h (update_where (reset_has_id id) (utiliser now) ts) ≡ true
epuises-utiliser h id now [] all = refl
epuises-utiliser h id now (t ∷ ts) all = ground (arith, epuises-utiliser h id now ts)

pub epuises-delete :
    (h : String) (p : PasswordResetToken → Bool) (ts : List PasswordResetToken)
    → are_epuises h ts ≡ true
    → are_epuises h (delete_where p ts) ≡ true
epuises-delete h p [] all = refl
epuises-delete h p (t ∷ ts) all = ground (arith, epuises-delete h p ts)

epuises-none :
    (h : String) (id now : ℕ) (ts : List PasswordResetToken)
    → count_where (reset_has_hash h) ts ≡ 0
    → are_epuises h (update_where (reset_has_id id) (utiliser now) ts) ≡ true
epuises-none h id now [] none_has = refl
epuises-none h id now (t ∷ ts) none_has = ground (arith, epuises-none h id now ts)

-- The only link with the hash is used.
pub epuises-one :
    (h : String) (now : ℕ) (ts : List PasswordResetToken) {t : PasswordResetToken}
    → count_where (reset_has_hash h) ts ≤ 1
    → find_one (reset_has_hash h) ts ≡ some t
    → are_epuises h (update_where (reset_has_id t.id) (utiliser now) ts) ≡ true
epuises-one h now [] unique found = cc
epuises-one h now (x ∷ ts) {t = t} unique found = elim (Bool-cases (reset_has_hash h x)) [
  | inl hit ↦ ground (arith, epuises-none h t.id now ts, ==_refl t.id)
  | inr miss ↦ ground (arith, epuises-one h now ts {t = t})
]

pub find_one-epuise :
    (h : String) (ts : List PasswordResetToken) {t : PasswordResetToken}
    → are_epuises h ts ≡ true
    → find_one (reset_has_hash h) ts ≡ some t
    → t.utilise ≡ true
find_one-epuise h [] all found = cc
find_one-epuise h (x ∷ ts) {t = t} all found = ground (arith, find_one-epuise h ts {t = t})

-- The request draws a UUID with this hash for a link.
abbrev pub tire : Crypto → String → Demande → Bool
tire crypto h d = elim d.requete [
  | Requete.demander uuid email ↦ str_eq (crypto.hash_token uuid) h
  | _ ↦ false
]

module _ (crypto : Crypto) (config : Config) where
  pub epuises-envoyer_lien :
      (h : String) (now : ℕ) (uuid email : String) (who : Option User) (db : Store)
      → str_eq (crypto.hash_token uuid) h ≡ false
      → are_epuises h db.reset_tokens ≡ true
      → are_epuises h (envoyer_lien crypto config now uuid email who db).1.reset_tokens ≡ true
  epuises-envoyer_lien h now uuid email none db other all = all
  epuises-envoyer_lien h now uuid email (some user) db other all =
      let t =
        nouveau_token db.prochain_id user.id (crypto.hash_token uuid)
          (now + token_duree_minutes * 60_000) in
      elim (Bool-cases (any (reset_has_hash (crypto.hash_token uuid)) db.reset_tokens)) [
        | inl taken ↦ ground arith
        | inr free ↦ ground (arith, epuises-append h t db.reset_tokens)
      ]

  pub epuises-appliquer_reset :
      (h : String) (now : ℕ) (sel nouveau : String) (found : Option PasswordResetToken) (db : Store)
      → are_epuises h db.reset_tokens ≡ true
      → are_epuises h (appliquer_reset crypto config now sel nouveau found db).1.reset_tokens ≡ true
  epuises-appliquer_reset h now sel nouveau none db all = all
  epuises-appliquer_reset h now sel nouveau (some t) db all =
      elim (Option-cases (find_one (user_has_id t.fk_user) db.users)) [
        | inl nobody ↦ ground arith
        | inr (user, found) ↦ ground (arith, epuises-utiliser h t.id now db.reset_tokens)
      ]
