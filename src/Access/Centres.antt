-- ===== src/Access/Centres.antt =====
-- The queries for centres of budget/services/perimetre.service.ts: when their results hold a centre.
use budget_backend.Base.{
  ℕ, ◌≡◌, refl, ap, none, some, Bool, true, List, [], ◌∷◌, map, arith, ◌==◌, ◌&&◌, find_one,
  find_all, any, has, Bool-cases, inl, inr, ==_iff, ==_refl,
}
use budget_backend.Access.Store.{Centre, Store}
use budget_backend.Access.Structures.{is_centre_actif_sous}
use budget_backend.Access.Perimetre.{is_cr_courant, is_cr_actif, cr_courant, is_cr_courant_parmi}

abbrev pub is_rattache : ℕ → ℕ → Centre → Bool
is_rattache cr s c = (c.id == cr) && (c.fk_structure == s) && is_cr_actif c

abbrev pub is_cr_actif_of : ℕ → Centre → Bool
is_cr_actif_of cr c = (c.id == cr) && is_cr_actif c

pub has-ids :
    (cr : ℕ) (q : Centre → Bool) (cs : List Centre)
    → has cr (map (λ c. c.id) (find_all q cs)) ≡ any (λ c. (c.id == cr) && q c) cs
has-ids cr q [] = refl
has-ids cr q (c ∷ cs) = ground (arith, has-ids cr q cs)

has_same : (a b : ℕ) (ks : List ℕ) → (a == b) ≡ true → has a ks ≡ has b ks
has_same a b ks e = ap (λ n. has n ks) ((==_iff a b).0 e)

-- An active centre under one of the structures, with the structure
pub any-sous :
    (cr : ℕ) (ids : List ℕ) (cs : List Centre)
    → any (λ c. (c.id == cr) && is_centre_actif_sous ids c) cs ≡ true
    → (s : ℕ) × (has s ids ≡ true) × (any (is_rattache cr s) cs ≡ true)
any-sous cr ids [] e = cc
any-sous cr ids (c ∷ cs) e = elim (Bool-cases ((c.id == cr) && is_centre_actif_sous ids c)) [
  | inl hit ↦ (c.fk_structure, ground arith, ground (arith, ==_refl c.fk_structure))
  | inr miss ↦ let (s, in_ids, r) = any-sous cr ids cs (rw miss at e) in (s, in_ids, ground arith)
]

pub sous-any :
    (cr s : ℕ) (ids : List ℕ) (cs : List Centre)
    → has s ids ≡ true
    → any (is_rattache cr s) cs ≡ true
    → any (λ c. (c.id == cr) && is_centre_actif_sous ids c) cs ≡ true
sous-any cr s ids [] h e = cc
sous-any cr s ids (c ∷ cs) h e = ground (arith, has_same c.fk_structure s ids, sous-any cr s ids cs)

pub has-cr_courant :
    (k cr : ℕ) (db : Store)
    → has k (cr_courant cr db) ≡ any (is_cr_courant k) db.centres && (cr == k)
has-cr_courant k cr db = go db.centres
  where
    go :
        (cs : List Centre)
        → has k (elim (find_one (is_cr_courant cr) cs) [ none ↦ [] | some c ↦ c.id ∷ [] ])
          ≡ any (is_cr_courant k) cs && (cr == k)
    go [] = refl
    go (c ∷ cs) = ground (arith, go cs)

pub any-parmi :
    (cr : ℕ) (ids : List ℕ) (cs : List Centre)
    → any (λ c. (c.id == cr) && is_cr_courant_parmi ids c) cs
      ≡ has cr ids && any (is_cr_courant cr) cs
any-parmi cr ids [] = ground arith
any-parmi cr ids (c ∷ cs) = ground (arith, has_same c.id cr ids, any-parmi cr ids cs)
