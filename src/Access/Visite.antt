-- ===== src/Access/Visite.antt =====
-- One turn of the loop of descendantsStructure: what it adds, and how many structures remain.
use budget_backend.Base.{
  ℕ, ◌≤◌, ◌<◌, ◌≡◌, refl, Bool, true, false, List, [], ◌∷◌, ◌++◌, arith, ◌==◌, ◌&&◌, ◌||◌, not, has,
  has-append, any, count_where, Bool-cases, inl, inr, ◌⊎◌,
}
use budget_backend.Access.Store.{Structure}
use budget_backend.Access.Structures.{enfants, visiter_tous, is_enfant_courant}

abbrev pub is_nouvelle : List ℕ → Structure → Bool
is_nouvelle all s = not (has s.id all)

-- How many structures are not in `all` yet.
abbrev pub restantes : List Structure → List ℕ → ℕ
restantes ss all = count_where (is_nouvelle all) ss

pub restantes-append :
    (ss : List Structure) (all : List ℕ) (id : ℕ)
    → restantes ss (all ++ (id ∷ [])) ≤ restantes ss all
restantes-append [] all id = omega arith
restantes-append (s ∷ ss) all id =
    ground (arith, has-append s.id all (id ∷ []), restantes-append ss all id)

restantes-append-less :
    (ss : List Structure) (all : List ℕ) (id : ℕ)
    → any (λ s. s.id == id) ss ≡ true
    → has id all ≡ false
    → restantes ss (all ++ (id ∷ [])) < restantes ss all
restantes-append-less [] all id present neuf = cc
restantes-append-less (s ∷ ss) all id present neuf = ground (
  arith,
  has-append s.id all (id ∷ []),
  restantes-append ss all id,
  restantes-append-less ss all id,
)

pub has-enfants :
    (k : ℕ) (frontiere : List ℕ) (ss : List Structure)
    → has k (enfants frontiere ss) ≡ any (λ s. (s.id == k) && is_enfant_courant frontiere s) ss
has-enfants k frontiere [] = refl
has-enfants k frontiere (s ∷ ss) = ground (arith, has-enfants k frontiere ss)

pub existe-enfant :
    (k : ℕ) (p : Structure → Bool) (ss : List Structure)
    → any (λ s. (s.id == k) && p s) ss ≡ true
    → any (λ s. s.id == k) ss ≡ true
existe-enfant k p [] h = cc
existe-enfant k p (s ∷ ss) h = ground (arith, existe-enfant k p ss)

pub has_self : (k : ℕ) (ks : List ℕ) → has k (k ∷ ks) ≡ true
has_self k ks = ground arith

-- What was next stays next, and what is in `all` stays in it.
pub has-visiter_tous :
    (k : ℕ) (ids all next : List ℕ)
    → has k (visiter_tous ids (all, next)).0 ≡ has k all || has k ids
has-visiter_tous k [] all next = ground arith
has-visiter_tous k (id ∷ ids) all next = elim (Bool-cases (has id all)) [
  | inl old ↦ ground (arith, has-visiter_tous k ids all next, has_equal k id all)
  | inr neuf ↦ ground (
    arith,
    has-visiter_tous k ids (all ++ (id ∷ [])) (next ++ (id ∷ [])),
    has-append k all (id ∷ []),
  )
]
  where
    has_equal : (k id : ℕ) (all : List ℕ) → (id == k) ≡ true → has k all ≡ has id all
    has_equal k id [] e = refl
    has_equal k id (x ∷ all) e = ground (arith, has_equal k id all)

pub next-visiter_tous :
    (k : ℕ) (ids all next : List ℕ)
    → has k next ≡ true
    → has k (visiter_tous ids (all, next)).1 ≡ true
next-visiter_tous k [] all next h = h
next-visiter_tous k (id ∷ ids) all next h = elim (Bool-cases (has id all)) [
  | inl old ↦ ground (arith, next-visiter_tous k ids all next)
  | inr neuf ↦ ground (
    arith,
    next-visiter_tous k ids (all ++ (id ∷ [])) (next ++ (id ∷ [])),
    has-append k next (id ∷ []),
  )
]

-- What `visiter_tous` adds to `all` is next.
pub added-visiter_tous :
    (k : ℕ) (ids all next : List ℕ)
    → has k (visiter_tous ids (all, next)).0 ≡ true
    → (has k all ≡ true) ⊎ (has k (visiter_tous ids (all, next)).1 ≡ true)
added-visiter_tous k [] all next h = inl h
added-visiter_tous k (id ∷ ids) all next h = elim (Bool-cases (has id all)) [
  | inl old ↦ ground (arith, added-visiter_tous k ids all next)
  | inr neuf ↦ ground (
    arith,
    added-visiter_tous k ids (all ++ (id ∷ [])) (next ++ (id ∷ [])),
    next-visiter_tous k ids (all ++ (id ∷ [])) (next ++ (id ∷ [])),
    has-append k all (id ∷ []),
    has-append k next (id ∷ []),
  )
]

-- What is next was next or is among the identifiers visited.
pub from-visiter_tous :
    (k : ℕ) (ids all next : List ℕ)
    → has k (visiter_tous ids (all, next)).1 ≡ true
    → (has k next ≡ true) ⊎ (has k ids ≡ true)
from-visiter_tous k [] all next h = inl h
from-visiter_tous k (id ∷ ids) all next h = elim (Bool-cases (has id all)) [
  | inl old ↦ ground (arith, from-visiter_tous k ids all next)
  | inr neuf ↦ ground (
    arith,
    from-visiter_tous k ids (all ++ (id ∷ [])) (next ++ (id ∷ [])),
    has-append k next (id ∷ []),
  )
]

restantes-visiter_tous :
    (ss : List Structure) (ids all next : List ℕ)
    → restantes ss (visiter_tous ids (all, next)).0 ≤ restantes ss all
restantes-visiter_tous ss [] all next = omega arith
restantes-visiter_tous ss (id ∷ ids) all next = elim (Bool-cases (has id all)) [
  | inl old ↦ ground (arith, restantes-visiter_tous ss ids all next)
  | inr neuf ↦ ground (
    arith,
    restantes-visiter_tous ss ids (all ++ (id ∷ [])) (next ++ (id ∷ [])),
    restantes-append ss all id,
  )
]

-- Either nothing is added to what is next, or fewer structures remain.
pub progress-visiter_tous :
    (ss : List Structure) (ids all next : List ℕ)
    → ((k : ℕ) → has k ids ≡ true → any (λ s. s.id == k) ss ≡ true)
    → ((visiter_tous ids (all, next)).1 ≡ next)
      ⊎ (restantes ss (visiter_tous ids (all, next)).0 < restantes ss all)
progress-visiter_tous ss [] all next h = inl refl
progress-visiter_tous ss (id ∷ ids) all next h = elim (Bool-cases (has id all)) [
  | inl old ↦ ground (arith, progress-visiter_tous ss ids all next (λ k in_ids. h k (ground arith)))
  | inr neuf ↦ inr (
      ground (
        arith,
        restantes-visiter_tous ss ids (all ++ (id ∷ [])) (next ++ (id ∷ [])),
        restantes-append-less ss all id (h id (has_self id ids)) neuf,
      ))
]
