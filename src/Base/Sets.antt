-- ===== src/Base/Sets.antt =====
-- A JavaScript `Set` of identifiers: its members in the order of insertion.
use Prim.Native.Nat.{ℕ}
use mathlib.Core.Path.{◌≡◌, refl}
use mathlib.Core.Bool.{Bool, true, ◌||◌}
use mathlib.Core.List.{List, [], ◌∷◌, ◌++◌}
use native.Mathlib.Omega.{arith}
use budget_backend.Base.Tests.{if◌then◌else◌, ◌==◌}
use budget_backend.Base.Table.{any}

-- `set.has(k)`, also Array.includes
abbrev pub has : ℕ → List ℕ → Bool
has k set = any (λ d. d == k) set

-- `set.add(c)`
abbrev pub set_add : ℕ → List ℕ → List ℕ
set_add c set = if has c set then set else set ++ (c ∷ [])

-- `crs.forEach((c) => set.add(c))`
abbrev pub set_add_all : List ℕ → List ℕ → List ℕ
set_add_all [] set = set
set_add_all (c ∷ cs) set = set_add_all cs (set_add c set)

pub has-append : (k : ℕ) (xs ys : List ℕ) → has k (xs ++ ys) ≡ has k xs || has k ys
has-append k [] ys = refl
has-append k (x ∷ xs) ys = ground (arith, has-append k xs ys)

pub has-set_add : (k c : ℕ) (set : List ℕ) → has k (set_add c set) ≡ has k set || (c == k)
has-set_add k c set = ground (arith, has-append k set (c ∷ []), has_same c k set)
  where
    has_same : (c k : ℕ) (set : List ℕ) → (c == k) ≡ true → has c set ≡ true → has k set ≡ true
    has_same c k [] e h = cc
    has_same c k (x ∷ set) e h = ground (arith, has_same c k set)

pub has-set_add_all : (k : ℕ) (cs set : List ℕ) → has k (set_add_all cs set) ≡ has k set || has k cs
has-set_add_all k [] set = ground arith
has-set_add_all k (c ∷ cs) set =
    ground (arith, has-set_add_all k cs (set_add c set), has-set_add k c set)
