-- ===== src/Access/Descendants.antt =====
-- The loop of descendantsStructure: it ends, and finds the structures below the root and no others.
use budget_backend.Base.{
  ℕ, zero, suc, ◌≤◌, ◌<◌, ◌≡◌, refl, Bool, true, false, none, some, List, [], ◌∷◌, arith, ◌==◌,
  ◌&&◌, has, any, length, find_one, Bool-cases, Option-cases, inl, inr, ◌↔◌, ==_iff, ◌⊎◌,
  find_one_sound,
}
use mathlib.Core.Bool.{true≢false}
use mathlib.Core.Path.{subst, sym, ap, ◌∙◌}
use budget_backend.Access.Store.{Structure}
use budget_backend.Access.Structures.{
  enfants, couche, boucle, depart, descendants_structure, has_parent_in, is_enfant_courant,
  is_structure_active, depuis,
}
use budget_backend.Access.Visite.{
  restantes, has-enfants, existe-enfant, has_self, has-visiter_tous, added-visiter_tous,
  from-visiter_tous, progress-visiter_tous,
}

abbrev pub is_enfant_de : ℕ → ℕ → Structure → Bool
is_enfant_de parent id s = (s.id == id) && is_enfant_courant (parent ∷ []) s

-- `id` is `racine` or a current structure below it.
pub data Descend (ss : List Structure) (racine : ℕ) : ℕ → Type 0 where
  ici : Descend ss racine racine
  dessous :
      (parent id : ℕ)
      → Descend ss racine parent
      → any (is_enfant_de parent id) ss ≡ true
      → Descend ss racine id

boucle-empty :
    (fuel : ℕ) (ss : List Structure) (v : List ℕ × List ℕ)
    → (v.1 ≡ []) ⊎ (restantes ss v.0 < fuel)
    → (boucle fuel ss v).1 ≡ []
boucle-empty zero ss v h = ground arith
boucle-empty (suc fuel) ss (all, []) h = refl
boucle-empty (suc fuel) ss (all, f ∷ fs) h = boucle-empty fuel ss (couche ss all (f ∷ fs)) (
    ground (
      arith,
      progress-visiter_tous ss (enfants (f ∷ fs) ss) all [] (λ k e.
          existe-enfant k (is_enfant_courant (f ∷ fs)) ss
            (ground (arith, has-enfants k (f ∷ fs) ss))),
    ))

restantes-le : (ss : List Structure) (all : List ℕ) → restantes ss all ≤ length ss
restantes-le [] all = omega arith
restantes-le (s ∷ ss) all = ground (arith, restantes-le ss all)

-- The loop of descendantsStructure ends: from any root, it has an empty frontier after at most one
-- turn more than there are structures.
pub boucle-ends :
    (ss : List Structure) (racine : ℕ) → (boucle (suc (length ss)) ss (depart racine)).1 ≡ []
boucle-ends ss racine =
    boucle-empty (suc (length ss)) ss (depart racine)
      (inr (ground (arith, restantes-le ss (racine ∷ []))))

-- The loop's invariant.
record IsParcours (ss : List Structure) (racine : ℕ) (v : List ℕ × List ℕ) : Type 0 where
  pub start : has racine v.0 ≡ true
  pub sound : (k : ℕ) → has k v.0 ≡ true → Descend ss racine k
  pub front : (k : ℕ) → has k v.1 ≡ true → has k v.0 ≡ true
  pub closed :
      (p : ℕ)
      → has p v.0 ≡ true
      → (has p v.1 ≡ true) ⊎ ((k : ℕ) → any (is_enfant_de p k) ss ≡ true → has k v.0 ≡ true)

in_front :
    (s : Structure) (p : ℕ) (ps : List ℕ)
    → has p ps ≡ true
    → has_parent_in (p ∷ []) s ≡ true
    → has_parent_in ps s ≡ true
in_front s p [] h par = cc
in_front s p (x ∷ ps) h par = ground (arith, in_front s p ps)

-- The children of a structure of the frontier are among the rows that are read.
enfants-in :
    (p k : ℕ) (ps : List ℕ) (ss : List Structure)
    → has p ps ≡ true
    → any (is_enfant_de p k) ss ≡ true
    → any (λ s. (s.id == k) && is_enfant_courant ps s) ss ≡ true
enfants-in p k ps [] h e = cc
enfants-in p k ps (s ∷ ss) h e = ground (arith, in_front s p ps, enfants-in p k ps ss)

-- A row that is read is a child of a structure of the frontier.
parent-of :
    (k : ℕ) (ps : List ℕ) (ss : List Structure)
    → any (λ s. (s.id == k) && is_enfant_courant ps s) ss ≡ true
    → (p : ℕ) × (has p ps ≡ true) × (any (is_enfant_de p k) ss ≡ true)
parent-of k ps [] e = cc
parent-of k ps (s ∷ ss) e = elim (Bool-cases ((s.id == k) && is_enfant_courant ps s)) [
  | inl hit ↦ elim (Option-cases s.fk_structure_parent) [
    | inl orphan ↦ ground arith
    | inr (p, par) ↦ (p, ground arith, ground (arith, has_self p []))
  ]
  | inr miss ↦ let (p, in_ps, child) = parent-of k ps ss (rw miss at e) in (p, in_ps, ground arith)
]

IsParcours-depart : (ss : List Structure) (racine : ℕ) → IsParcours ss racine (depart racine)
IsParcours-depart ss racine = record {
  start = has_self racine [];
  sound = λ k h. subst (λ n. Descend ss racine n) ((==_iff racine k).0 (ground arith)) ici;
  front = λ k h. h;
  closed = λ p h. inl h;
}

module _ (ss : List Structure) (racine : ℕ) (all frontiere : List ℕ)
    (inv : IsParcours ss racine (all, frontiere)) where
  couche_sound : (k : ℕ) → has k (couche ss all frontiere).0 ≡ true → Descend ss racine k
  couche_sound k h = elim (Bool-cases (has k all)) [
    | inl old ↦ inv.sound k old
    | inr neuf ↦
        let (p, in_front, child) = parent-of k frontiere ss (
          ground (
            arith,
            has-visiter_tous k (enfants frontiere ss) all [],
            has-enfants k frontiere ss,
          )) in
        dessous p k (inv.sound p (inv.front p in_front)) child
  ]

  couche_closed :
      (p : ℕ)
      → has p (couche ss all frontiere).0 ≡ true
      → (has p (couche ss all frontiere).1 ≡ true)
        ⊎ ((k : ℕ) → any (is_enfant_de p k) ss ≡ true → has k (couche ss all frontiere).0 ≡ true)
  couche_closed p h = elim (added-visiter_tous p (enfants frontiere ss) all [] h) [
    | inr next ↦ inl next
    | inl old ↦ inr (λ k child. elim (inv.closed p old) [
      | inl now ↦ ground (
        arith,
        has-visiter_tous k (enfants frontiere ss) all [],
        has-enfants k frontiere ss,
        enfants-in p k frontiere ss now child,
      )
      | inr before ↦
          ground (arith, has-visiter_tous k (enfants frontiere ss) all [], before k child)
    ])
  ]

  IsParcours-couche : IsParcours ss racine (couche ss all frontiere)
  IsParcours-couche = record {
    start = ground (arith, has-visiter_tous racine (enfants frontiere ss) all [], inv.start);
    sound = couche_sound;
    front = λ k h. ground (
      arith,
      from-visiter_tous k (enfants frontiere ss) all [],
      has-visiter_tous k (enfants frontiere ss) all [],
    );
    closed = couche_closed;
  }

IsParcours-boucle :
    (fuel : ℕ) (ss : List Structure) (racine : ℕ) (v : List ℕ × List ℕ)
    → IsParcours ss racine v
    → IsParcours ss racine (boucle fuel ss v)
IsParcours-boucle zero ss racine v inv = inv
IsParcours-boucle (suc fuel) ss racine (all, []) inv = inv
IsParcours-boucle (suc fuel) ss racine (all, f ∷ fs) inv =
    IsParcours-boucle fuel ss racine (couche ss all (f ∷ fs))
      (IsParcours-couche ss racine all (f ∷ fs) inv)

-- Where the loop stands with an empty frontier, `all` is closed under children.
closed_complete :
    (ss : List Structure) (racine k : ℕ) (v : List ℕ × List ℕ)
    → IsParcours ss racine v
    → v.1 ≡ []
    → Descend ss racine k
    → has k v.0 ≡ true
closed_complete ss racine k v inv done ici = inv.start
closed_complete ss racine k v inv done (dessous parent id up child) =
    elim (inv.closed parent (closed_complete ss racine parent v inv done up)) [
      | inl front ↦ ground arith
      | inr children ↦ children id child
    ]

any-find_one :
    (p : Structure → Bool) (ss : List Structure)
    → (find_one p ss ≡ none → any p ss ≡ false)
      × ((s : Structure) → find_one p ss ≡ some s → any p ss ≡ true)
any-find_one p [] = ground arith
any-find_one p (s ∷ ss) = elim (Bool-cases (p s)) [
  | inl hit ↦ (λ e. ground arith, λ r e. ground arith)
  | inr miss ↦ rw miss (any-find_one p ss)
]

find_one-id :
    (id : ℕ) (ss : List Structure) {s : Structure}
    → find_one (is_structure_active id) ss ≡ some s
    → s.id ≡ id
find_one-id id ss {s = s} e = ground (arith, find_one_sound (is_structure_active id) ss {r = s} e)

-- descendantsStructure returns the structure asked for and the current structures below it, at any
-- depth, deactivated ones included, and no other, if that structure is current and active; otherwise
-- it returns none.
pub descendants_structure-Descend :
    (id k : ℕ) (ss : List Structure)
    → (has k (descendants_structure id ss) ≡ true)
      ↔ ((any (is_structure_active id) ss ≡ true) × Descend ss id k)
unfolding descendants_structure
descendants_structure-Descend id k ss = elim (Option-cases (find_one (is_structure_active id) ss)) [
  | inl missing ↦ (
    λ h. absurd (true≢false (sym h ∙ ap (λ o. has k (depuis ss o)) missing)),
    λ (found, d).
        absurd (true≢false (sym found ∙ (any-find_one (is_structure_active id) ss).0 missing)),
  )
  | inr (s, e) ↦ (
    λ h. (
      (any-find_one (is_structure_active id) ss).1 s e,
      subst (λ n. Descend ss n k) (find_one-id id ss e)
          ((parcours s.id).sound k (sym (ap (λ o. has k (depuis ss o)) e) ∙ h)),
    ),
    λ (found, d).
        ap (λ o. has k (depuis ss o)) e
        ∙ closed_complete ss s.id k (boucle (suc (length ss)) ss (depart s.id)) (parcours s.id)
            (boucle-ends ss s.id) (subst (λ n. Descend ss n k) (sym (find_one-id id ss e)) d),
  )
]
  where
    parcours : (r : ℕ) → IsParcours ss r (boucle (suc (length ss)) ss (depart r))
    parcours r = IsParcours-boucle (suc (length ss)) ss r (depart r) (IsParcours-depart ss r)
