-- ===== src/Access/Structures.antt =====
-- budget/services/perimetre.service.ts, `descendantsStructure` and `crsSousStructure`: the structures
-- below a structure, layer by layer, and the centres attached to them. The loop has fuel; it starts
-- with one more than the number of structures.
use budget_backend.Base.{
  ℕ, zero, suc, Option, none, some, Bool, false, List, [], ◌∷◌, ◌++◌, map, ◌==◌, ◌&&◌, has,
  find_one, find_all, length, if◌then◌else◌,
}
use budget_backend.Access.Store.{Structure, Centre, Store}

-- `fk_structure_parent IN (...)`
abbrev pub has_parent_in : List ℕ → Structure → Bool
has_parent_in ids s = elim s.fk_structure_parent [ none ↦ false | some p ↦ has p ids ]

abbrev pub is_enfant_courant : List ℕ → Structure → Bool
is_enfant_courant ids s = has_parent_in ids s && s.version_courante

abbrev pub enfants : List ℕ → List Structure → List ℕ
enfants frontiere ss = map (λ s. s.id) (find_all (is_enfant_courant frontiere) ss)

-- `if (!all.has(id)) { all.add(id); next.push(id); }`, on the pair of `all` and `next`
abbrev pub visiter : ℕ → List ℕ × List ℕ → List ℕ × List ℕ
visiter id (all, next) = if has id all then (all, next) else (all ++ (id ∷ []), next ++ (id ∷ []))

abbrev pub visiter_tous : List ℕ → List ℕ × List ℕ → List ℕ × List ℕ
visiter_tous [] v = v
visiter_tous (id ∷ ids) v = visiter_tous ids (visiter id v)

-- One turn of the loop.
abbrev pub couche : List Structure → List ℕ → List ℕ → List ℕ × List ℕ
couche ss all frontiere = visiter_tous (enfants frontiere ss) (all, [])

-- `while (frontiere.length > 0)`: `all` and the frontier where the loop stands after `fuel` turns
abbrev pub boucle : ℕ → List Structure → List ℕ × List ℕ → List ℕ × List ℕ
boucle zero ss v = v
boucle (suc fuel) ss (all, []) = (all, [])
boucle (suc fuel) ss (all, f ∷ fs) = boucle fuel ss (couche ss all (f ∷ fs))

abbrev pub is_structure_active : ℕ → Structure → Bool
is_structure_active id s = (s.id == id) && s.version_courante && s.est_actif

abbrev pub depart : ℕ → List ℕ × List ℕ
depart id = (id ∷ [], id ∷ [])

-- `[]` for a root that is not found
abbrev pub depuis : List Structure → Option Structure → List ℕ
depuis ss none = []
depuis ss (some racine) = (boucle (suc (length ss)) ss (depart racine.id)).0

unfoldable pub descendants_structure : ℕ → List Structure → List ℕ
descendants_structure id ss = depuis ss (find_one (is_structure_active id) ss)

abbrev pub is_centre_actif_sous : List ℕ → Centre → Bool
is_centre_actif_sous ids c = has c.fk_structure ids && c.version_courante && c.est_actif

unfoldable pub crs_sous_structure : ℕ → Store → List ℕ
unfolding descendants_structure
crs_sous_structure id db =
    map (λ c. c.id)
      (find_all (is_centre_actif_sous (descendants_structure id db.structures)) db.centres)
