-- ===== src/Access/Couverture.antt =====
-- budget/services/perimetre.service.ts: which centres a perimeter covers, and that the computed list
-- is those.
use mathlib.Core.List.{Memᴰ}
use mathlib.Core.Path.{subst}
use budget_backend.Base.{
  ℕ, ◌≡◌, refl, sym, ◌∙◌, ap, Option, none, some, Bool, true, false, List, [], ◌∷◌, arith, ◌&&◌,
  ◌||◌, ◌↔◌, find_all, any, has, set_add_all, has-set_add_all, Bool-cases, inl, inr, ==_iff,
  ==_refl,
}
use budget_backend.Access.Store.{
  CiblePerimetreType, cible_structure, cible_cr, cible_cr_set, cible_global, UserPerimetre, Store,
  is_perimetre_actif,
}
use budget_backend.Access.Structures.{
  descendants_structure, crs_sous_structure, is_centre_actif_sous, is_structure_active,
}
use budget_backend.Access.Centres.{
  is_rattache, is_cr_actif_of, has-ids, any-sous, sous-any, has-cr_courant, any-parmi,
}
use budget_backend.Access.Descendants.{Descend, descendants_structure-Descend}
use budget_backend.Access.Perimetre.{
  is_cr_courant, is_cr_actif, is_cr_courant_parmi, crs_de, reunir, has_cible_global,
  get_perimetre_effectif,
}

-- What a target other than everything covers.
pub data Couvre (db : Store) (cr : ℕ)
    : CiblePerimetreType → Option ℕ → Option (List ℕ) → Type 0 where
  -- an active centre of the structure, or of a current structure below it
  par_structure :
      (s dessous : ℕ) (ids : Option (List ℕ))
      → any (is_structure_active s) db.structures ≡ true
      → Descend db.structures s dessous
      → any (is_rattache cr dessous) db.centres ≡ true
      → Couvre db cr cible_structure (some s) ids
  -- the centre named, while it is current
  par_cr :
      (ids : Option (List ℕ))
      → any (is_cr_courant cr) db.centres ≡ true
      → Couvre db cr cible_cr (some cr) ids
  -- a current centre of the set
  par_cr_set :
      (id : Option ℕ) (ids : List ℕ)
      → has cr ids ≡ true
      → any (is_cr_courant cr) db.centres ≡ true
      → Couvre db cr cible_cr_set id (some ids)

-- What the active assignments of a user at a day cover, all together: one on everything covers
-- exactly the active centres.
pub data Autorise (user date cr : ℕ) (db : Store) : Type 0 where
  par_global :
      any has_cible_global (find_all (is_perimetre_actif user date) db.user_perimetres) ≡ true
      → any (is_cr_actif_of cr) db.centres ≡ true
      → Autorise user date cr db
  par_affectation :
      (p : UserPerimetre)
      → any has_cible_global (find_all (is_perimetre_actif user date) db.user_perimetres) ≡ false
      → Memᴰ p db.user_perimetres
      → is_perimetre_actif user date p ≡ true
      → Couvre db cr p.cible_type p.cible_id p.cible_cr_ids
      → Autorise user date cr db

Couvre-of :
    (db : Store) (cr : ℕ) (t : CiblePerimetreType) (id : Option ℕ) (ids : Option (List ℕ))
    → has cr (crs_de db t id ids) ≡ true
    → Couvre db cr t id ids
unfolding crs_sous_structure
Couvre-of db cr cible_structure (some s) ids h =
    let (dessous, in_ids, r) = any-sous cr (descendants_structure s db.structures) db.centres (
      sym (has-ids cr (is_centre_actif_sous (descendants_structure s db.structures)) db.centres)
      ∙ h) in
    let (found, below) = (descendants_structure-Descend s dessous db.structures).0 in_ids in
    par_structure s dessous ids found below r
Couvre-of db cr cible_structure none ids h = cc
Couvre-of db cr cible_cr (some c) ids h =
    subst (λ n. Couvre db cr cible_cr (some n) ids)
      (sym ((==_iff c cr).0 (ground (arith, has-cr_courant cr c db))))
      (par_cr ids (ground (arith, has-cr_courant cr c db)))
Couvre-of db cr cible_cr none ids h = cc
Couvre-of db cr cible_cr_set id (some ids) h =
    par_cr_set id ids
      (ground (arith, has-ids cr (is_cr_courant_parmi ids) db.centres, any-parmi cr ids db.centres))
      (ground (arith, has-ids cr (is_cr_courant_parmi ids) db.centres, any-parmi cr ids db.centres))
Couvre-of db cr cible_cr_set id none h = cc
Couvre-of db cr cible_global id ids h = cc

has-Couvre :
    (db : Store) (cr : ℕ) (t : CiblePerimetreType) (id : Option ℕ) (ids : Option (List ℕ))
    → Couvre db cr t id ids
    → has cr (crs_de db t id ids) ≡ true
unfolding crs_sous_structure
has-Couvre db cr t id ids (par_structure s dessous _ found below r) =
    has-ids cr (is_centre_actif_sous (descendants_structure s db.structures)) db.centres
    ∙ sous-any cr dessous (descendants_structure s db.structures) db.centres
        ((descendants_structure-Descend s dessous db.structures).1 (found, below)) r
has-Couvre db cr t id ids (par_cr _ current) = ground (arith, has-cr_courant cr cr db, ==_refl cr)
has-Couvre db cr t id ids (par_cr_set _ set in_ids current) =
    ground (arith, has-ids cr (is_cr_courant_parmi set) db.centres, any-parmi cr set db.centres)

abbrev a_pour_cible : Store → ℕ → UserPerimetre → Bool
a_pour_cible db cr p = has cr (crs_de db p.cible_type p.cible_id p.cible_cr_ids)

has-reunir :
    (db : Store) (cr : ℕ) (ps : List UserPerimetre) (set : List ℕ)
    → has cr (reunir db ps set) ≡ has cr set || any (a_pour_cible db cr) ps
has-reunir db cr [] set = ground arith
has-reunir db cr (p ∷ ps) set = ground (
  arith,
  has-reunir db cr ps (set_add_all (crs_de db p.cible_type p.cible_id p.cible_cr_ids) set),
  has-set_add_all cr (crs_de db p.cible_type p.cible_id p.cible_cr_ids) set,
)

Mem-of_any :
    (act q : UserPerimetre → Bool) (ps : List UserPerimetre)
    → any q (find_all act ps) ≡ true
    → (p : UserPerimetre) × Memᴰ p ps × (act p ≡ true) × (q p ≡ true)
Mem-of_any act q [] e = cc
Mem-of_any act q (p ∷ ps) e = elim (Bool-cases (act p && q p)) [
  | inl hit ↦ (p, Memᴰ.head refl, ground arith, ground arith)
  | inr miss ↦ let (r, mem, a, b) = Mem-of_any act q ps (ground arith) in (r, Memᴰ.tail mem, a, b)
]

any-of_Mem :
    (act q : UserPerimetre → Bool) (p : UserPerimetre) (ps : List UserPerimetre)
    → Memᴰ p ps
    → act p ≡ true
    → q p ≡ true
    → any q (find_all act ps) ≡ true
any-of_Mem act q p [] mem a b = elim mem [ ]
any-of_Mem act q p (r ∷ ps) (Memᴰ.head e) a b = ground (arith, sym (ap act e) ∙ a, sym (ap q e) ∙ b)
any-of_Mem act q p (r ∷ ps) (Memᴰ.tail mem) a b = ground (arith, any-of_Mem act q p ps mem a b)

-- getPerimetreEffectif returns a centre exactly where the assignments that are active at the day
-- cover it: with one on everything among them, the active centres; otherwise the active centres of
-- the structures named that are current and active and of the current structures below them,
-- deactivated ones included, and the current centres named.
pub get_perimetre_effectif-Autorise :
    (user date cr : ℕ) (db : Store)
    → (has cr (get_perimetre_effectif user date db) ≡ true) ↔ Autorise user date cr db
unfolding get_perimetre_effectif
get_perimetre_effectif-Autorise user date cr db = (forth, back)
  where
    act : UserPerimetre → Bool
    act = is_perimetre_actif user date

    actifs : List UserPerimetre
    actifs = find_all act db.user_perimetres

    forth : has cr (get_perimetre_effectif user date db) ≡ true → Autorise user date cr db
    forth h = elim (Bool-cases (any has_cible_global actifs)) [
      | inl everything ↦ par_global everything (ground (arith, has-ids cr is_cr_actif db.centres))
      | inr some_only ↦
          let (p, mem, a, b) =
            Mem-of_any act (a_pour_cible db cr) db.user_perimetres
              (ground (arith, has-reunir db cr actifs [])) in
          par_affectation p some_only mem a
            (Couvre-of db cr p.cible_type p.cible_id p.cible_cr_ids b)
    ]

    back : Autorise user date cr db → has cr (get_perimetre_effectif user date db) ≡ true
    back (par_global everything active) = ground (arith, has-ids cr is_cr_actif db.centres)
    back (par_affectation p some_only mem a couvre) = ground (
      arith,
      has-reunir db cr actifs [],
      any-of_Mem act (a_pour_cible db cr) p db.user_perimetres mem a
          (has-Couvre db cr p.cible_type p.cible_id p.cible_cr_ids couvre),
    )
