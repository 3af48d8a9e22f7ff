-- ===== src/Reforecast/Obsolescence.antt =====
-- reforecast.service.ts: what a launch makes of a version that is there already.
use budget_backend.Base.{
  ℕ, Option, none, some, true, ◌≡◌, ◌⊎◌, inl, inr, refl, List, [], ◌∷◌, ◌++◌, map, arith, find_one,
  find_one-update_where, find_one-append, find_all, Option-cases, Bool-cases, ◌==◌,
}
use budget_backend.Entities.{Db, AuthUser}
use budget_backend.Entities.Version.{DimVersion, StatutPublication, version_has_id, ouvert}
use budget_backend.Reforecast.Versions.{
  Realise, LancerReforecastDto, is_active, is_active_of, is_actif_de, obsolete_par,
  nouvelle_version,
}
use budget_backend.Reforecast.Lancement.{lancer}
use budget_backend.Reforecast.Marques.{marquee, marquees}
use budget_backend.Reforecast.Unicite.{lancer-versions}

-- `v` with the columns that say whether and how it is obsolete, and when it was changed, as in `w`
abbrev pub avec_obsolescence : DimVersion → DimVersion → DimVersion
avec_obsolescence w v = record v {
  statut_publication = w.statut_publication;
  date_obsolescence = w.date_obsolescence;
  fk_version_remplacante = w.fk_version_remplacante;
  date_modification = w.date_modification;
  utilisateur_modification = w.utilisateur_modification;
}

-- `v` was active, and `w` is the same version, obsolete.
abbrev pub DevientObsolete : DimVersion → DimVersion → Type 0
DevientObsolete v w =
    (is_active v.statut_publication ≡ true)
    × (w.statut_publication ≡ StatutPublication.obsolete)
    × (w ≡ avec_obsolescence w v)

abbrev pub IsGardee : DimVersion → DimVersion → Type 0
IsGardee v w = (w ≡ v) ⊎ DevientObsolete v w

pub IsGardee-trans : (u v w : DimVersion) → IsGardee u v → IsGardee v w → IsGardee u w
IsGardee-trans u v w (inl same) h = rw same at h
IsGardee-trans u v w (inr o) (inl same) = rw same (inr o)
IsGardee-trans u v w (inr o) (inr o') = ground (arith, o, o')

-- The row under a number, before and after the marks
abbrev pub AreGardees : Option DimVersion → Option DimVersion → Type 0
AreGardees none none = Unit {0}
AreGardees none (some w) = ⊥
AreGardees (some v) none = ⊥
AreGardees (some v) (some w) = IsGardee v w

AreGardees-trans : (o p q : Option DimVersion) → AreGardees o p → AreGardees p q → AreGardees o q
AreGardees-trans none none q h h' = h'
AreGardees-trans none (some v) q h h' = absurd h
AreGardees-trans (some u) none q h h' = absurd h
AreGardees-trans (some u) (some v) none h h' = h'
AreGardees-trans (some u) (some v) (some w) h h' = IsGardee-trans u v w h h'

module _ (remplacante now : ℕ) (user : AuthUser) (k : ℕ) where
  marquee-AreGardees :
      (id : ℕ) (vs : List DimVersion)
      → AreGardees
          (find_one (version_has_id k) vs)
          (find_one (version_has_id k) (marquee remplacante now user id vs))
  marquee-AreGardees id vs =
      let f = obsolete_par remplacante now user in
      let seen = find_one-update_where (version_has_id k) (is_active_of id) f vs (λ r h. refl) in
      elim (Option-cases (find_one (version_has_id k) vs)) [
        | inl missing ↦ rw (seen, missing) tt
        | inr (v, found) ↦ elim (Bool-cases (is_active_of id v)) [
          | inl hit ↦ rw (seen, found, hit) (inr (ground (arith, hit), refl, refl))
          | inr miss ↦ rw (seen, found, miss) (inl refl)
        ]
      ]

  marquees-AreGardees :
      (ids : List ℕ) (vs : List DimVersion)
      → AreGardees
          (find_one (version_has_id k) vs)
          (find_one (version_has_id k) (marquees remplacante now user ids vs))
  marquees-AreGardees [] vs = elim (Option-cases (find_one (version_has_id k) vs)) [
    | inl missing ↦ rw missing tt
    | inr (v, found) ↦ rw found (inl refl)
  ]
  marquees-AreGardees (id ∷ ids) vs =
      AreGardees-trans _ _ _ (marquee-AreGardees id vs)
        (marquees-AreGardees ids (marquee remplacante now user id vs))

-- What may become of the row under a number at a launch
abbrev pub Lancee : Option DimVersion → Option DimVersion → Type 0
Lancee none none = Unit {0}
Lancee none (some w) = w.statut ≡ ouvert
Lancee (some v) none = ⊥
Lancee (some v) (some w) = IsGardee v w

AreGardees-Lancee : (o p : Option DimVersion) → AreGardees o p → Lancee o p
AreGardees-Lancee none none h = tt
AreGardees-Lancee none (some w) h = absurd h
AreGardees-Lancee (some v) none h = h
AreGardees-Lancee (some v) (some w) h = h

Lancee-refl : (o : Option DimVersion) → Lancee o o
Lancee-refl none = tt
Lancee-refl (some v) = inl refl

-- A new row, perhaps marked
Lancee-new :
    (v : DimVersion) (o : Option DimVersion)
    → v.statut ≡ ouvert
    → AreGardees (some v) o
    → Lancee none o
Lancee-new v none is_open h = absurd h
Lancee-new v (some w) is_open (inl same) = ground arith
Lancee-new v (some w) is_open (inr o) = rw (o.2) is_open

pub lancer-Lancee :
    (r : Realise) (now : ℕ) (dto : LancerReforecastDto) (user : AuthUser) (db : Db) (k : ℕ)
    → Lancee
        (find_one (version_has_id k) db.versions)
        (find_one (version_has_id k) (lancer r now dto user db).1.versions)
lancer-Lancee r now dto user db k = elim (lancer-versions r dto now user db) [
  | inl kept ↦ rw kept (Lancee-refl _)
  | inr (id, marked) ↦
      let new = nouvelle_version id now user dto in
      let ids = map (λ v. v.id) (find_all (is_actif_de dto) db.versions) in
      let seen = marquees-AreGardees id now user k ids (db.versions ++ (new ∷ [])) in
      let row = find_one-append (version_has_id k) db.versions (new ∷ []) in
      elim (Option-cases (find_one (version_has_id k) db.versions)) [
        | inr (v, found) ↦
            rw (marked, found) (AreGardees-Lancee (some v) _ (rw (row, found) at seen))
        | inl missing ↦ elim (Bool-cases (new.id == k)) [
          | inl its ↦ rw (marked, missing) (Lancee-new new _ refl (rw (row, missing, its) at seen))
          | inr other ↦
              rw (marked, missing) (AreGardees-Lancee none _ (rw (row, missing, other) at seen))
        ]
      ]
]
