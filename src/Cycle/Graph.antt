-- ===== src/Cycle/Graph.antt =====
-- The diagram of a version's states, over the two workflows and the edits, and what the writes of
-- the services do to the table of versions.
use budget_backend.Base.{
  ℕ, Option, none, some, Bool, true, false, ◌≡◌, ◌⊎◌, inl, inr, List, [], ◌∷◌, ◌++◌, arith,
  find_one, update_where, delete_where, map_option, find_one-update_where, find_one-append,
  find_one-delete_where, find_one-delete_where_self, if◌then◌else◌, ◌==◌, find_one_sound, refl,
  Bool-cases, Option-cases,
}
use budget_backend.VersionService.{est_remplacee_par, sans_remplacante}
use budget_backend.Entities.{AuthUser}
use budget_backend.Entities.Version.{
  DimVersion, StatutVersion, ouvert, soumis, pre_valide, soumis_comite, valide, gele,
  version_has_id,
}

abbrev pub is_edge : StatutVersion → StatutVersion → Bool
is_edge ouvert soumis = true
is_edge ouvert pre_valide = true
is_edge ouvert ouvert = true
is_edge soumis valide = true
is_edge soumis ouvert = true
is_edge pre_valide ouvert = true
is_edge pre_valide soumis_comite = true
is_edge soumis_comite valide = true
is_edge soumis_comite ouvert = true
is_edge valide gele = true
is_edge _ _ = false

-- The edges but for the automatic pre-validation.
abbrev pub is_manual : StatutVersion → StatutVersion → Bool
is_manual ouvert pre_valide = false
is_manual from to = is_edge from to

-- The row of a version as it was, or without the number of the version that replaces it
abbrev pub Reste : DimVersion → DimVersion → Type 0
Reste v v' = (v' ≡ v) ⊎ (v' ≡ sans_remplacante v)

-- What may become of the version under one identifier: it appears or disappears as an open version,
-- stays as it is, but perhaps for the number of its replacement, or follows an edge.
abbrev pub Moves :
    (StatutVersion → StatutVersion → Bool) → Option DimVersion → Option DimVersion → Type 0
Moves edge none none = Unit
Moves edge none (some v) = v.statut ≡ ouvert
Moves edge (some v) none = v.statut ≡ ouvert
Moves edge (some v) (some v') = Reste v v' ⊎ (edge v.statut v'.statut ≡ true)

-- The three columns that the automatic transitions write.
abbrev pub with_statut : StatutVersion → ℕ → AuthUser → DimVersion → DimVersion
with_statut statut now user v = record v {
  statut = statut;
  date_modification = some now;
  utilisateur_modification = some user.email;
}

-- The writes of the services to the table of versions.
pub data VersionEffect (edge : StatutVersion → StatutVersion → Bool) (vs vs' : List DimVersion)
    : Type 0 where
  unchanged : vs' ≡ vs → VersionEffect edge vs vs'
  saved :
      (id : ℕ) (v v' : DimVersion)
      → find_one (version_has_id id) vs ≡ some v
      → v'.id ≡ id
      → edge v.statut v'.statut ≡ true
      → vs' ≡ update_where (version_has_id id) (λ _. v') vs
      → VersionEffect edge vs vs'
  moved :
      (id : ℕ) (v : DimVersion) (statut : StatutVersion) (now : ℕ) (user : AuthUser)
      → find_one (version_has_id id) vs ≡ some v
      → edge v.statut statut ≡ true
      → vs' ≡ update_where (version_has_id id) (with_statut statut now user) vs
      → VersionEffect edge vs vs'
  added : (v : DimVersion) → v.statut ≡ ouvert → vs' ≡ vs ++ (v ∷ []) → VersionEffect edge vs vs'
  removed :
      (id : ℕ) (v : DimVersion)
      → find_one (version_has_id id) vs ≡ some v
      → v.statut ≡ ouvert
      → vs'
        ≡ delete_where (version_has_id id) (update_where (est_remplacee_par id) sans_remplacante vs)
      → VersionEffect edge vs vs'

Moves-refl : (edge : StatutVersion → StatutVersion → Bool) (o : Option DimVersion) → Moves edge o o
Moves-refl edge none = tt
Moves-refl edge (some v) = inl (inl refl)

find_save :
    (k id : ℕ) (v : DimVersion) (vs : List DimVersion)
    → v.id ≡ id
    → find_one (version_has_id k) (update_where (version_has_id id) (λ _. v) vs)
      ≡ map_option (λ r. if r.id == id then v else r) (find_one (version_has_id k) vs)
find_save k id v vs same =
    find_one-update_where (version_has_id k) (version_has_id id) (λ _. v) vs (λ r h. ground arith)

pub find_move :
    (k id : ℕ) (statut : StatutVersion) (now : ℕ) (user : AuthUser) (vs : List DimVersion)
    → find_one
        (version_has_id k)
        (update_where (version_has_id id) (with_statut statut now user) vs)
      ≡ map_option
          (λ r. if r.id == id then with_statut statut now user r else r)
          (find_one (version_has_id k) vs)
find_move k id statut now user vs =
    find_one-update_where (version_has_id k) (version_has_id id) (with_statut statut now user) vs
      (λ r h. refl)

-- The row found under `k` after a write at the row `v`, which `id` finds.
Moves-map :
    (edge : StatutVersion → StatutVersion → Bool) (k id : ℕ) (v : DimVersion)
    (f : DimVersion → DimVersion) (vs : List DimVersion)
    → find_one (version_has_id id) vs ≡ some v
    → edge v.statut (f v).statut ≡ true
    → Moves edge
        (find_one (version_has_id k) vs)
        (map_option (λ r. if r.id == id then f r else r) (find_one (version_has_id k) vs))
Moves-map edge k id v f vs e along = elim (Option-cases (find_one (version_has_id k) vs)) [
  | inl missing ↦ rw missing tt
  | inr (r, hit) ↦ elim (Bool-cases (r.id == id)) [
    | inl same ↦
        let k_is_id : k ≡ id = ground (arith, find_one_sound (version_has_id k) vs hit) in
        let same_found : find_one (version_has_id id) vs ≡ some r = rw k_is_id at hit in
        let same_row : r ≡ v = cc in rw (hit, same) (inr (rw same_row along))
    | inr other ↦ rw (hit, other) (inl (inl refl))
  ]
]

-- The row found under `k` after the references to a deleted replacement are cleared
Moves-forget :
    (edge : StatutVersion → StatutVersion → Bool) (k id : ℕ) (vs : List DimVersion)
    → Moves edge
        (find_one (version_has_id k) vs)
        (find_one (version_has_id k) (update_where (est_remplacee_par id) sans_remplacante vs))
Moves-forget edge k id vs =
    let seen =
      find_one-update_where (version_has_id k) (est_remplacee_par id) sans_remplacante vs
        (λ r h. refl) in
    elim (Option-cases (find_one (version_has_id k) vs)) [
      | inl missing ↦ rw (seen, missing) tt
      | inr (v, found) ↦ elim (Bool-cases (est_remplacee_par id v)) [
        | inl cleared ↦ rw (seen, found, cleared) (inl (inr refl))
        | inr other ↦ rw (seen, found, other) (inl (inl refl))
      ]
    ]

-- Every write moves every version by the diagram.
pub VersionEffect-Moves :
    (k : ℕ) {edge : StatutVersion → StatutVersion → Bool} {vs vs' : List DimVersion}
    → VersionEffect edge vs vs'
    → Moves edge (find_one (version_has_id k) vs) (find_one (version_has_id k) vs')
VersionEffect-Moves k {edge} (unchanged e) = rw e (Moves-refl edge _)
VersionEffect-Moves k {edge} {vs} (saved id v v' found same along e) =
    rw (e, find_save k id v' vs same) (Moves-map edge k id v (λ _. v') vs found along)
VersionEffect-Moves k {edge} {vs} (moved id v statut now user found along e) =
    rw (e, find_move k id statut now user vs)
      (Moves-map edge k id v (with_statut statut now user) vs found along)
VersionEffect-Moves k {edge} {vs} (added v is_open e) =
    rw (e, find_one-append (version_has_id k) vs (v ∷ []))
      (elim (Option-cases (find_one (version_has_id k) vs)) [
        | inl missing ↦ rw missing (ground arith)
        | inr (r, hit) ↦ rw hit (inl (inl refl))
      ])
VersionEffect-Moves k {edge} {vs} (removed id v found is_open e) =
    let kept = update_where (est_remplacee_par id) sans_remplacante vs in
    elim (Bool-cases (k == id)) [
      | inl same ↦
          let k_is_id : k ≡ id = ground arith in
          rw (e, k_is_id, find_one-delete_where_self (version_has_id id) kept, found) is_open
      | inr other ↦
          rw
            (
              e,
              find_one-delete_where (version_has_id k) (version_has_id id) kept
                  (λ r h. ground arith),
            )
            (Moves-forget edge k id vs)
    ]

pub manual-edge : (from to : StatutVersion) → is_manual from to ≡ true → is_edge from to ≡ true
manual-edge ouvert ouvert h = refl
manual-edge _ _ h = ground arith

pub Moves-manual : (o o' : Option DimVersion) → Moves is_manual o o' → Moves is_edge o o'
Moves-manual none none h = tt
Moves-manual none (some v) h = h
Moves-manual (some v) none h = h
Moves-manual (some v) (some v') (inl same) = inl same
Moves-manual (some v) (some v') (inr along) = inr (manual-edge v.statut v'.statut along)
