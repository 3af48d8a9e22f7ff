-- ===== src/Reforecast/Marques.antt =====
-- What marking reforecasts obsolete leaves active, on lists of versions.
use budget_backend.Base.{
  ℕ, suc, ◌≤◌, ◌≡◌, refl, Bool, true, false, not, ◌||◌, ◌==◌, List, [], ◌∷◌, ◌++◌, map, arith,
  count_where, every, any, find_all, update_where, length, Bool-cases, inl, inr, ap,
}
use budget_backend.Entities.{Db, AuthUser}
use budget_backend.Entities.Version.{DimVersion}
use budget_backend.Reforecast.Versions.{
  LancerReforecastDto, is_actif_de, is_active_of, obsolete_par, nouvelle_version,
}

module _ (remplacante now : ℕ) (user : AuthUser) where
  abbrev pub marquee : ℕ → List DimVersion → List DimVersion
  marquee id vs = update_where (is_active_of id) (obsolete_par remplacante now user) vs

  abbrev pub marquees : List ℕ → List DimVersion → List DimVersion
  marquees [] vs = vs
  marquees (id ∷ ids) vs = marquees ids (marquee id vs)

  -- A mark makes no reforecast active.
  count-marquee :
      (k : LancerReforecastDto) (id : ℕ) (vs : List DimVersion)
      → count_where (is_actif_de k) (marquee id vs) ≤ count_where (is_actif_de k) vs
  count-marquee k id [] = ground arith
  count-marquee k id (v ∷ vs) =
      let rest = count-marquee k id vs in
      elim (Bool-cases (is_active_of id v)) [
        | inl hit ↦ elim (Bool-cases (is_actif_de k v)) [
          | inl a ↦ ground (arith, rest)
          | inr a ↦ ground (arith, rest)
        ]
        | inr miss ↦ elim (Bool-cases (is_actif_de k v)) [
          | inl a ↦ ground (arith, rest)
          | inr a ↦ ground (arith, rest)
        ]
      ]

  count-marquees :
      (k : LancerReforecastDto) (ids : List ℕ) (vs : List DimVersion)
      → count_where (is_actif_de k) (marquees ids vs) ≤ count_where (is_actif_de k) vs
  count-marquees k [] vs = ground arith
  count-marquees k (id ∷ ids) vs =
      let rest = count-marquees k ids (marquee id vs) in
      let first = count-marquee k id vs in ground (arith, rest, first)

abbrev is_listee : List ℕ → DimVersion → Bool
is_listee ids v = any (λ id. id == v.id) ids

-- Every active reforecast of the key is listed.
abbrev sont_listees : LancerReforecastDto → List ℕ → List DimVersion → Bool
sont_listees k ids vs = every (λ v. not (is_actif_de k v) || is_listee ids v) vs

sont_listees-more :
    (k : LancerReforecastDto) (id : ℕ) (ids : List ℕ) (vs : List DimVersion)
    → sont_listees k ids vs ≡ true
    → sont_listees k (id ∷ ids) vs ≡ true
sont_listees-more k id ids [] h = refl
sont_listees-more k id ids (v ∷ vs) h =
    let rest = sont_listees-more k id ids vs (ground arith) in
    elim (Bool-cases (is_actif_de k v)) [ inl a ↦ ground arith | inr a ↦ ground arith ]

sont_listees-found :
    (k : LancerReforecastDto) (vs : List DimVersion)
    → sont_listees k (map (λ v. v.id) (find_all (is_actif_de k) vs)) vs ≡ true
sont_listees-found k [] = refl
sont_listees-found k (v ∷ vs) =
    let rest = sont_listees-found k vs in
    let ids = map (λ w. w.id) (find_all (is_actif_de k) vs) in
    elim (Bool-cases (is_actif_de k v)) [
      | inl a ↦ let more = sont_listees-more k v.id ids vs rest in ground (arith, a, more)
      | inr a ↦ ground (arith, a, rest)
    ]

count-length :
    (k : LancerReforecastDto) (vs ws : List DimVersion)
    → sont_listees k [] vs ≡ true
    → count_where (is_actif_de k) (vs ++ ws) ≤ length ws
count-length k [] [] h = ground arith
count-length k [] (w ∷ ws) h =
    let rest = count-length k [] ws refl in
    elim (Bool-cases (is_actif_de k w)) [
      | inl a ↦ ground (arith, rest)
      | inr a ↦ ground (arith, rest)
    ]
count-length k (v ∷ vs) ws h = let rest = count-length k vs ws (ground arith) in ground arith

module _ (remplacante now : ℕ) (user : AuthUser) where
  -- Once the head of the list is marked, the tail lists what is still active.
  sont_listees-marquee :
      (k : LancerReforecastDto) (id : ℕ) (ids : List ℕ) (vs : List DimVersion)
      → sont_listees k (id ∷ ids) vs ≡ true
      → sont_listees k ids (marquee remplacante now user id vs) ≡ true
  sont_listees-marquee k id ids [] h = refl
  sont_listees-marquee k id ids (v ∷ vs) h =
      let rest = sont_listees-marquee k id ids vs (ground arith) in
      elim (Bool-cases (is_active_of id v)) [
        | inl hit ↦ ground (arith, rest)
        | inr miss ↦ elim (Bool-cases (is_actif_de k v)) [
          | inl a ↦ ground (arith, rest)
          | inr a ↦ ground (arith, rest)
        ]
      ]

  marquee-append :
      (id : ℕ) (vs ws : List DimVersion)
      → marquee remplacante now user id (vs ++ ws)
        ≡ marquee remplacante now user id vs ++ marquee remplacante now user id ws
  marquee-append id [] ws = refl
  marquee-append id (v ∷ vs) ws = let rest = marquee-append id vs ws in rw rest refl

  length-marquee :
      (id : ℕ) (ws : List DimVersion) → length (marquee remplacante now user id ws) ≡ length ws
  length-marquee id [] = refl
  length-marquee id (w ∷ ws) = ap suc (length-marquee id ws)

  -- Of listed versions and others, only the others can be active after the marks.
  count-listees :
      (k : LancerReforecastDto) (ids : List ℕ) (vs ws : List DimVersion)
      → sont_listees k ids vs ≡ true
      → count_where (is_actif_de k) (marquees remplacante now user ids (vs ++ ws)) ≤ length ws
  count-listees k [] vs ws h = count-length k vs ws h
  count-listees k (id ∷ ids) vs ws h =
      let rest =
        count-listees k ids (marquee remplacante now user id vs)
          (marquee remplacante now user id ws) (sont_listees-marquee k id ids vs h) in
      let split = marquee-append id vs ws in
      let same = length-marquee id ws in rw (split, ← same) rest

-- One key, read through two requests
same_cle :
    (k dto : LancerReforecastDto) (id now : ℕ) (user : AuthUser)
    → is_actif_de k (nouvelle_version id now user dto) ≡ true
    → (dto.fk_version_source ≡ k.fk_version_source)
      × (dto.fk_scenario_source ≡ k.fk_scenario_source)
      × (dto.trimestre_consolide ≡ k.trimestre_consolide)
      × (dto.annee_consolide ≡ k.annee_consolide)
same_cle k dto id now user h = (ground arith, ground arith, ground arith, ground arith)

is_actif_de-same :
    (k dto : LancerReforecastDto) (id now : ℕ) (user : AuthUser) (v : DimVersion)
    → is_actif_de k (nouvelle_version id now user dto) ≡ true
    → is_actif_de k v ≡ is_actif_de dto v
is_actif_de-same k dto id now user v h =
    let (a, b, c, d) = same_cle k dto id now user h in rw (a, b, c, d) refl

count-same :
    (k dto : LancerReforecastDto) (id now : ℕ) (user : AuthUser) (vs : List DimVersion)
    → is_actif_de k (nouvelle_version id now user dto) ≡ true
    → count_where (is_actif_de k) vs ≡ count_where (is_actif_de dto) vs
count-same k dto id now user [] h = refl
count-same k dto id now user (v ∷ vs) h =
    let one = is_actif_de-same k dto id now user v h in
    let rest = count-same k dto id now user vs h in rw (one, rest) refl

count-append_one :
    (k : LancerReforecastDto) (vs : List DimVersion) (v : DimVersion)
    → is_actif_de k v ≡ false
    → count_where (is_actif_de k) (vs ++ (v ∷ [])) ≡ count_where (is_actif_de k) vs
count-append_one k [] v h = rw h refl
count-append_one k (w ∷ vs) v h = let rest = count-append_one k vs v h in rw rest refl

-- For every key, at most one active reforecast
abbrev pub HasUniqueActif : Db → Type 0
HasUniqueActif db = (k : LancerReforecastDto) → count_where (is_actif_de k) db.versions ≤ 1

pub marquees-HasUniqueActif :
    (k dto : LancerReforecastDto) (id now : ℕ) (user : AuthUser) (vs : List DimVersion)
    → count_where (is_actif_de k) vs ≤ 1
    → count_where (is_actif_de k) (
        marquees id now user
          (map (λ v. v.id) (find_all (is_actif_de dto) vs))
          (vs ++ (nouvelle_version id now user dto ∷ [])))
      ≤ 1
marquees-HasUniqueActif k dto id now user vs h =
    let new = nouvelle_version id now user dto in
    let ids = map (λ v. v.id) (find_all (is_actif_de dto) vs) in
    let after = marquees id now user ids (vs ++ (new ∷ [])) in
    elim (Bool-cases (is_actif_de k new)) [
      | inl its ↦
          let alone = count-listees id now user dto ids vs (new ∷ []) (sont_listees-found dto vs) in
          let same = count-same k dto id now user after its in ground (arith, alone, same)
      | inr other ↦
          let fewer = count-marquees id now user k ids (vs ++ (new ∷ [])) in
          let same = count-append_one k vs new other in ground (arith, fewer, same)
    ]
