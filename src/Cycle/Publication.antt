-- ===== src/Cycle/Publication.antt =====
-- The life of a version under any history of requests and of launches of reforecasts
-- (reforecast/reforecast.service.ts, `lancer`, which writes dim_version too).
use budget_backend.Base.{
  ℕ, Option, none, some, true, ◌≡◌, ◌⊎◌, inl, inr, List, [], ◌∷◌, refl, ap, arith, find_one,
}
use budget_backend.Entities.{Db}
use budget_backend.Entities.Version.{DimVersion, ouvert, gele, version_has_id}
use budget_backend.VersionService.{sans_remplacante}
use budget_backend.Cycle.Graph.{Moves, Reste, is_edge}
use budget_backend.Cycle.Requests.{Request, step}
use budget_backend.Cycle.Life.{step-Moves}
use budget_backend.Reforecast.Lancement.{lancer}
use budget_backend.Reforecast.Unicite.{Lancement}
use budget_backend.Reforecast.Obsolescence.{DevientObsolete, Lancee, lancer-Lancee}

pub data Evenement : Type 0 where
  requete : Request → Evenement
  lancement : Lancement → Evenement

abbrev pub survient : Evenement → Db → Db
survient (requete r) db = step r db
survient (lancement l) db = (lancer l.realise l.now l.dto l.user db).1

abbrev pub run_evenements : List Evenement → Db → Db
run_evenements [] db = db
run_evenements (e ∷ es) db = run_evenements es (survient e db)

-- What may become of the version under a number
abbrev pub Change : Option DimVersion → Option DimVersion → Type 0
Change none none = Unit {0}
Change none (some w) = w.statut ≡ ouvert
Change (some v) none = v.statut ≡ ouvert
Change (some v) (some w) = Reste v w ⊎ ((is_edge v.statut w.statut ≡ true) ⊎ DevientObsolete v w)

Moves-Change : (o p : Option DimVersion) → Moves is_edge o p → Change o p
Moves-Change none none h = tt
Moves-Change none (some w) h = h
Moves-Change (some v) none h = h
Moves-Change (some v) (some w) (inl same) = inl same
Moves-Change (some v) (some w) (inr along) = inr (inl along)

Lancee-Change : (o p : Option DimVersion) → Lancee o p → Change o p
Lancee-Change none none h = tt
Lancee-Change none (some w) h = h
Lancee-Change (some v) none h = absurd h
Lancee-Change (some v) (some w) (inl same) = inl (inl same)
Lancee-Change (some v) (some w) (inr o) = inr (inr o)

-- Whatever request is made or reforecast launched, the version under an identifier stays as it is,
-- but that it may lose the number of its replacement, follows an edge of the diagram, appears or
-- disappears as an open version, or was active and becomes obsolete, with no other change than the
-- columns of its obsolescence and of its last change.
pub survient-Change :
    (e : Evenement) (db : Db) (k : ℕ)
    → Change
        (find_one (version_has_id k) db.versions)
        (find_one (version_has_id k) (survient e db).versions)
survient-Change (requete r) db k = Moves-Change _ _ (step-Moves r db k)
survient-Change (lancement l) db k =
    Lancee-Change _ _ (lancer-Lancee l.realise l.now l.dto l.user db k)

-- What becomes of a published version
abbrev pub Archivee : DimVersion → DimVersion → Type 0
Archivee v w = Reste v w ⊎ DevientObsolete v w

Archivee-Reste : (u v w : DimVersion) → Archivee u v → Reste v w → Archivee u w
Archivee-Reste u v w h (inl same) = rw same h
Archivee-Reste u v w (inl (inl first)) (inr cleared) = inl (inr (rw first at cleared))
Archivee-Reste u v w (inl (inr first)) (inr cleared) = inl (inr (rw first at cleared))
Archivee-Reste u v w (inr o) (inr cleared) = inr (rw cleared (o.0, o.1, ap sans_remplacante o.2))

Archivee-trans : (u v w : DimVersion) → Archivee u v → Archivee v w → Archivee u w
Archivee-trans u v w h (inl kept) = Archivee-Reste u v w h kept
Archivee-trans u v w (inl (inl same)) (inr o) = inr (rw same at o)
Archivee-trans u v w (inl (inr cleared)) (inr o) = inr (rw cleared at o)
Archivee-trans u v w (inr o) (inr o') = ground (arith, o, o')

frozen_step :
    (e : Evenement) (db : Db) (k : ℕ) {v : DimVersion}
    → find_one (version_has_id k) db.versions ≡ some v
    → v.statut ≡ gele
    → (w : DimVersion) × (find_one (version_has_id k) (survient e db).versions ≡ some w)
      × (w.statut ≡ gele)
      × Archivee v w
frozen_step e db k {v} found frozen =
    frozen_change (find_one (version_has_id k) (survient e db).versions)
      (rw found at (survient-Change e db k))
  where
    frozen_change :
        (o : Option DimVersion)
        → Change (some v) o
        → (w : DimVersion) × (o ≡ some w) × (w.statut ≡ gele) × Archivee v w
    frozen_change none gone = ground arith
    frozen_change (some w) (inl (inl same)) = (w, refl, rw same frozen, inl (inl same))
    frozen_change (some w) (inl (inr cleared)) = (w, refl, rw cleared frozen, inl (inr cleared))
    frozen_change (some w) (inr (inl along)) = ground arith
    frozen_change (some w) (inr (inr o)) = (w, refl, rw (o.2) frozen, inr o)

-- A published version is immutable but for its obsolescence: after any history of requests and of
-- launches of reforecasts its row is there, published. It is the row as it was, but that it may have
-- lost the number of a replacement that was deleted, or it was active and is now obsolete, with no
-- other change than the columns of its obsolescence and of its last change.
pub run_evenements-gele :
    (es : List Evenement) (db : Db) (k : ℕ) {v : DimVersion}
    → find_one (version_has_id k) db.versions ≡ some v
    → v.statut ≡ gele
    → (w : DimVersion) × (find_one (version_has_id k) (run_evenements es db).versions ≡ some w)
      × (w.statut ≡ gele)
      × (Reste v w ⊎ DevientObsolete v w)
run_evenements-gele [] db k {v} found frozen = (v, found, frozen, inl (inl refl))
run_evenements-gele (e ∷ es) db k {v} found frozen =
    let (u, found_u, frozen_u, first) = frozen_step e db k found frozen in
    let (w, found_w, frozen_w, rest) =
      run_evenements-gele es (survient e db) k {v = u} found_u frozen_u in
    (w, found_w, frozen_w, Archivee-trans v u w first rest)
