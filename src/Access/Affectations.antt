-- ===== src/Access/Affectations.antt =====
-- users/services/user-perimetre.service.ts: the assignment of perimeters to users.
use budget_backend.Base.{
  ℕ, String, Option, none, some, Bool, true, false, List, [], ◌∷◌, map, pure, ok, err, require,
  or_throw, modify, ◌>>=◌, ◌>>◌, ◌==◌, ◌&&◌, ◌||◌, not, ltb, has, find_one, find_all, update_where,
  any, length, set_add_all, if◌then◌else◌,
}
use budget_backend.Access.Store.{
  CiblePerimetreType, cible_structure, cible_cr, cible_cr_set, cible_global, OriginePerimetre,
  affectation, Motif, saisi, UserPerimetre, Structure, Centre, TypeAction, du_perimetre,
  affectation_created, Erreur, utilisateur_introuvable, cible_incoherente, cible_introuvable,
  dates_incoherentes, affectation_existante, affectation_introuvable, affectation_inactive,
  violation_unicite, Store, AccessCall, user_has_id, perimetre_has_id,
}
use budget_backend.Access.Perimetre.{is_cr_actif, tous_les_cr_actifs, has_cible_global}
use budget_backend.Access.Calls.{in_transaction, log, emit, insert_perimetre}

pub record CreerAffectationPerimetreInput : Type 0 where
  pub cible_type : CiblePerimetreType
  pub cible_id : Option ℕ
  pub cible_cr_ids : Option (List ℕ)
  pub origine : Option OriginePerimetre
  pub date_debut : Option ℕ
  pub date_fin : Option ℕ
  pub motif : Option String

abbrev pub is_present : {A : Type 0} → Option A → Bool
is_present none = false
is_present (some a) = true

-- `!dto.cibleCrIds || dto.cibleCrIds.length < 2`, negated
abbrev pub has_deux : Option (List ℕ) → Bool
has_deux none = false
has_deux (some ids) = not (ltb (length ids) 2)

-- `validerCible`: it does not throw
abbrev pub is_cible_coherente : CiblePerimetreType → Option ℕ → Option (List ℕ) → Bool
is_cible_coherente cible_global id ids = not (is_present id || is_present ids)
is_cible_coherente cible_cr_set id ids = not (is_present id) && has_deux ids
is_cible_coherente _ id ids = is_present id && not (is_present ids)

abbrev pub is_structure_courante : ℕ → Structure → Bool
is_structure_courante id s = (s.id == id) && s.version_courante

abbrev pub is_cr_actif_parmi : List ℕ → Centre → Bool
is_cr_actif_parmi ids c = has c.id ids && is_cr_actif c

-- The queries for the target return rows.
abbrev pub is_cible_trouvee : Store → CiblePerimetreType → Option ℕ → Option (List ℕ) → Bool
is_cible_trouvee db cible_structure (some s) ids = any (is_structure_courante s) db.structures
is_cible_trouvee db cible_cr (some cr) ids = any (λ c. (c.id == cr) && is_cr_actif c) db.centres
is_cible_trouvee db cible_cr_set id (some ids) =
    length (find_all (is_cr_actif_parmi ids) db.centres) == length ids
is_cible_trouvee db cible_global id ids = true
is_cible_trouvee db _ id ids = false

abbrev pub or_else_date : Option ℕ → ℕ → ℕ
or_else_date none today = today
or_else_date (some d) today = d

abbrev pub or_affectation : Option OriginePerimetre → OriginePerimetre
or_affectation none = affectation
or_affectation (some o) = o

abbrev pub motif_saisi : Option String → Option Motif
motif_saisi none = none
motif_saisi (some m) = some (saisi m)

-- `dto.dateFin && dto.dateFin < dateDebut`, negated
abbrev pub is_date_fin_possible : ℕ → Option ℕ → Bool
is_date_fin_possible debut none = true
is_date_fin_possible debut (some fin) = not (ltb fin debut)

abbrev pub nouvelle_affectation :
    ℕ → ℕ → ℕ → CreerAffectationPerimetreInput → String → UserPerimetre
nouvelle_affectation id user today dto auteur = record {
  id = id;
  fk_user = user;
  cible_type = dto.cible_type;
  cible_id = dto.cible_id;
  cible_cr_ids = dto.cible_cr_ids;
  origine = or_affectation dto.origine;
  delegation_id = none;
  date_debut = or_else_date dto.date_debut today;
  date_fin = dto.date_fin;
  actif = true;
  motif = motif_saisi dto.motif;
  utilisateur_creation = auteur;
  date_modification = none;
  utilisateur_modification = none;
}

-- The violation of a unique index becomes the ConflictException.
abbrev pub conflit : Erreur → Erreur
conflit violation_unicite = affectation_existante
conflit e = e

abbrev pub attraper : {A : Type 0} → (Erreur → Erreur) → AccessCall A → AccessCall A
attraper f m db = let (r, db') = m db in elim r [ ok a ↦ (ok a, db') | err e ↦ (err (f e), db') ]

-- The transaction of `creer`, with its catch, and the event
abbrev pub ecrire_affectation : UserPerimetre → String → AccessCall UserPerimetre
ecrire_affectation p auteur = attraper conflit (do
  saved ← in_transaction (do
    saved ← insert_perimetre p
    log auteur TypeAction.creer_affectation (du_perimetre saved)
    pure saved)
  emit (affectation_created saved)
  pure saved)

unfoldable pub creer_affectation :
    ℕ → ℕ → CreerAffectationPerimetreInput → String → AccessCall UserPerimetre
creer_affectation today user dto auteur db =
    (do
      or_throw (find_one (user_has_id user) db.users) (utilisateur_introuvable user)
      require (is_cible_coherente dto.cible_type dto.cible_id dto.cible_cr_ids)
          (cible_incoherente dto.cible_type)
      require (is_cible_trouvee db dto.cible_type dto.cible_id dto.cible_cr_ids)
          (cible_introuvable dto.cible_type)
      require (is_date_fin_possible (or_else_date dto.date_debut today) dto.date_fin)
          dates_incoherentes
      ecrire_affectation (nouvelle_affectation db.prochain_id user today dto auteur) auteur)
      db

abbrev pub retirer_row : ℕ → String → UserPerimetre → UserPerimetre
retirer_row now auteur p = record p {
  actif = false;
  date_modification = some now;
  utilisateur_modification = some auteur;
}

abbrev pub is_perimetre_of : ℕ → ℕ → UserPerimetre → Bool
is_perimetre_of id user p = perimetre_has_id id p && (p.fk_user == user)

unfoldable pub retirer_affectation : ℕ → ℕ → ℕ → String → AccessCall (Unit {0})
retirer_affectation now user id auteur db =
    (do
      p ←
          or_throw (find_one (is_perimetre_of id user) db.user_perimetres)
            (affectation_introuvable id)
      require p.actif (affectation_inactive id)
      in_transaction (do
        modify (λ db. record db {
          user_perimetres =
              update_where (perimetre_has_id id) (retirer_row now auteur) db.user_perimetres;
        })
        log auteur TypeAction.retirer_affectation (du_perimetre (retirer_row now auteur p))))
      db

-- One target, in `resoudreCrAccessibles`
abbrev pub crs_accessibles_de : Store → CiblePerimetreType → Option ℕ → Option (List ℕ) → List ℕ
crs_accessibles_de db cible_cr (some cr) ids = cr ∷ []
crs_accessibles_de db cible_cr_set id (some ids) = ids
crs_accessibles_de db cible_structure (some s) ids =
    map (λ c. c.id) (find_all (λ c. (c.fk_structure == s) && c.version_courante) db.centres)
crs_accessibles_de db _ id ids = []

abbrev pub reunir_accessibles : Store → List UserPerimetre → List ℕ → List ℕ
reunir_accessibles db [] set = set
reunir_accessibles db (p ∷ ps) set =
    reunir_accessibles db ps
      (set_add_all (crs_accessibles_de db p.cible_type p.cible_id p.cible_cr_ids) set)

unfoldable pub resoudre_cr_accessibles : ℕ → Store → List ℕ
resoudre_cr_accessibles user db =
    let perimetres = find_all (λ p. (p.fk_user == user) && p.actif) db.user_perimetres in
    if any has_cible_global perimetres
    then tous_les_cr_actifs db
    else reunir_accessibles db perimetres []
