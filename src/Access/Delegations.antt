-- ===== src/Access/Delegations.antt =====
-- delegations/delegations.service.ts, `creer`. The checks of `creer` read only, and come before its
-- transaction: `refus_creation` is the first that fails. `today` is the day of the call, `now` its
-- instant; of the errors that the transaction can meet, the unique indexes are modelled.
use budget_backend.Base.{
  ℕ, suc, String, Option, none, some, Bool, true, false, List, [], ◌∷◌, ◌++◌, pure, throw, modify,
  gets, ◌>>=◌, ◌>>◌, ◌==◌, ◌&&◌, not, ltb, leb, has, find_one, find_all, any, length, or_else,
  if◌then◌else◌,
}
use budget_backend.Access.Store.{
  UserPerimetre, PermissionDelegable, saisie, soumission, validation, publication, Delegation,
  OriginePerimetre, de_delegation, TypeAction, de_la_delegation, delegation_created, Erreur,
  soi_meme, delegataire_inactif, dates_incoherentes, perimetres_introuvables, permission_absente,
  perimetre_etranger, perimetre_inactif, perimetre_futur, perimetre_expire, chaine, Store,
  AccessCall, user_has_id, is_null_or_after,
}
use budget_backend.Access.Permissions.{delegation_perm_mapping, possede}
use budget_backend.Access.Calls.{
  Caller, in_transaction, log, emit, is_origine_delegation, insert_perimetre,
}

pub record CreerDelegationDto : Type 0 where
  pub fk_delegataire : ℕ
  pub perimetre_user_perimetre_ids : List ℕ
  pub permissions : List PermissionDelegable
  pub motif : String
  pub date_debut : ℕ
  pub date_fin : ℕ

-- `for (const x of xs) if (...) throw ...`: the first throw
abbrev pub premier_refus : {R : Type 0} → (R → Option Erreur) → List R → Option Erreur
premier_refus f [] = none
premier_refus f (x ∷ xs) = or_else (f x) (premier_refus f xs)

abbrev pub refus_si : Bool → Erreur → Option Erreur
refus_si true e = some e
refus_si false e = none

abbrev pub is_user_actif : ℕ → Store → Bool
is_user_actif id db = elim (find_one (user_has_id id) db.users) [
  | none ↦ false
  | some u ↦ u.est_actif
]

-- Rule 5
abbrev pub refus_verbe : ℕ → ℕ → Store → PermissionDelegable → Option Erreur
refus_verbe today delegant db verb =
    refus_si (not (possede today delegant db (delegation_perm_mapping verb)))
      (permission_absente verb)

-- Rules 4 and 3, for one of the perimeters
abbrev pub refus_source : CreerDelegationDto → ℕ → UserPerimetre → Option Erreur
refus_source dto delegant p =
    if not (p.fk_user == delegant)
    then some (perimetre_etranger p.id)
    else if not p.actif
    then some (perimetre_inactif p.id)
    else if ltb dto.date_debut p.date_debut
    then some (perimetre_futur p.id)
    else if not (is_null_or_after dto.date_debut p.date_fin)
    then some (perimetre_expire p.id)
    else refus_si (is_origine_delegation p.origine) (chaine p.id)

-- `find({ where: { id: In(...) } })`
abbrev pub sources : CreerDelegationDto → Store → List UserPerimetre
sources dto db = find_all (λ p. has p.id dto.perimetre_user_perimetre_ids) db.user_perimetres

unfoldable pub refus_creation : ℕ → CreerDelegationDto → ℕ → Store → Option Erreur
refus_creation today dto delegant db =
    or_else (refus_si (delegant == dto.fk_delegataire) soi_meme) (
      or_else (refus_si (not (is_user_actif dto.fk_delegataire db)) delegataire_inactif) (
        or_else (refus_si (ltb dto.date_fin dto.date_debut) dates_incoherentes) (
          or_else (premier_refus (refus_verbe today delegant db) dto.permissions) (
            or_else
              (refus_si (not (length (sources dto db) == length dto.perimetre_user_perimetre_ids))
                perimetres_introuvables)
              (premier_refus (refus_source dto delegant) (sources dto db))))))

abbrev pub same_verb : PermissionDelegable → PermissionDelegable → Bool
same_verb saisie saisie = true
same_verb soumission soumission = true
same_verb validation validation = true
same_verb publication publication = true
same_verb _ _ = false

-- The delegation named, the verbs shared, the number of perimeters shared
pub record Chevauchement : Type 0 where
  pub avec : ℕ
  pub shared_perms : List PermissionDelegable
  pub nb_perimetres : ℕ

abbrev pub is_chevauchante : CreerDelegationDto → ℕ → Delegation → Bool
is_chevauchante dto delegant d =
    (d.fk_delegant == delegant)
    && (d.fk_delegataire == dto.fk_delegataire)
    && d.actif
    && leb d.date_debut dto.date_fin
    && leb dto.date_debut d.date_fin

-- Rule 6: warnings only
abbrev pub warnings : CreerDelegationDto → List Delegation → List Chevauchement
warnings dto [] = []
warnings dto (ch ∷ chs) =
    let perms = find_all (λ p. any (same_verb p) dto.permissions) ch.permissions in
    let perims =
      find_all (λ id. has id dto.perimetre_user_perimetre_ids) ch.perimetre_user_perimetre_ids in
    let ici : List Chevauchement =
      if ltb 0 (length perms) && ltb 0 (length perims)
      then record { avec = ch.id; shared_perms = perms; nb_perimetres = length perims } ∷ []
      else [] in
    ici ++ warnings dto chs

abbrev pub nouvelle_delegation : ℕ → CreerDelegationDto → Caller → Delegation
nouvelle_delegation id dto user = record {
  id = id;
  fk_delegant = user.user_id;
  fk_delegataire = dto.fk_delegataire;
  perimetre_user_perimetre_ids = dto.perimetre_user_perimetre_ids;
  permissions = dto.permissions;
  motif = dto.motif;
  date_debut = dto.date_debut;
  date_fin = dto.date_fin;
  actif = true;
  revoquee_le = none;
  fk_revoque_par = none;
  motif_revocation = none;
  utilisateur_creation = user.email;
  derniere_notification_j3 = none;
  date_modification = none;
  utilisateur_modification = none;
}

abbrev pub miroir : Delegation → ℕ → UserPerimetre → UserPerimetre
miroir d id source = record {
  id = id;
  fk_user = d.fk_delegataire;
  cible_type = source.cible_type;
  cible_id = source.cible_id;
  cible_cr_ids = source.cible_cr_ids;
  origine = OriginePerimetre.delegation;
  delegation_id = some d.id;
  date_debut = d.date_debut;
  date_fin = some d.date_fin;
  actif = true;
  motif = some (de_delegation d.id d.utilisateur_creation d.motif);
  utilisateur_creation = d.utilisateur_creation;
  date_modification = none;
  utilisateur_modification = none;
}

abbrev pub creer_miroirs : Delegation → List UserPerimetre → AccessCall (Unit {0})
creer_miroirs d [] = pure tt
creer_miroirs d (p ∷ ps) = do
  id ← gets (λ db. db.prochain_id)
  insert_perimetre (miroir d id p)
  creer_miroirs d ps

abbrev pub insert_delegation : Delegation → AccessCall (Unit {0})
insert_delegation d =
    modify (λ db. record db {
      delegations = db.delegations ++ (d ∷ []);
      prochain_id = suc db.prochain_id;
    })

-- The transaction of `creer`
abbrev pub ecrire_delegation :
    CreerDelegationDto → Caller → List UserPerimetre → ℕ → AccessCall Delegation
ecrire_delegation dto user ps nb_warnings = do
  id ← gets (λ db. db.prochain_id)
  insert_delegation (nouvelle_delegation id dto user)
  creer_miroirs (nouvelle_delegation id dto user) ps
  log user.email TypeAction.creer_delegation
      (de_la_delegation (nouvelle_delegation id dto user) nb_warnings false)
  pure (nouvelle_delegation id dto user)

-- `creer`, once its checks have thrown or not
abbrev pub creer_sauf :
    Option Erreur → CreerDelegationDto → Caller → AccessCall (Delegation × List Chevauchement)
creer_sauf (some e) dto user = throw e
creer_sauf none dto user = do
  ws ← gets (λ db. warnings dto (find_all (is_chevauchante dto user.user_id) db.delegations))
  ps ← gets (sources dto)
  d ← in_transaction (ecrire_delegation dto user ps (length ws))
  emit (delegation_created d)
  pure (d, ws)

unfoldable pub creer_delegation :
    ℕ → CreerDelegationDto → Caller → AccessCall (Delegation × List Chevauchement)
unfolding refus_creation
creer_delegation today dto user db =
    creer_sauf (refus_creation today dto user.user_id db) dto user db
