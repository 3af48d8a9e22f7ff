-- ===== src/Documents/Campagne.antt =====
-- documents-officiels/services/campagne.service.ts: a campaign and its committee.
use budget_backend.Base.{
  ℕ, suc, String, Option, none, some, Bool, true, false, List, [], ◌∷◌, ◌++◌, pure, gets, require,
  modify, ◌>>=◌, ◌>>◌, find_one, update_where, count_where, ◌&&◌, ◌==◌, ltb, not, if◌then◌else◌,
  str_eq,
}
use budget_backend.Documents.Store.{
  CampagneBudgetaire, CampagneComiteMembre, StatutCampagne, parametrage, en_cours, ModeVisa,
  parallele, DocumentCall, find_campagne, campagne_has_id, user_has_id, ActionDocument,
  ActorContext, insert_audit, signataire_introuvable, exercice_pris, deja_membre, sans_obligatoire,
  campagne_statut, violation_unicite,
}

pub record CreerCampagneDto : Type 0 where
  pub code : String
  pub exercice_fiscal : ℕ
  pub libelle : String
  pub fk_user_signataire_defaut : ℕ
  pub mode_visa_defaut : Option ModeVisa

pub record AjouterComiteMembreDto : Type 0 where
  pub fk_user : ℕ
  pub est_obligatoire : Option Bool
  pub libelle_fonction : Option String

-- `value ?? default`
abbrev pub or_default {ℓ} : {A : Type ℓ} → Option A → A → A
or_default none a = a
or_default (some b) a = b

abbrev pub is_found {ℓ} : {A : Type ℓ} → Option A → Bool
is_found none = false
is_found (some a) = true

abbrev pub is_parametrage : StatutCampagne → Bool
is_parametrage parametrage = true
is_parametrage _ = false

abbrev pub campagne_has_exercice : ℕ → CampagneBudgetaire → Bool
campagne_has_exercice n c = c.exercice_fiscal == n

-- The code is a unique column.
abbrev pub campagne_has_code : String → CampagneBudgetaire → Bool
campagne_has_code code c = str_eq c.code code

abbrev pub membre_is_of : ℕ → ℕ → CampagneComiteMembre → Bool
membre_is_of campagne user m = m.fk_campagne == campagne && m.fk_user == user

abbrev pub is_obligatoire_of : ℕ → CampagneComiteMembre → Bool
is_obligatoire_of campagne m = m.fk_campagne == campagne && m.est_obligatoire

-- `MAX(m.ordre)` over the members of a campaign, `null` where there is none
abbrev pub max_ordre : ℕ → List CampagneComiteMembre → Option ℕ
max_ordre campagne [] = none
max_ordre campagne (m ∷ ms) =
    let rest = max_ordre campagne ms in
    if m.fk_campagne == campagne
    then some (elim rest [ none ↦ m.ordre | some n ↦ if ltb m.ordre n then n else m.ordre ])
    else rest

-- `maxRow?.maxOrdre ? Number(maxRow.maxOrdre) + 1 : 1`. The driver returns the integer 0 as a
-- falsy value; then the sum is 1 as well.
abbrev pub ordre_suivant : Option ℕ → ℕ
ordre_suivant none = 1
ordre_suivant (some n) = suc n

module _ (now : ℕ) (actor : ActorContext) where
  unfoldable pub creer_campagne : CreerCampagneDto → DocumentCall CampagneBudgetaire
  creer_campagne dto = do
    signataire ← gets (λ s. find_one (user_has_id dto.fk_user_signataire_defaut) s.users)
    require (is_found signataire) signataire_introuvable
    existante ← gets (λ s. find_one (campagne_has_exercice dto.exercice_fiscal) s.campagnes)
    require (not (is_found existante)) exercice_pris
    meme_code ← gets (λ s. find_one (campagne_has_code dto.code) s.campagnes)
    require (not (is_found meme_code)) violation_unicite
    id ← gets (λ s. s.prochain_id)
    let saved : CampagneBudgetaire = record {
      id = id;
      code = dto.code;
      exercice_fiscal = dto.exercice_fiscal;
      libelle = dto.libelle;
      statut = parametrage;
      mode_visa_defaut = or_default dto.mode_visa_defaut parallele;
      date_creation = now;
      date_lancement = none;
      fk_user_signataire_defaut = dto.fk_user_signataire_defaut;
      utilisateur_creation = actor.user_email;
      utilisateur_modification = none;
    }
    modify (λ s. record s { campagnes = s.campagnes ++ (saved ∷ []); prochain_id = suc id })
    insert_audit actor ActionDocument.creer_document id
    pure saved

  unfoldable pub ajouter_membre_comite :
      ℕ → AjouterComiteMembreDto → DocumentCall CampagneComiteMembre
  ajouter_membre_comite campagne_id dto = do
    campagne ← find_campagne campagne_id
    require (is_parametrage campagne.statut) (campagne_statut campagne.statut)
    deja ← gets (λ s. find_one (membre_is_of campagne_id dto.fk_user) s.membres)
    require (not (is_found deja)) deja_membre
    max_row ← gets (λ s. max_ordre campagne_id s.membres)
    id ← gets (λ s. s.prochain_id)
    let saved : CampagneComiteMembre = record {
      id = id;
      fk_campagne = campagne_id;
      fk_user = dto.fk_user;
      ordre = ordre_suivant max_row;
      est_obligatoire = or_default dto.est_obligatoire true;
      libelle_fonction = dto.libelle_fonction;
      date_creation = now;
      utilisateur_creation = actor.user_email;
    }
    modify (λ s. record s { membres = s.membres ++ (saved ∷ []); prochain_id = suc id })
    pure saved

  unfoldable pub lancer_campagne : ℕ → DocumentCall CampagneBudgetaire
  lancer_campagne campagne_id = do
    campagne ← find_campagne campagne_id
    require (is_parametrage campagne.statut) (campagne_statut campagne.statut)
    nb_obligatoires ← gets (λ s. count_where (is_obligatoire_of campagne_id) s.membres)
    require (not (nb_obligatoires == 0)) sans_obligatoire
    let saved : CampagneBudgetaire = record campagne {
      statut = en_cours;
      date_lancement = some now;
      utilisateur_modification = some actor.user_email;
    }
    modify (λ s. record s {
      campagnes = update_where (campagne_has_id campagne.id) (λ _. saved) s.campagnes;
    })
    pure saved
