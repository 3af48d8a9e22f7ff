-- ===== src/Documents/Workflow.antt =====
-- documents-officiels/services/document-workflow.service.ts: the operations that write, and the
-- integrity check. The two hashes of document-hash.service.ts and `bcrypt.compare` are what the
-- record `Hachage` holds. The document that a call returns is the saved row.
use budget_backend.Base.{
  ℕ, suc, String, Option, none, some, Bool, true, false, List, [], ◌∷◌, ◌++◌, pure, gets, require,
  modify, or_throw, ◌>>=◌, ◌>>◌, find_one, find_all, update_where, delete_where, any, every, length,
  ◌&&◌, ◌||◌, ◌==◌, ltb, not, if◌then◌else◌, str_eq, concat,
}
use budget_backend.Documents.Store.{
  CampagneBudgetaire, CampagneComiteMembre, StatutCampagne, en_cours, ModeVisa, sequentiel,
  DocumentSignature, User, DocumentOfficiel, StatutDocument, brouillon, soumis_visa, signe,
  StatutVisa, en_attente, rejete, DocumentVisa, ActionDocument, ActorContext, DocumentCall,
  in_transaction, campagne_has_id, visa_is_of, signature_is_of, user_has_id, find_campagne,
  find_document, save_document, insert_audit, signataire_introuvable, code_pris, comite_vide,
  sans_campagne, commentaire_obligatoire, pas_de_visa_en_attente, ordre_sequentiel,
  reserve_emetteur, reserve_signataire, mot_de_passe_invalide, violation_unicite, campagne_statut,
  document_statut, campagne_inconnue, utilisateur_introuvable,
}
use budget_backend.Documents.Campagne.{is_found}
use budget_backend.Documents.Texte.{is_blank_or_absent}

pub record Hachage : Type 0 where
  pub hash_contenu : String → String
  pub hash_visas : List DocumentVisa → String
  -- password, then stored hash
  pub bcrypt_compare : String → String → Bool

pub record CreerDocumentDto : Type 0 where
  pub code_document : String
  pub type_document : String
  pub fk_campagne : ℕ
  pub titre : String
  pub contenu_html : String
  pub reference_externe : Option String
  pub fk_user_signataire : ℕ
  pub fk_version_budget : Option ℕ

pub record EditerDocumentDto : Type 0 where
  pub titre : Option String
  pub contenu_html : Option String
  pub contenu_json : Option String
  pub reference_externe : Option String
  pub fichier_joint_path : Option String
  pub fichier_joint_nom : Option String

pub data ActionVisa : Type 0 where
  viser rejeter : ActionVisa

abbrev pub is_en_cours : StatutCampagne → Bool
is_en_cours en_cours = true
is_en_cours _ = false

abbrev pub is_sequentiel : ModeVisa → Bool
is_sequentiel sequentiel = true
is_sequentiel _ = false

abbrev pub is_brouillon : StatutDocument → Bool
is_brouillon brouillon = true
is_brouillon _ = false

abbrev pub is_soumis_visa : StatutDocument → Bool
is_soumis_visa soumis_visa = true
is_soumis_visa _ = false

abbrev pub is_document_vise : StatutDocument → Bool
is_document_vise StatutDocument.vise = true
is_document_vise _ = false

abbrev pub is_en_attente : StatutVisa → Bool
is_en_attente en_attente = true
is_en_attente _ = false

abbrev pub is_visa_vise : StatutVisa → Bool
is_visa_vise StatutVisa.vise = true
is_visa_vise _ = false

abbrev pub document_has_code : String → DocumentOfficiel → Bool
document_has_code code d = str_eq d.code_document code

abbrev pub membre_of : ℕ → CampagneComiteMembre → Bool
membre_of campagne m = m.fk_campagne == campagne

abbrev pub visa_of : ℕ → DocumentVisa → Bool
visa_of document v = v.fk_document == document

abbrev pub attente_of : ℕ → DocumentVisa → Bool
attente_of document v = visa_of document v && is_en_attente v.statut

abbrev pub mon_visa : ℕ → ℕ → DocumentVisa → Bool
mon_visa document user v = visa_is_of document user v && is_en_attente v.statut

abbrev pub or_current {ℓ} : {A : Type ℓ} → Option A → A → A
or_current none a = a
or_current (some b) a = b

abbrev pub or_current_option {ℓ} : {A : Type ℓ} → Option A → Option A → Option A
or_current_option none a = a
or_current_option (some b) a = some b

-- `visaRepo.save(visa)` of a stored visa
abbrev pub save_visa : DocumentVisa → DocumentCall (Unit {0})
save_visa v = modify (λ s. record s {
  visas = update_where (visa_is_of v.fk_document v.fk_user_viseur) (λ _. v) s.visas;
})

-- Each obligatory visa of the document is VISE.
abbrev pub obligatoires_vises : ℕ → List DocumentVisa → Bool
obligatoires_vises document vs =
    every (λ v. is_visa_vise v.statut) (find_all (λ v. visa_of document v && v.est_obligatoire) vs)

-- `visas.some((v) => v.ordreVisa < monVisa.ordreVisa && v.statut !== 'VISE')`
abbrev pub precedents_non_vises : DocumentVisa → List DocumentVisa → Bool
precedents_non_vises mien vs =
    any
      (λ v.
        visa_of mien.fk_document v
        && ltb v.ordre_visa mien.ordre_visa
        && not (is_visa_vise v.statut))
      vs

module _ (now : ℕ) (actor : ActorContext) where
  unfoldable pub creer_document : CreerDocumentDto → DocumentCall DocumentOfficiel
  creer_document dto = do
    campagne ← find_campagne dto.fk_campagne
    require (is_en_cours campagne.statut) (campagne_statut campagne.statut)
    deja ← gets (λ s. find_one (document_has_code dto.code_document) s.documents)
    require (not (is_found deja)) code_pris
    signataire ← gets (λ s. find_one (user_has_id dto.fk_user_signataire) s.users)
    require (is_found signataire) signataire_introuvable
    id ← gets (λ s. s.prochain_id)
    let saved : DocumentOfficiel = record {
      id = id;
      code_document = dto.code_document;
      type_document = dto.type_document;
      fk_campagne = some dto.fk_campagne;
      titre = dto.titre;
      contenu_html = dto.contenu_html;
      contenu_json = none;
      reference_externe = dto.reference_externe;
      statut = brouillon;
      fk_user_emetteur = actor.user_id;
      fk_user_signataire = dto.fk_user_signataire;
      fk_version_budget = dto.fk_version_budget;
      date_creation = now;
      date_modification = none;
      date_soumission_visa = none;
      date_visa_complet = none;
      date_signature = none;
      hash_contenu_signe = none;
      fichier_joint_path = none;
      fichier_joint_nom = none;
      utilisateur_creation = actor.user_email;
      utilisateur_modification = none;
    }
    modify (λ s. record s { documents = s.documents ++ (saved ∷ []); prochain_id = suc id })
    insert_audit actor ActionDocument.creer_document id
    pure saved

  unfoldable pub editer_document : ℕ → EditerDocumentDto → DocumentCall DocumentOfficiel
  editer_document document_id dto = do
    doc ← find_document document_id
    require (is_brouillon doc.statut) (document_statut doc.statut)
    require (doc.fk_user_emetteur == actor.user_id || actor.is_admin) reserve_emetteur
    let saved : DocumentOfficiel = record doc {
      titre = or_current dto.titre doc.titre;
      contenu_html = or_current dto.contenu_html doc.contenu_html;
      contenu_json = or_current_option dto.contenu_json doc.contenu_json;
      reference_externe = or_current_option dto.reference_externe doc.reference_externe;
      fichier_joint_path = or_current_option dto.fichier_joint_path doc.fichier_joint_path;
      fichier_joint_nom = or_current_option dto.fichier_joint_nom doc.fichier_joint_nom;
      date_modification = some now;
      utilisateur_modification = some actor.user_email;
    }
    save_document saved
    insert_audit actor ActionDocument.editer_document document_id
    pure saved

  -- A visa of the snapshot of the committee.
  abbrev pub nouveau_visa : ℕ → ℕ → CampagneComiteMembre → DocumentVisa
  nouveau_visa id document m = record {
    id = id;
    fk_document = document;
    fk_user_viseur = m.fk_user;
    ordre_visa = m.ordre;
    est_obligatoire = m.est_obligatoire;
    libelle_fonction = m.libelle_fonction;
    statut = en_attente;
    date_demande = now;
    date_action = none;
    commentaire = none;
  }

  -- `visaRepoTx.insert({ ... })`, which the unique index uq_visa_doc_user may refuse
  abbrev pub insert_visa : ℕ → CampagneComiteMembre → DocumentCall (Unit {0})
  insert_visa document m = do
    deja ← gets (λ s. find_one (visa_is_of document m.fk_user) s.visas)
    require (not (is_found deja)) violation_unicite
    modify (λ s. record s {
      visas = s.visas ++ (nouveau_visa s.prochain_id document m ∷ []);
      prochain_id = suc s.prochain_id;
    })

  -- The loop over the committee.
  unfoldable pub insert_visas : ℕ → List CampagneComiteMembre → DocumentCall (Unit {0})
  insert_visas document [] = pure tt
  insert_visas document (m ∷ ms) = insert_visa document m >> insert_visas document ms

  -- The transaction of `soumettreVisa`.
  unfoldable pub envoyer_au_comite :
      DocumentOfficiel → ℕ → List CampagneComiteMembre → DocumentCall DocumentOfficiel
  envoyer_au_comite doc document_id membres = in_transaction (do
    let saved : DocumentOfficiel = record doc {
      statut = soumis_visa;
      date_soumission_visa = some now;
      utilisateur_modification = some actor.user_email;
    }
    save_document saved
    insert_visas document_id membres
    insert_audit actor ActionDocument.soumettre_document_visa document_id
    pure saved)

  -- The checks of `soumettreVisa`; they give the document and its committee.
  unfoldable pub document_a_soumettre :
      ℕ → DocumentCall (DocumentOfficiel × List CampagneComiteMembre)
  document_a_soumettre document_id = do
    doc ← find_document document_id
    require (is_brouillon doc.statut) (document_statut doc.statut)
    require (doc.fk_user_emetteur == actor.user_id) reserve_emetteur
    campagne_id ← or_throw doc.fk_campagne sans_campagne
    campagne ←
        (λ s. or_throw (find_one (campagne_has_id campagne_id) s.campagnes) campagne_inconnue s)
    require (is_en_cours campagne.statut) (campagne_statut campagne.statut)
    membres ← gets (λ s. find_all (membre_of campagne_id) s.membres)
    require (not (length membres == 0)) comite_vide
    pure (doc, membres)

  unfoldable pub soumettre_visa : ℕ → DocumentCall DocumentOfficiel
  soumettre_visa document_id = do
    (doc, membres) ← document_a_soumettre document_id
    envoyer_au_comite doc document_id membres

  -- `doc.fkCampagne ? findOne(...) : null`
  abbrev pub campagne_of : Option ℕ → List CampagneBudgetaire → Option CampagneBudgetaire
  campagne_of none cs = none
  campagne_of (some id) cs = find_one (campagne_has_id id) cs

  abbrev pub mode_sequentiel : Option CampagneBudgetaire → Bool
  mode_sequentiel none = false
  mode_sequentiel (some c) = is_sequentiel c.mode_visa_defaut

  -- action REJETER: the visa is refused, the document is a draft again
  unfoldable pub rejeter_visa :
      DocumentOfficiel → DocumentVisa → Option String → DocumentCall DocumentOfficiel
  rejeter_visa doc mien commentaire = in_transaction (do
    save_visa (record mien { statut = rejete; date_action = some now; commentaire = commentaire })
    let saved : DocumentOfficiel = record doc {
      statut = brouillon;
      date_soumission_visa = none;
      utilisateur_modification = some actor.user_email;
    }
    save_document saved
    modify (λ s. record s { visas = delete_where (attente_of doc.id) s.visas })
    insert_audit actor ActionDocument.rejeter_document doc.id
    pure saved)

  -- action VISER: the document is VISE once all obligatory visas are
  unfoldable pub viser_visa :
      DocumentOfficiel → DocumentVisa → Option String → DocumentCall DocumentOfficiel
  viser_visa doc mien commentaire = in_transaction (do
    save_visa (record mien {
      statut = StatutVisa.vise;
      date_action = some now;
      commentaire = commentaire;
    })
    complet ← gets (λ s. obligatoires_vises doc.id s.visas)
    let saved : DocumentOfficiel = record doc {
      statut = if complet then StatutDocument.vise else doc.statut;
      date_visa_complet = if complet then some now else doc.date_visa_complet;
      utilisateur_modification = some actor.user_email;
    }
    save_document saved
    insert_audit actor ActionDocument.viser_document doc.id
    pure saved)

  abbrev pub apposer :
      ActionVisa → DocumentOfficiel → DocumentVisa → Option String → DocumentCall DocumentOfficiel
  apposer viser = viser_visa
  apposer rejeter = rejeter_visa

  abbrev pub is_rejeter : ActionVisa → Bool
  is_rejeter viser = false
  is_rejeter rejeter = true

  unfoldable pub apporter_visa : ℕ → ActionVisa → Option String → DocumentCall DocumentOfficiel
  apporter_visa document_id action commentaire = do
    require (not (is_rejeter action && is_blank_or_absent commentaire)) commentaire_obligatoire
    doc ← find_document document_id
    require (is_soumis_visa doc.statut) (document_statut doc.statut)
    mien ← (λ s.
        or_throw (find_one (mon_visa document_id actor.user_id) s.visas) pas_de_visa_en_attente s)
    bloque ← gets (λ s.
        mode_sequentiel (campagne_of doc.fk_campagne s.campagnes)
        && precedents_non_vises mien s.visas)
    require (not bloque) ordre_sequentiel
    apposer action doc mien commentaire

  -- The row of document_signature, tied to the audit line.
  abbrev pub nouvelle_signature :
      Hachage → ℕ → ℕ → ℕ → DocumentOfficiel → List DocumentVisa → User → DocumentSignature
  nouvelle_signature h id audit_id document_id doc visas user = record {
    id = id;
    fk_document = document_id;
    fk_user_signataire = actor.user_id;
    email_signataire = user.email;
    nom_signataire = concat user.prenom (concat " " user.nom);
    hash_contenu = h.hash_contenu doc.contenu_html;
    hash_visas = h.hash_visas visas;
    date_signature = now;
    fk_audit_log = some audit_id;
  }

  unfoldable pub signer_document : Hachage → ℕ → String → DocumentCall DocumentOfficiel
  signer_document h document_id mot_de_passe = do
    user ← (λ s. or_throw (find_one (user_has_id actor.user_id) s.users) utilisateur_introuvable s)
    require (h.bcrypt_compare mot_de_passe user.mot_de_passe_hash) mot_de_passe_invalide
    doc ← find_document document_id
    require (is_document_vise doc.statut) (document_statut doc.statut)
    require (doc.fk_user_signataire == actor.user_id) reserve_signataire
    visas ← gets (λ s. find_all (visa_of document_id) s.visas)
    in_transaction (do
      audit_id ← gets (λ s. s.prochain_id)
      insert_audit actor ActionDocument.signer_document document_id
      deja ← gets (λ s. find_one (signature_is_of document_id) s.signatures)
      require (not (is_found deja)) violation_unicite
      modify (λ s. record s {
        signatures =
            s.signatures
            ++ (nouvelle_signature h s.prochain_id audit_id document_id doc visas user ∷ []);
        prochain_id = suc s.prochain_id;
      })
      let saved : DocumentOfficiel = record doc {
        statut = signe;
        date_signature = some now;
        hash_contenu_signe = some (h.hash_contenu doc.contenu_html);
        utilisateur_modification = some actor.user_email;
      }
      save_document saved
      pure saved)

-- The three verdicts of the check; the details that the answer repeats are left out.
pub record Integrite : Type 0 where
  pub signature_presente : Bool
  pub contenu_intact : Bool
  pub visas_intacts : Bool

unfoldable pub verifier_integrite : Hachage → ℕ → DocumentCall Integrite
verifier_integrite h document_id = do
  doc ← find_document document_id
  signature ← gets (λ s. find_one (signature_is_of document_id) s.signatures)
  visas ← gets (λ s. find_all (visa_of document_id) s.visas)
  pure (elim signature [
    | none ↦ record { signature_presente = false; contenu_intact = false; visas_intacts = false }
    | some sig ↦ record {
      signature_presente = true;
      contenu_intact = str_eq (h.hash_contenu doc.contenu_html) sig.hash_contenu;
      visas_intacts = str_eq (h.hash_visas visas) sig.hash_visas;
    }
  ])
