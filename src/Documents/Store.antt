-- ===== src/Documents/Store.antt =====
-- documents-officiels/entities: campaigns, committee members, documents, visas and signatures, and
-- the calls that the services share. Identifiers (uuid and bigint) and instants are numbers. The
-- attachment's content, the IP address and the browser of a request are left out.
use budget_backend.Base.{
  ℕ, String, Option, Bool, List, [], ◌∷◌, ◌++◌, Service, transaction, modify, or_throw, find_one,
  update_where, ◌&&◌, ◌==◌, suc,
}

pub data StatutCampagne : Type 0 where
  parametrage en_cours terminee archivee : StatutCampagne

pub data ModeVisa : Type 0 where
  parallele sequentiel : ModeVisa

pub record CampagneBudgetaire : Type 0 where
  pub id : ℕ
  pub code : String
  pub exercice_fiscal : ℕ
  pub libelle : String
  pub statut : StatutCampagne
  pub mode_visa_defaut : ModeVisa
  pub date_creation : ℕ
  pub date_lancement : Option ℕ
  pub fk_user_signataire_defaut : ℕ
  pub utilisateur_creation : String
  pub utilisateur_modification : Option String

pub record CampagneComiteMembre : Type 0 where
  pub id : ℕ
  pub fk_campagne : ℕ
  pub fk_user : ℕ
  pub ordre : ℕ
  pub est_obligatoire : Bool
  pub libelle_fonction : Option String
  pub date_creation : ℕ
  pub utilisateur_creation : String

pub data StatutDocument : Type 0 where
  brouillon soumis_visa vise signe archive : StatutDocument

pub record DocumentOfficiel : Type 0 where
  pub id : ℕ
  pub code_document : String
  pub type_document : String
  pub fk_campagne : Option ℕ
  pub titre : String
  pub contenu_html : String
  pub contenu_json : Option String
  pub reference_externe : Option String
  pub statut : StatutDocument
  pub fk_user_emetteur : ℕ
  pub fk_user_signataire : ℕ
  pub fk_version_budget : Option ℕ
  pub date_creation : ℕ
  pub date_modification : Option ℕ
  pub date_soumission_visa : Option ℕ
  pub date_visa_complet : Option ℕ
  pub date_signature : Option ℕ
  pub hash_contenu_signe : Option String
  pub fichier_joint_path : Option String
  pub fichier_joint_nom : Option String
  pub utilisateur_creation : String
  pub utilisateur_modification : Option String

pub data StatutVisa : Type 0 where
  en_attente vise rejete ignore : StatutVisa

pub record DocumentVisa : Type 0 where
  pub id : ℕ
  pub fk_document : ℕ
  pub fk_user_viseur : ℕ
  pub ordre_visa : ℕ
  pub est_obligatoire : Bool
  pub libelle_fonction : Option String
  pub statut : StatutVisa
  pub date_demande : ℕ
  pub date_action : Option ℕ
  pub commentaire : Option String

pub record DocumentSignature : Type 0 where
  pub id : ℕ
  pub fk_document : ℕ
  pub fk_user_signataire : ℕ
  pub email_signataire : String
  pub nom_signataire : String
  pub hash_contenu : String
  pub hash_visas : String
  pub date_signature : ℕ
  pub fk_audit_log : Option ℕ

pub record User : Type 0 where
  pub id : ℕ
  pub email : String
  pub nom : String
  pub prenom : String
  pub mot_de_passe_hash : String

pub data ActionDocument : Type 0 where
  creer_document editer_document soumettre_document_visa viser_document rejeter_document
        signer_document :
      ActionDocument

-- A line of audit_log, without its payload; the target is a campaign or a document.
pub record AuditDocument : Type 0 where
  pub id : ℕ
  pub utilisateur : String
  pub type_action : ActionDocument
  pub id_cible : ℕ

pub record Store : Type 0 where
  pub campagnes : List CampagneBudgetaire
  pub membres : List CampagneComiteMembre
  pub documents : List DocumentOfficiel
  pub visas : List DocumentVisa
  pub signatures : List DocumentSignature
  pub users : List User
  pub audit : List AuditDocument
  pub prochain_id : ℕ

-- The exceptions of the services, and of a unique index of the database.
pub data ErreurDocument : Type 0 where
  introuvable campagne_inconnue utilisateur_introuvable signataire_introuvable exercice_pris
        deja_membre sans_obligatoire code_pris comite_vide sans_campagne commentaire_obligatoire
        pas_de_visa_en_attente ordre_sequentiel reserve_emetteur reserve_signataire
        mot_de_passe_invalide violation_unicite :
      ErreurDocument
  campagne_statut : StatutCampagne → ErreurDocument
  document_statut : StatutDocument → ErreurDocument

pub record ActorContext : Type 0 where
  pub user_id : ℕ
  pub user_email : String
  pub is_admin : Bool

abbrev pub DocumentCall : Type 0 → Type 0
DocumentCall = Service Store ErreurDocument

abbrev pub in_transaction : {A : Type 0} → DocumentCall A → DocumentCall A
in_transaction = transaction (λ before after. before)

abbrev pub campagne_has_id : ℕ → CampagneBudgetaire → Bool
campagne_has_id id c = c.id == id

abbrev pub document_has_id : ℕ → DocumentOfficiel → Bool
document_has_id id d = d.id == id

-- `where: { fkDocument, fkUserViseur }`, the unique key uq_visa_doc_user
abbrev pub visa_is_of : ℕ → ℕ → DocumentVisa → Bool
visa_is_of document user v = v.fk_document == document && v.fk_user_viseur == user

abbrev pub signature_is_of : ℕ → DocumentSignature → Bool
signature_is_of document s = s.fk_document == document

abbrev pub user_has_id : ℕ → User → Bool
user_has_id id u = u.id == id

-- `findOne({ where: { id } })`, and the 404
abbrev pub find_campagne : ℕ → DocumentCall CampagneBudgetaire
find_campagne id s = or_throw (find_one (campagne_has_id id) s.campagnes) introuvable s

abbrev pub find_document : ℕ → DocumentCall DocumentOfficiel
find_document id s = or_throw (find_one (document_has_id id) s.documents) introuvable s

-- `save` of a row that is stored
abbrev pub save_document : DocumentOfficiel → DocumentCall (Unit {0})
save_document d =
    modify (λ s. record s { documents = update_where (document_has_id d.id) (λ _. d) s.documents })

-- `insertAudit`
abbrev pub insert_audit : ActorContext → ActionDocument → ℕ → DocumentCall (Unit {0})
insert_audit actor action cible = modify (λ s. record s {
  audit =
      s.audit
      ++ (record {
        id = s.prochain_id;
        utilisateur = actor.user_email;
        type_action = action;
        id_cible = cible;
      }
          ∷ []);
  prochain_id = suc s.prochain_id;
})
