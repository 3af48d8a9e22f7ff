-- ===== src/Tests/Documents.antt =====
-- A document before a committee of one.
use budget_backend.Base.{ok, arith, none, some, true, false, ◌≡◌, refl, [], ◌∷◌, is_ok}
use budget_backend.Documents.Store.{
  User, Store, CampagneBudgetaire, CampagneComiteMembre, en_cours, parallele, DocumentOfficiel,
  StatutDocument, soumis_visa, DocumentVisa, en_attente, ActorContext,
}
use budget_backend.Documents.Workflow.{
  verifier_integrite, signer_document, viser, Hachage, rejeter, soumettre_visa,
  document_a_soumettre, envoyer_au_comite, apporter_visa, rejeter_visa, insert_visas,
}
use budget_backend.Documents.Texte.{is_blank_or_absent}
use budget_backend.Documents.Requests.{
  DocumentRequest, document_visa, document_signer, run_documents,
}
use budget_backend.Documents.Signature.{signer_document-verifier_integrite}
use budget_backend.Documents.Approval.{IsApproved, run_documents-IsApproved}
use budget_backend.Documents.Rejet.{refused-soumettre_visa}

abbrev membre : ActorContext
membre = record { user_id = 7; user_email = "membre@bsic.ne"; is_admin = false }

abbrev emetteur : ActorContext
emetteur = record { user_id = 8; user_email = "dg@bsic.ne"; is_admin = false }

abbrev campagne_1 : CampagneBudgetaire
campagne_1 = record {
  id = 1;
  code = "CAMP_2027";
  exercice_fiscal = 2027;
  libelle = "Campagne 2027";
  statut = en_cours;
  mode_visa_defaut = parallele;
  date_creation = 1;
  date_lancement = some 2;
  fk_user_signataire_defaut = 8;
  utilisateur_creation = "admin";
  utilisateur_modification = none;
}

abbrev membre_7 : CampagneComiteMembre
membre_7 = record {
  id = 2;
  fk_campagne = 1;
  fk_user = 7;
  ordre = 1;
  est_obligatoire = true;
  libelle_fonction = none;
  date_creation = 1;
  utilisateur_creation = "admin";
}

abbrev document_3 : StatutDocument → DocumentOfficiel
document_3 statut = record {
  id = 3;
  code_document = "D2_2027";
  type_document = "D2_LETTRE_CADRAGE";
  fk_campagne = some 1;
  titre = "Lettre de cadrage";
  contenu_html = "<p>Cadrage</p>";
  contenu_json = none;
  reference_externe = none;
  statut = statut;
  fk_user_emetteur = 8;
  fk_user_signataire = 8;
  fk_version_budget = none;
  date_creation = 3;
  date_modification = none;
  date_soumission_visa = none;
  date_visa_complet = none;
  date_signature = none;
  hash_contenu_signe = none;
  fichier_joint_path = none;
  fichier_joint_nom = none;
  utilisateur_creation = "dg@bsic.ne";
  utilisateur_modification = none;
}

abbrev visa_7 : DocumentVisa
visa_7 = record {
  id = 4;
  fk_document = 3;
  fk_user_viseur = 7;
  ordre_visa = 1;
  est_obligatoire = true;
  libelle_fonction = none;
  statut = en_attente;
  date_demande = 4;
  date_action = none;
  commentaire = none;
}

abbrev submitted : Store
submitted = record {
  campagnes = campagne_1 ∷ [];
  membres = membre_7 ∷ [];
  documents = document_3 soumis_visa ∷ [];
  visas = visa_7 ∷ [];
  signatures = [];
  users = [];
  audit = [];
  prochain_id = 10;
}

-- The first submission goes through.
first_submission :
    is_ok
      (soumettre_visa 5 emetteur 3
        (record submitted { visas = []; documents = document_3 StatutDocument.brouillon ∷ [] })).0
    ≡ true
unfolding soumettre_visa document_a_soumettre envoyer_au_comite insert_visas
first_submission = refl

abbrev refused : DocumentOfficiel
refused = record (document_3 StatutDocument.brouillon) {
  utilisateur_modification = some "membre@bsic.ne";
}

refused-soumettre_visa_example :
    is_ok
      (soumettre_visa 7 emetteur 3 (apporter_visa 6 membre 3 rejeter (some "non") submitted).1).0
    ≡ false
refused-soumettre_visa_example =
    refused-soumettre_visa 6 7 3 1 membre emetteur (some "non") submitted {d = refused}
      (unfold apporter_visa rejeter_visa is_blank_or_absent in refl) refl refl

abbrev hachage : Hachage
hachage = record { hash_contenu = λ s. s; hash_visas = λ vs. ""; bcrypt_compare = λ m h. true }

abbrev approve_document : DocumentRequest
approve_document = record {
  operation = document_visa 3 viser none;
  actor = membre;
  now = 6;
  hachage = hachage;
}

abbrev sign : DocumentRequest
sign = record {
  operation = document_signer 3 "secret";
  actor = emetteur;
  now = 7;
  hachage = hachage;
}

submitted-IsApproved : IsApproved submitted
submitted-IsApproved k d found approuve = ground arith

run_documents-IsApproved_example :
    IsApproved (run_documents (approve_document ∷ sign ∷ []) submitted)
run_documents-IsApproved_example =
    run_documents-IsApproved (approve_document ∷ sign ∷ []) submitted submitted-IsApproved

abbrev utilisateur_8 : User
utilisateur_8 = record {
  id = 8;
  email = "dg@bsic.ne";
  nom = "Diallo";
  prenom = "Awa";
  mot_de_passe_hash = "hash";
}

abbrev approved : Store
approved = record submitted {
  documents = document_3 StatutDocument.vise ∷ [];
  visas = [];
  users = utilisateur_8 ∷ [];
}

abbrev signed : DocumentOfficiel
signed = record (document_3 StatutDocument.signe) {
  date_signature = some 7;
  hash_contenu_signe = some "<p>Cadrage</p>";
  utilisateur_modification = some "dg@bsic.ne";
}

signer_document-verifier_integrite_example :
    (verifier_integrite hachage 3 (signer_document 7 emetteur hachage 3 "secret" approved).1).0
    ≡ ok (record { signature_presente = true; contenu_intact = true; visas_intacts = true })
signer_document-verifier_integrite_example =
    signer_document-verifier_integrite 7 3 emetteur hachage "secret" approved {d = signed}
      (unfold signer_document in refl)
