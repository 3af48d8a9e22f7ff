-- ===== src/Documents/Requests.antt =====
-- The calls of the two services that write, as requests, and a history of them.
use budget_backend.Base.{ℕ, String, Option, List, [], ◌∷◌}
use budget_backend.Documents.Store.{Store, ActorContext}
use budget_backend.Documents.Campagne.{
  CreerCampagneDto, AjouterComiteMembreDto, creer_campagne, ajouter_membre_comite, lancer_campagne,
}
use budget_backend.Documents.Workflow.{
  Hachage, CreerDocumentDto, EditerDocumentDto, ActionVisa, creer_document, editer_document,
  soumettre_visa, apporter_visa, signer_document,
}

pub data DocumentOperation : Type 0 where
  campagne_creer : CreerCampagneDto → DocumentOperation
  campagne_membre : ℕ → AjouterComiteMembreDto → DocumentOperation
  campagne_lancer : ℕ → DocumentOperation
  document_creer : CreerDocumentDto → DocumentOperation
  document_editer : ℕ → EditerDocumentDto → DocumentOperation
  document_soumettre : ℕ → DocumentOperation
  document_visa : ℕ → ActionVisa → Option String → DocumentOperation
  document_signer : ℕ → String → DocumentOperation

pub record DocumentRequest : Type 0 where
  pub operation : DocumentOperation
  pub actor : ActorContext
  pub now : ℕ
  pub hachage : Hachage

abbrev pub perform_document : DocumentOperation → DocumentRequest → Store → Store
perform_document (campagne_creer dto) r s = (creer_campagne r.now r.actor dto s).1
perform_document (campagne_membre id dto) r s = (ajouter_membre_comite r.now r.actor id dto s).1
perform_document (campagne_lancer id) r s = (lancer_campagne r.now r.actor id s).1
perform_document (document_creer dto) r s = (creer_document r.now r.actor dto s).1
perform_document (document_editer id dto) r s = (editer_document r.now r.actor id dto s).1
perform_document (document_soumettre id) r s = (soumettre_visa r.now r.actor id s).1
perform_document (document_visa id a c) r s = (apporter_visa r.now r.actor id a c s).1
perform_document (document_signer id mdp) r s = (signer_document r.now r.actor r.hachage id mdp s).1

abbrev pub run_documents : List DocumentRequest → Store → Store
run_documents [] s = s
run_documents (r ∷ rs) s = run_documents rs (perform_document r.operation r s)
