-- ===== src/Documents/Approval.antt =====
-- A document that is VISE or SIGNE has all its obligatory visas, after any history of calls.
use budget_backend.Base.{
  ℕ, some, true, false, ◌≡◌, refl, inl, inr, List, [], ◌∷◌, arith, find_one, update_where,
  find_one-append, find_one-save, ◌==◌, ◌&&◌, Bool-cases, ◌⊎◌,
}
use budget_backend.Documents.Store.{Store, DocumentOfficiel, DocumentVisa, document_has_id}
use budget_backend.Documents.Workflow.{visa_of, obligatoires_vises}
use budget_backend.Documents.Soumission.{soumettre_visa-effect}
use budget_backend.Documents.Effects.{
  DocumentEffect, quiet, drafted, saved, Elsewhere, is_approuve, creer_campagne-effect,
  ajouter_membre_comite-effect, lancer_campagne-effect, creer_document-effect,
  editer_document-effect, apporter_visa-effect, signer_document-effect,
}
use budget_backend.Documents.Requests.{
  DocumentOperation, campagne_creer, campagne_membre, campagne_lancer, document_creer,
  document_editer, document_soumettre, document_visa, document_signer, DocumentRequest,
  perform_document, run_documents,
}

-- Every document that is VISE or SIGNE has its obligatory visas VISE.
abbrev pub IsApproved : Store → Type 0
IsApproved s =
    (k : ℕ) (d : DocumentOfficiel)
    → find_one (document_has_id k) s.documents ≡ some d
    → is_approuve d.statut ≡ true
    → obligatoires_vises k s.visas ≡ true

other_documents :
    (id k : ℕ) (d : DocumentOfficiel) (ds : List DocumentOfficiel)
    → (k == id) ≡ false
    → d.id ≡ id
    → find_one (document_has_id k) (update_where (document_has_id id) (λ _. d) ds)
      ≡ find_one (document_has_id k) ds
other_documents id k d [] off same = refl
other_documents id k d (x ∷ ds) off same = ground (arith, other_documents id k d ds off same)

other_visas :
    (id k : ℕ) (vs vs' : List DocumentVisa)
    → Elsewhere id vs vs'
    → (k == id) ≡ false
    → obligatoires_vises k vs' ≡ obligatoires_vises k vs
other_visas id k vs vs' elsewhere off =
    let same = elsewhere (λ v. visa_of k v && v.est_obligatoire) (λ v hit. ground arith) in
    rw same refl

approved_here :
    (id : ℕ) (d d' : DocumentOfficiel) (s s' : Store)
    → find_one (document_has_id id) s.documents ≡ some d
    → ((is_approuve d.statut ≡ true) × (s'.visas ≡ s.visas))
      ⊎ (is_approuve d'.statut ≡ true → obligatoires_vises id s'.visas ≡ true)
    → IsApproved s
    → is_approuve d'.statut ≡ true
    → obligatoires_vises id s'.visas ≡ true
approved_here id d d' s s' found (inl (before, visas)) inv ok = rw visas (inv id d found before)
approved_here id d d' s s' found (inr given) inv ok = given ok

DocumentEffect-IsApproved : {s s' : Store} → DocumentEffect s s' → IsApproved s → IsApproved s'
DocumentEffect-IsApproved (quiet docs visas) inv k d found ok =
    rw visas (inv k d (rw docs at found) ok)
DocumentEffect-IsApproved {s = s} (drafted new draft docs visas) inv k d found ok =
    let there = rw docs at found in
    rw visas (
      inv k d (ground (arith, find_one-append (document_has_id k) s.documents (new ∷ []), there))
        ok)
DocumentEffect-IsApproved {s = s} {s' = s'} (saved id d0 d1 found0 same docs elsewhere how) inv k d
      found ok =
    let there = rw docs at found in
    elim (Bool-cases (k == id)) [
      | inl at_id ↦
          let is_id : k ≡ id = ground arith in
          let stored =
            find_one-save (document_has_id id) s.documents d1 found0 (ground (arith, same)) in
          let now_there : find_one (document_has_id id) s'.documents ≡ some d = rw is_id at found in
          let same_row : d1 ≡ d = ground (arith, stored, now_there, docs) in
          rw is_id (approved_here id d0 d1 s s' found0 how inv (rw same_row ok))
      | inr off ↦
          rw (other_visas id k s.visas s'.visas elsewhere off)
            (inv k d (rw (other_documents id k d1 s.documents off same) at there) ok)
    ]

perform_document-IsApproved :
    (o : DocumentOperation) (r : DocumentRequest) (s : Store)
    → IsApproved s
    → IsApproved (perform_document o r s)
perform_document-IsApproved (campagne_creer dto) r s =
    DocumentEffect-IsApproved (creer_campagne-effect r.now r.actor s dto)
perform_document-IsApproved (campagne_membre id dto) r s =
    DocumentEffect-IsApproved (ajouter_membre_comite-effect r.now r.actor s id dto)
perform_document-IsApproved (campagne_lancer id) r s =
    DocumentEffect-IsApproved (lancer_campagne-effect r.now r.actor s id)
perform_document-IsApproved (document_creer dto) r s =
    DocumentEffect-IsApproved (creer_document-effect r.now r.actor s dto)
perform_document-IsApproved (document_editer id dto) r s =
    DocumentEffect-IsApproved (editer_document-effect r.now r.actor s id dto)
perform_document-IsApproved (document_soumettre id) r s =
    DocumentEffect-IsApproved (soumettre_visa-effect r.now r.actor s id)
perform_document-IsApproved (document_visa id a c) r s =
    DocumentEffect-IsApproved (apporter_visa-effect r.now r.actor s id a c)
perform_document-IsApproved (document_signer id mdp) r s =
    DocumentEffect-IsApproved (signer_document-effect r.now r.actor s r.hachage id mdp)

-- Whatever calls of the campaign and document services follow one another, a document that is VISE
-- or SIGNE has all its obligatory visas VISE, if that held at the start.
pub run_documents-IsApproved :
    (rs : List DocumentRequest) (s : Store) → IsApproved s → IsApproved (run_documents rs s)
run_documents-IsApproved [] s inv = inv
run_documents-IsApproved (r ∷ rs) s inv =
    run_documents-IsApproved rs (perform_document r.operation r s)
      (perform_document-IsApproved r.operation r s inv)
