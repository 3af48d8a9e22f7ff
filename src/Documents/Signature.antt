-- ===== src/Documents/Signature.antt =====
-- A signature and the integrity check that follows it.
use text.Mathlib.TextPositions.{eq_refl}
use budget_backend.Base.{
  ap, sym, ℕ, suc, String, some, true, ◌≡◌, inl, inr, [], ◌∷◌, arith, find_one, find_all, ok,
  Option-cases, find_one_sound, find_one-save, find_one-append,
}
use budget_backend.Documents.Store.{
  Store, DocumentOfficiel, DocumentSignature, ActorContext, signe, document_has_id, signature_is_of,
  user_has_id, User,
}
use budget_backend.Documents.Workflow.{
  nouvelle_signature, Hachage, signer_document, verifier_integrite, visa_of,
}

-- The check on a document with a signature whose hashes agree.
verifier_integrite-agrees :
    (h : Hachage) (id : ℕ) (s : Store) (d : DocumentOfficiel) (signature : DocumentSignature)
    → find_one (document_has_id id) s.documents ≡ some d
    → find_one (signature_is_of id) s.signatures ≡ some signature
    → signature.hash_contenu ≡ h.hash_contenu d.contenu_html
    → signature.hash_visas ≡ h.hash_visas (find_all (visa_of id) s.visas)
    → (verifier_integrite h id s).0
      ≡ ok (record { signature_presente = true; contenu_intact = true; visas_intacts = true })
unfolding verifier_integrite
verifier_integrite-agrees h id s d signature found signed contenu visas = ground (
  arith,
  eq_refl (h.hash_contenu d.contenu_html),
  eq_refl (h.hash_visas (find_all (visa_of id) s.visas)),
)

module _ (now id : ℕ) (actor : ActorContext) (h : Hachage) (mot_de_passe : String) (s : Store) where
  signer_document-document :
      {d d' : DocumentOfficiel}
      → find_one (document_has_id id) s.documents ≡ some d
      → (signer_document now actor h id mot_de_passe s).0 ≡ ok d'
      → (find_one (document_has_id id) (signer_document now actor h id mot_de_passe s).1.documents
          ≡ some d')
        × (d'.contenu_html ≡ d.contenu_html)
  unfolding signer_document
  signer_document-document {d = d} found done =
      let same = find_one_sound (document_has_id id) s.documents found in
      let signed : DocumentOfficiel = record d {
        statut = signe;
        date_signature = some now;
        hash_contenu_signe = some (h.hash_contenu d.contenu_html);
        utilisateur_modification = some actor.user_email;
      } in
      (ground (arith, find_one-save (document_has_id id) s.documents signed {r = d}), ground arith)

  signer_document-signature :
      {d d' : DocumentOfficiel} {user : User}
      → find_one (document_has_id id) s.documents ≡ some d
      → find_one (user_has_id actor.user_id) s.users ≡ some user
      → (signer_document now actor h id mot_de_passe s).0 ≡ ok d'
      → find_one (signature_is_of id) (signer_document now actor h id mot_de_passe s).1.signatures
        ≡ some (
            nouvelle_signature now actor h
              (suc s.prochain_id)
              s.prochain_id
              id
              d
              (find_all (visa_of id) s.visas)
              user)
  unfolding signer_document
  signer_document-signature {d = d} {user = user} found who done =
      let signature =
        nouvelle_signature now actor h (suc s.prochain_id) s.prochain_id id d
          (find_all (visa_of id) s.visas) user in
      ground (arith, find_one-append (signature_is_of id) s.signatures (signature ∷ []))

  signer_document-visas : (signer_document now actor h id mot_de_passe s).1.visas ≡ s.visas
  unfolding signer_document
  signer_document-visas = ground arith

  signer_document-known :
      {d' : DocumentOfficiel}
      → (signer_document now actor h id mot_de_passe s).0 ≡ ok d'
      → (d : DocumentOfficiel) × (user : User) × (find_one (document_has_id id) s.documents
          ≡ some d)
        × (find_one (user_has_id actor.user_id) s.users ≡ some user)
  unfolding signer_document
  signer_document-known done = elim (Option-cases (find_one (document_has_id id) s.documents)) [
    | inl missing ↦ ground arith
    | inr (d, found) ↦ elim (Option-cases (find_one (user_has_id actor.user_id) s.users)) [
      | inl unknown ↦ ground arith
      | inr (user, who) ↦ (d, user, found, who)
    ]
  ]

  -- After a signature that goes through, the integrity check finds it, and reports the content and
  -- the visas of the document as intact.
  pub signer_document-verifier_integrite :
      {d : DocumentOfficiel}
      → (signer_document now actor h id mot_de_passe s).0 ≡ ok d
      → (verifier_integrite h id (signer_document now actor h id mot_de_passe s).1).0
        ≡ ok (record { signature_presente = true; contenu_intact = true; visas_intacts = true })
  signer_document-verifier_integrite {d = d'} done =
      let (d, user, found, who) = signer_document-known done in
      let (stored, same) = signer_document-document found done in
      verifier_integrite-agrees h id (signer_document now actor h id mot_de_passe s).1 d' _ stored
        (signer_document-signature found who done) (ap (λ c. h.hash_contenu c) (sym same))
        (ap (λ vs. h.hash_visas (find_all (visa_of id) vs)) (sym signer_document-visas))
