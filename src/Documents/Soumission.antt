-- ===== src/Documents/Soumission.antt =====
-- Submission of a document: what it writes to the tables of documents and visas.
use budget_backend.Base.{
  ℕ, some, Bool, false, ◌≡◌, refl, inl, inr, List, [], ◌∷◌, ◌++◌, arith, ok, find_one, find_all,
  Result-cases, find_one_sound, sym,
}
use mathlib.Core.Path.{subst}
use budget_backend.Documents.Store.{
  Store, save_document, DocumentOfficiel, DocumentVisa, soumis_visa, ActorContext, document_has_id,
  CampagneComiteMembre,
}
use budget_backend.Documents.Workflow.{
  soumettre_visa, envoyer_au_comite, document_a_soumettre, insert_visa, insert_visas, nouveau_visa,
}
use budget_backend.Documents.Effects.{Elsewhere, DocumentEffect, quiet, saved}

find_all-append :
    (p : DocumentVisa → Bool) (vs : List DocumentVisa) (v : DocumentVisa)
    → p v ≡ false
    → find_all p (vs ++ (v ∷ [])) ≡ find_all p vs
find_all-append p [] v h = rw h
find_all-append p (w ∷ vs) v h = ground (arith, find_all-append p vs v)

insert_visa-Elsewhere :
    (now : ℕ) (actor : ActorContext) (id : ℕ) (m : CampagneComiteMembre) (s : Store)
    → Elsewhere id s.visas (insert_visa now actor id m s).1.visas
insert_visa-Elsewhere now actor id m s p off =
    let new = nouveau_visa now actor s.prochain_id id m in
    ground (arith, find_all-append p s.visas new, off new (ground arith))

insert_visas-documents :
    (now : ℕ) (actor : ActorContext) (id : ℕ) (ms : List CampagneComiteMembre) (s : Store)
    → ((insert_visas now actor id ms s).1.documents ≡ s.documents)
      × Elsewhere id s.visas (insert_visas now actor id ms s).1.visas
unfolding insert_visas
insert_visas-documents now actor id [] s = (refl, λ p off. refl)
insert_visas-documents now actor id (m ∷ ms) s =
    let (docs, elsewhere) =
      insert_visas-documents now actor id ms (insert_visa now actor id m s).1 in
    let first = insert_visa-Elsewhere now actor id m s in
    (ground (arith, docs), λ p off. ground (arith, elsewhere p off, first p off))

module _ (now : ℕ) (actor : ActorContext) (s : Store) where
  envoyer_au_comite-effect :
      (id : ℕ) (d : DocumentOfficiel) (ms : List CampagneComiteMembre)
      → find_one (document_has_id id) s.documents ≡ some d
      → d.id ≡ id
      → DocumentEffect s (envoyer_au_comite now actor d id ms s).1
  unfolding envoyer_au_comite
  envoyer_au_comite-effect id d ms found same =
      let sent : DocumentOfficiel = record d {
        statut = soumis_visa;
        date_soumission_visa = some now;
        utilisateur_modification = some actor.user_email;
      } in
      let (docs, elsewhere) = insert_visas-documents now actor id ms (save_document sent s).1 in
      elim (Result-cases (insert_visas now actor id ms (save_document sent s).1).0) [
        | inl (u, done) ↦
            saved id d sent found same (ground (arith, docs))
              (λ p off. ground (arith, elsewhere p off)) (inr (ground arith))
        | inr (x, failed) ↦ quiet (ground arith) (ground arith)
      ]

  document_a_soumettre-reads : (id : ℕ) → (document_a_soumettre now actor id s).1 ≡ s
  unfolding document_a_soumettre
  document_a_soumettre-reads id = ground arith

  document_a_soumettre-found :
      (id : ℕ) {d : DocumentOfficiel} {ms : List CampagneComiteMembre}
      → (document_a_soumettre now actor id s).0 ≡ ok (d, ms)
      → find_one (document_has_id id) s.documents ≡ some d
  unfolding document_a_soumettre
  document_a_soumettre-found id h = ground arith

  pub soumettre_visa-effect : (id : ℕ) → DocumentEffect s (soumettre_visa now actor id s).1
  unfolding soumettre_visa
  soumettre_visa-effect id =
      let reads = document_a_soumettre-reads id in
      elim (Result-cases (document_a_soumettre now actor id s).0) [
        | inl ((d, ms), checked) ↦
            let found = document_a_soumettre-found id checked in
            let runs : soumettre_visa now actor id s ≡ envoyer_au_comite now actor d id ms s =
              ground (arith, checked, reads) in
            subst (λ r. DocumentEffect s r.1) (sym runs)
              (envoyer_au_comite-effect id d ms found
                (ground (arith, find_one_sound (document_has_id id) s.documents found)))
        | inr (x, failed) ↦ quiet (ground (arith, reads)) (ground (arith, reads))
      ]
