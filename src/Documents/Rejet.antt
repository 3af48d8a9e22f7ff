-- ===== src/Documents/Rejet.antt =====
-- A refused visa stays in document_visa, where the unique index uq_visa_doc_user keeps the committee
-- from being copied again.
use budget_backend.Base.{
  ℕ, String, Option, none, some, Bool, true, false, ◌≡◌, refl, inl, inr, List, [], ◌∷◌, ◌++◌, arith,
  find_one, find_all, update_where, delete_where, any, ok, is_ok, Bool-cases, Option-cases, ◌>>◌,
  ◌==◌, find_one_sound, find_one-save, find_one-append,
}
use budget_backend.Documents.Store.{
  Store, DocumentCall, brouillon, rejete, save_document, soumis_visa, CampagneComiteMembre,
  DocumentOfficiel, DocumentVisa, ActorContext, document_has_id, visa_is_of,
}
use budget_backend.Documents.Campagne.{is_found, membre_is_of}
use budget_backend.Documents.Workflow.{
  insert_visa, insert_visas, envoyer_au_comite, document_a_soumettre, soumettre_visa, rejeter_visa,
  apporter_visa, rejeter, membre_of, nouveau_visa, ActionVisa, apposer, attente_of, mon_visa,
}

found_append :
    (p : DocumentVisa → Bool) (vs ws : List DocumentVisa)
    → is_found (find_one p vs) ≡ true
    → is_found (find_one p (vs ++ ws)) ≡ true
found_append p vs ws h = ground (arith, find_one-append p vs ws)

insert_visa-keeps :
    (now : ℕ) (actor : ActorContext) (id u : ℕ) (m : CampagneComiteMembre) (s : Store)
    → is_found (find_one (visa_is_of id u) s.visas) ≡ true
    → is_found (find_one (visa_is_of id u) (insert_visa now actor id m s).1.visas) ≡ true
insert_visa-keeps now actor id u m s there =
    ground (
      arith,
      found_append (visa_is_of id u) s.visas (nouveau_visa now actor s.prochain_id id m ∷ []),
    )

insert_visa-twice :
    (now : ℕ) (actor : ActorContext) (id : ℕ) (m : CampagneComiteMembre) (s : Store)
    → is_found (find_one (visa_is_of id m.fk_user) s.visas) ≡ true
    → is_ok (insert_visa now actor id m s).0 ≡ false
insert_visa-twice now actor id m s there = ground arith

first-fails :
    {A B : Type 0} (m : DocumentCall A) (k : DocumentCall B) (s : Store)
    → is_ok (m s).0 ≡ false
    → is_ok ((m >> k) s).0 ≡ false
first-fails m k s h = ground arith

then-fails :
    {A B : Type 0} (m : DocumentCall A) (k : DocumentCall B) (s : Store)
    → is_ok (k (m s).1).0 ≡ false
    → is_ok ((m >> k) s).0 ≡ false
then-fails m k s h = ground arith

-- The loop over the committee fails at a member whose visa is there already.
insert_visas-fails :
    (now : ℕ) (actor : ActorContext) (id u : ℕ) (ms : List CampagneComiteMembre) (s : Store)
    → any (λ m. m.fk_user == u) ms ≡ true
    → is_found (find_one (visa_is_of id u) s.visas) ≡ true
    → is_ok (insert_visas now actor id ms s).0 ≡ false
unfolding insert_visas
insert_visas-fails now actor id u [] s h there = cc
insert_visas-fails now actor id u (m ∷ ms) s h there = elim (Bool-cases (m.fk_user == u)) [
  | inl same ↦
      let is_u : u ≡ m.fk_user = ground arith in
      first-fails (insert_visa now actor id m) (insert_visas now actor id ms) s
        (insert_visa-twice now actor id m s (rw is_u at there))
  | inr other ↦ then-fails (insert_visa now actor id m) (insert_visas now actor id ms) s (
      insert_visas-fails now actor id u ms (insert_visa now actor id m s).1 (rw other at h)
        (insert_visa-keeps now actor id u m s there))
]

membres-any :
    (c u : ℕ) (ms : List CampagneComiteMembre)
    → any (membre_is_of c u) ms ≡ true
    → any (λ m. m.fk_user == u) (find_all (membre_of c) ms) ≡ true
membres-any c u [] h = cc
membres-any c u (m ∷ ms) h = ground (arith, membres-any c u ms)

-- A document is not submitted while a member of its committee has a visa on it.
soumettre-bloque :
    (now : ℕ) (actor : ActorContext) (id c u : ℕ) (s : Store) {d : DocumentOfficiel}
    → find_one (document_has_id id) s.documents ≡ some d
    → d.fk_campagne ≡ some c
    → any (membre_is_of c u) s.membres ≡ true
    → is_found (find_one (visa_is_of id u) s.visas) ≡ true
    → is_ok (soumettre_visa now actor id s).0 ≡ false
unfolding soumettre_visa document_a_soumettre envoyer_au_comite
soumettre-bloque now actor id c u s {d = d} found camp member there =
    let saved : DocumentOfficiel = record d {
      statut = soumis_visa;
      date_soumission_visa = some now;
      utilisateur_modification = some actor.user_email;
    } in
    ground (
      arith,
      insert_visas-fails now actor id u (find_all (membre_of c) s.membres) (save_document saved s).1
          (membres-any c u s.membres member) there,
    )

-- A visa call that returns is the visa itself on the document and the caller's waiting visa.
pub apporter_visa-apposer :
    (now : ℕ) (actor : ActorContext) (id : ℕ) (action : ActionVisa) (commentaire : Option String)
    (s : Store) {d' : DocumentOfficiel}
    → (apporter_visa now actor id action commentaire s).0 ≡ ok d'
    → (d : DocumentOfficiel) × (mien : DocumentVisa) × (find_one (document_has_id id) s.documents
        ≡ some d)
      × (d.statut ≡ soumis_visa)
      × (find_one (mon_visa id actor.user_id) s.visas ≡ some mien)
      × (apporter_visa now actor id action commentaire s
          ≡ apposer now actor action d mien commentaire s)
unfolding apporter_visa
apporter_visa-apposer now actor id action commentaire s h =
    elim (Option-cases (find_one (document_has_id id) s.documents)) [
      | inl missing ↦ ground arith
      | inr (d, found) ↦ elim (Option-cases (find_one (mon_visa id actor.user_id) s.visas)) [
        | inl missing ↦ ground arith
        | inr (mien, there) ↦ (d, mien, found, ground arith, there, ground arith)
      ]
    ]

found_key :
    (id u : ℕ) (vs : List DocumentVisa)
    → is_found (find_one (mon_visa id u) vs) ≡ true
    → is_found (find_one (visa_is_of id u) vs) ≡ true
found_key id u [] h = cc
found_key id u (v ∷ vs) h = ground (arith, found_key id u vs)

-- The deletion of the waiting visas spares a visa that does not wait.
found_spared :
    (p q : DocumentVisa → Bool) (vs : List DocumentVisa) {v : DocumentVisa}
    → find_one p vs ≡ some v
    → q v ≡ false
    → is_found (find_one p (delete_where q vs)) ≡ true
found_spared p q [] found h = cc
found_spared p q (x ∷ vs) {v = v} found h = ground (arith, found_spared p q vs {v = v})

visa_saved :
    (id u a b : ℕ) (x : DocumentVisa) (vs : List DocumentVisa) {v : DocumentVisa}
    → a ≡ id
    → b ≡ u
    → find_one (visa_is_of id u) vs ≡ some v
    → visa_is_of id u x ≡ true
    → find_one (visa_is_of id u) (update_where (visa_is_of a b) (λ _. x) vs) ≡ some x
visa_saved id u a b x vs is_a is_b found h =
    rw (is_a, is_b) (find_one-save (visa_is_of id u) vs x found h)

-- A refusal leaves the refused visa.
rejeter_visa-leaves :
    (now : ℕ) (actor : ActorContext) (commentaire : Option String) (s : Store)
    (d : DocumentOfficiel) (mien : DocumentVisa)
    → find_one (mon_visa d.id actor.user_id) s.visas ≡ some mien
    → is_found (
        find_one
          (visa_is_of d.id actor.user_id)
          (rejeter_visa now actor d mien commentaire s).1.visas)
      ≡ true
unfolding rejeter_visa
rejeter_visa-leaves now actor commentaire s d mien there =
    let passes = find_one_sound (mon_visa d.id actor.user_id) s.visas there in
    let same_document : mien.fk_document ≡ d.id = ground (arith, passes) in
    let same_user : mien.fk_user_viseur ≡ actor.user_id = ground (arith, passes) in
    let refused : DocumentVisa = record mien {
      statut = rejete;
      date_action = some now;
      commentaire = commentaire;
    } in
    elim (Option-cases (find_one (visa_is_of d.id actor.user_id) s.visas)) [
      | inl absent ↦
          let present = found_key d.id actor.user_id s.visas (rw there refl) in cc (absent, present)
      | inr (v, found) ↦
          found_spared (visa_is_of d.id actor.user_id) (attente_of d.id) _ {v = refused}
            (visa_saved d.id actor.user_id mien.fk_document mien.fk_user_viseur refused s.visas
              same_document same_user found (ground (arith, passes)))
            (ground arith)
    ]

rejeter_visa-document :
    (now : ℕ) (actor : ActorContext) (commentaire : Option String) (s : Store)
    (d : DocumentOfficiel) (mien : DocumentVisa) {d' : DocumentOfficiel}
    → find_one (document_has_id d.id) s.documents ≡ some d
    → (rejeter_visa now actor d mien commentaire s).0 ≡ ok d'
    → (find_one (document_has_id d.id) (rejeter_visa now actor d mien commentaire s).1.documents
        ≡ some d')
      × (d'.id ≡ d.id)
unfolding rejeter_visa
rejeter_visa-document now actor commentaire s d mien found h = (
  ground (
    arith,
    find_one-save (document_has_id d.id) s.documents
        (record d {
          statut = brouillon;
          date_soumission_visa = none;
          utilisateur_modification = some actor.user_email;
        })
        {r = d},
  ),
  ground arith,
)

rejeter_visa-membres :
    (now : ℕ) (actor : ActorContext) (commentaire : Option String) (s : Store)
    (d : DocumentOfficiel) (mien : DocumentVisa)
    → (rejeter_visa now actor d mien commentaire s).1.membres ≡ s.membres
unfolding rejeter_visa
rejeter_visa-membres now actor commentaire s d mien = refl

-- A document that a member of its campaign's committee has refused cannot be submitted again: on the
-- database that the refusal leaves, a submission throws, whoever makes it and at whatever instant.
pub refused-soumettre_visa :
    (now now' id campagne : ℕ) (actor auteur : ActorContext) (commentaire : Option String)
    (s : Store) {d : DocumentOfficiel}
    → (apporter_visa now actor id rejeter commentaire s).0 ≡ ok d
    → d.fk_campagne ≡ some campagne
    → any (membre_is_of campagne actor.user_id) s.membres ≡ true
    → is_ok (soumettre_visa now' auteur id (apporter_visa now actor id rejeter commentaire s).1).0
      ≡ false
refused-soumettre_visa now now' id campagne actor auteur commentaire s {d = d'} h camp member =
    let (d, mien, found, at, there, runs) =
      apporter_visa-apposer now actor id rejeter commentaire s h in
    let same : d.id ≡ id = ground (arith, find_one_sound (document_has_id id) s.documents found) in
    let h' : (rejeter_visa now actor d mien commentaire s).0 ≡ ok d' = rw runs at h in
    let there' : find_one (mon_visa d.id actor.user_id) s.visas ≡ some mien = rw same there in
    let found' : find_one (document_has_id d.id) s.documents ≡ some d = rw same found in
    let document = rejeter_visa-document now actor commentaire s d mien found' h' in
    let left = rejeter_visa-leaves now actor commentaire s d mien there' in
    rw runs (
      soumettre-bloque now' auteur id campagne actor.user_id
        (rejeter_visa now actor d mien commentaire s).1 (rw same at document.0) camp
        (rw (rejeter_visa-membres now actor commentaire s d mien) member) (rw same at left))
