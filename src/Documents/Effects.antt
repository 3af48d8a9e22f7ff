-- ===== src/Documents/Effects.antt =====
-- What the calls write to the tables of documents and visas.
use budget_backend.Base.{
  ℕ, String, Option, none, some, Bool, true, false, ◌≡◌, refl, ◌⊎◌, inl, inr, List, [], ◌∷◌, ◌++◌,
  arith, find_one, find_all, update_where, delete_where, is_ok, Option-cases, Result-cases,
  find_one_sound, if◌then◌else◌, ◌∙◌, ap, sym,
}
use mathlib.Core.Path.{subst}
use budget_backend.Documents.Store.{
  Store, DocumentOfficiel, DocumentVisa, StatutDocument, brouillon, soumis_visa, rejete, StatutVisa,
  ActorContext, document_has_id, visa_is_of,
}
use budget_backend.Documents.Campagne.{
  CreerCampagneDto, AjouterComiteMembreDto, creer_campagne, ajouter_membre_comite, lancer_campagne,
}
use budget_backend.Documents.Workflow.{
  Hachage, CreerDocumentDto, EditerDocumentDto, ActionVisa, viser, rejeter, creer_document,
  editer_document, apporter_visa, signer_document, rejeter_visa, viser_visa, visa_of,
  obligatoires_vises, attente_of, mon_visa, apposer,
}
use budget_backend.Documents.Rejet.{apporter_visa-apposer}

-- The visas change for one document only.
abbrev pub Elsewhere : ℕ → List DocumentVisa → List DocumentVisa → Type 0
Elsewhere id vs vs' =
    (p : DocumentVisa → Bool)
    → ((v : DocumentVisa) → visa_of id v ≡ true → p v ≡ false)
    → find_all p vs' ≡ find_all p vs

abbrev pub is_approuve : StatutDocument → Bool
is_approuve StatutDocument.vise = true
is_approuve StatutDocument.signe = true
is_approuve _ = false

-- The writes of the services: nothing, a new draft, or one document with its visas. A document
-- that comes out approved was so with the same visas, or has all obligatory visas now.
pub data DocumentEffect (s s' : Store) : Type 0 where
  quiet : s'.documents ≡ s.documents → s'.visas ≡ s.visas → DocumentEffect s s'
  drafted :
      (d : DocumentOfficiel)
      → d.statut ≡ brouillon
      → s'.documents ≡ s.documents ++ (d ∷ [])
      → s'.visas ≡ s.visas
      → DocumentEffect s s'
  saved :
      (id : ℕ) (d d' : DocumentOfficiel)
      → find_one (document_has_id id) s.documents ≡ some d
      → d'.id ≡ id
      → s'.documents ≡ update_where (document_has_id id) (λ _. d') s.documents
      → Elsewhere id s.visas s'.visas
      → ((is_approuve d.statut ≡ true) × (s'.visas ≡ s.visas))
        ⊎ (is_approuve d'.statut ≡ true → obligatoires_vises id s'.visas ≡ true)
      → DocumentEffect s s'

find_all-update :
    (p q : DocumentVisa → Bool) (x : DocumentVisa) (vs : List DocumentVisa)
    → p x ≡ false
    → ((v : DocumentVisa) → q v ≡ true → p v ≡ false)
    → find_all p (update_where q (λ _. x) vs) ≡ find_all p vs
find_all-update p q x [] h off = refl
find_all-update p q x (v ∷ vs) h off = ground (arith, off v, find_all-update p q x vs h off)

find_all-delete :
    (p q : DocumentVisa → Bool) (vs : List DocumentVisa)
    → ((v : DocumentVisa) → q v ≡ true → p v ≡ false)
    → find_all p (delete_where q vs) ≡ find_all p vs
find_all-delete p q [] off = refl
find_all-delete p q (v ∷ vs) off = ground (arith, off v, find_all-delete p q vs off)

module _ (now : ℕ) (actor : ActorContext) (s : Store) where
  pub creer_campagne-effect :
      (dto : CreerCampagneDto) → DocumentEffect s (creer_campagne now actor dto s).1
  unfolding creer_campagne
  creer_campagne-effect dto = quiet (ground arith) (ground arith)

  pub ajouter_membre_comite-effect :
      (id : ℕ) (dto : AjouterComiteMembreDto)
      → DocumentEffect s (ajouter_membre_comite now actor id dto s).1
  unfolding ajouter_membre_comite
  ajouter_membre_comite-effect id dto = quiet (ground arith) (ground arith)

  pub lancer_campagne-effect : (id : ℕ) → DocumentEffect s (lancer_campagne now actor id s).1
  unfolding lancer_campagne
  lancer_campagne-effect id = quiet (ground arith) (ground arith)

  pub signer_document-effect :
      (h : Hachage) (id : ℕ) (mdp : String)
      → DocumentEffect s (signer_document now actor h id mdp s).1
  unfolding signer_document
  signer_document-effect h id mdp =
      elim (Option-cases (find_one (document_has_id id) s.documents)) [
        | inl missing ↦ quiet (ground arith) (ground arith)
        | inr (d, found) ↦
            let same = find_one_sound (document_has_id id) s.documents found in
            elim (Result-cases (signer_document now actor h id mdp s).0) [
              | inl (d', done) ↦
                  saved id d d' found (ground arith) (ground arith) (λ p off. ground arith)
                    (inl (ground arith, ground arith))
              | inr (x, failed) ↦ quiet (ground arith) (ground arith)
            ]
      ]

  pub creer_document-effect :
      (dto : CreerDocumentDto) → DocumentEffect s (creer_document now actor dto s).1
  unfolding creer_document
  creer_document-effect dto = elim (Result-cases (creer_document now actor dto s).0) [
    | inl (d, done) ↦ drafted d (ground arith) (ground arith) (ground arith)
    | inr (x, failed) ↦ quiet (ground arith) (ground arith)
  ]

  pub editer_document-effect :
      (id : ℕ) (dto : EditerDocumentDto) → DocumentEffect s (editer_document now actor id dto s).1
  unfolding editer_document
  editer_document-effect id dto = elim (Option-cases (find_one (document_has_id id) s.documents)) [
    | inl missing ↦ quiet (ground arith) (ground arith)
    | inr (d, found) ↦
        let same = find_one_sound (document_has_id id) s.documents found in
        elim (Result-cases (editer_document now actor id dto s).0) [
          | inl (d', done) ↦
              saved id d d' found (ground arith) (ground arith) (λ p off. ground arith)
                (inr (ground arith))
          | inr (x, failed) ↦ quiet (ground arith) (ground arith)
        ]
  ]

  off_key :
      (d : DocumentOfficiel) (mien : DocumentVisa) (p : DocumentVisa → Bool)
      → mien.fk_document ≡ d.id
      → ((v : DocumentVisa) → visa_of d.id v ≡ true → p v ≡ false)
      → (v : DocumentVisa) → visa_is_of mien.fk_document mien.fk_user_viseur v ≡ true
      → p v ≡ false
  off_key d mien p same off v hit = off v (ground arith)

  rejeter_visa-effect :
      (d : DocumentOfficiel) (mien : DocumentVisa) (commentaire : Option String)
      → find_one (document_has_id d.id) s.documents ≡ some d
      → mien.fk_document ≡ d.id
      → DocumentEffect s (rejeter_visa now actor d mien commentaire s).1
  unfolding rejeter_visa
  rejeter_visa-effect d mien commentaire found same =
      let refused : DocumentVisa = record mien {
        statut = rejete;
        date_action = some now;
        commentaire = commentaire;
      } in
      saved d.id d
        (record d {
          statut = brouillon;
          date_soumission_visa = none;
          utilisateur_modification = some actor.user_email;
        })
        found refl refl
        (λ p off.
          find_all-delete p (attente_of d.id) _ (λ v hit. off v (ground arith))
          ∙ find_all-update p _ refused s.visas (off refused (ground arith))
              (off_key d mien p same off))
        (inr (λ h. cc))

  complete_only :
      (b : Bool) (statut : StatutDocument)
      → statut ≡ soumis_visa
      → is_approuve (if b then StatutDocument.vise else statut) ≡ true
      → b ≡ true
  complete_only true statut at h = refl
  complete_only false statut at h = cc (ap is_approuve at)

  viser_visa-effect :
      (d : DocumentOfficiel) (mien : DocumentVisa) (commentaire : Option String)
      → find_one (document_has_id d.id) s.documents ≡ some d
      → d.statut ≡ soumis_visa
      → mien.fk_document ≡ d.id
      → DocumentEffect s (viser_visa now actor d mien commentaire s).1
  unfolding viser_visa
  viser_visa-effect d mien commentaire found at same =
      let given : DocumentVisa = record mien {
        statut = StatutVisa.vise;
        date_action = some now;
        commentaire = commentaire;
      } in
      saved d.id d _ found refl refl
        (λ p off.
          find_all-update p _ given s.visas (off given (ground arith)) (off_key d mien p same off))
        (inr (complete_only _ d.statut at))

  apposer-effect :
      (id : ℕ) (action : ActionVisa) (commentaire : Option String) {d : DocumentOfficiel}
      {mien : DocumentVisa}
      → find_one (document_has_id id) s.documents ≡ some d
      → d.statut ≡ soumis_visa
      → find_one (mon_visa id actor.user_id) s.visas ≡ some mien
      → DocumentEffect s (apposer now actor action d mien commentaire s).1
  apposer-effect id viser commentaire {d = d} {mien = mien} found at there =
      let same : d.id ≡ id =
        ground (arith, find_one_sound (document_has_id id) s.documents found) in
      let mine : mien.fk_document ≡ id =
        ground (arith, find_one_sound (mon_visa id actor.user_id) s.visas there) in
      viser_visa-effect d mien commentaire
        (subst (λ n. find_one (document_has_id n) s.documents ≡ some d) (sym same) found) at
        (rw same mine)
  apposer-effect id rejeter commentaire {d = d} {mien = mien} found at there =
      let same : d.id ≡ id =
        ground (arith, find_one_sound (document_has_id id) s.documents found) in
      let mine : mien.fk_document ≡ id =
        ground (arith, find_one_sound (mon_visa id actor.user_id) s.visas there) in
      rejeter_visa-effect d mien commentaire
        (subst (λ n. find_one (document_has_id n) s.documents ≡ some d) (sym same) found)
        (rw same mine)

  apporter_visa-fails :
      (id : ℕ) (action : ActionVisa) (commentaire : Option String)
      → is_ok (apporter_visa now actor id action commentaire s).0 ≡ false
      → ((apporter_visa now actor id action commentaire s).1.documents ≡ s.documents)
        × ((apporter_visa now actor id action commentaire s).1.visas ≡ s.visas)
  unfolding apporter_visa rejeter_visa viser_visa
  apporter_visa-fails id viser commentaire h = (ground arith, ground arith)
  apporter_visa-fails id rejeter commentaire h = (ground arith, ground arith)

  pub apporter_visa-effect :
      (id : ℕ) (action : ActionVisa) (commentaire : Option String)
      → DocumentEffect s (apporter_visa now actor id action commentaire s).1
  apporter_visa-effect id action commentaire =
      elim (Result-cases (apporter_visa now actor id action commentaire s).0) [
        | inl (d', done) ↦
            let (d, mien, found, at, there, runs) =
              apporter_visa-apposer now actor id action commentaire s done in
            rw runs (apposer-effect id action commentaire found at there)
        | inr (x, failed) ↦
            let kept = apporter_visa-fails id action commentaire (rw failed refl) in
            quiet kept.0 kept.1
      ]
