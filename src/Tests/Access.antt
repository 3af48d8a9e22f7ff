-- ===== src/Tests/Access.antt =====
-- A hierarchy of three structures, two users and a delegation, and the theorems on rights at them.
use budget_backend.Base.{
  ℕ, ◌≡◌, ◌≢◌, ◌↔◌, refl, Option, none, some, true, false, List, [], ◌∷◌, ◌++◌, has, any, every, ok,
  is_ok, ◌&&◌, find_one, if◌then◌else◌,
}
use budget_backend.Access.Store.{
  UserPerimetre, Structure, Centre, Store, cible_structure, OriginePerimetre, saisie,
  is_delegation_active,
}
use budget_backend.Entities.Version.{StatutVersion}
use budget_backend.Entities.Centre.{StatutCr}
use budget_backend.VersionWorkflow.{publier, publier_version}
use budget_backend.VersionWorkflow.Transitions.{executer}
use budget_backend.Tests.Fixtures.{db_in, version_in, user_7, frozen}
use budget_backend.Access.Services.{
  permissions_service, via_attendue, ligne_attendue, executer-via_attendue,
}
use budget_backend.Access.Store.{PermissionDelegable}
use budget_backend.Access.Rappel.{notifier_j3, rien}
use budget_backend.Access.RappelUnique.{notifier_j3-rien}
use budget_backend.Access.Structures.{
  boucle, depart, descendants_structure, is_structure_active, crs_sous_structure,
}
use budget_backend.Access.Descendants.{boucle-ends, Descend, descendants_structure-Descend}
use budget_backend.Access.Permissions.{
  get_delegation_context_pour, get_permissions_effectives_avec_contexte, get_effective_permissions,
  has_permission, au_moins_une,
}
use budget_backend.Access.Contexte.{get_delegation_context_pour-find_one, prete, id_of}
use budget_backend.Access.Perimetre.{get_perimetre_effectif}
use budget_backend.Access.Couverture.{Autorise, get_perimetre_effectif-Autorise}
use budget_backend.Access.Calls.{Caller}
use budget_backend.Access.Delegations.{
  CreerDelegationDto, creer_delegation, nouvelle_delegation, sources, refus_creation,
}
use budget_backend.Access.Extinction.{revoquer, expirer_automatiquement}
use budget_backend.Access.Requests.{Requete, Demande, run_acces}
use budget_backend.Access.Miroirs.{are_adosses}
use budget_backend.Access.Adossement.{run_acces-are_adosses}
use budget_backend.Access.Fins.{
  sans_miroir, is_en_cours, is_miroir_en_cours, revoquer-sans_miroir,
  expirer_automatiquement-is_en_cours,
}
use budget_backend.Access.Pret.{is_prise}
use budget_backend.Access.Chaine.{creer_delegation-is_prise}

abbrev structure_row : ℕ → Option ℕ → Structure
structure_row id parent = record {
  id = id;
  fk_structure_parent = parent;
  version_courante = true;
  est_actif = true;
}

abbrev arborescence : List Structure
arborescence = structure_row 3 (some 2) ∷ structure_row 2 (some 1) ∷ structure_row 1 none ∷ []

abbrev centre_row : ℕ → ℕ → Centre
centre_row id s = record { id = id; fk_structure = s; version_courante = true; est_actif = true }

abbrev perimetre_1 : UserPerimetre
perimetre_1 = record {
  id = 50;
  fk_user = 1;
  cible_type = cible_structure;
  cible_id = some 2;
  cible_cr_ids = none;
  origine = OriginePerimetre.principal;
  delegation_id = none;
  date_debut = 0;
  date_fin = none;
  actif = true;
  motif = none;
  utilisateur_creation = "system";
  date_modification = none;
  utilisateur_modification = none;
}

abbrev base : Store
base = record {
  users =
      record {
        id = 1;
        email = "dg@bank";
        est_actif = true;
        notifications_email_actives = true;
        notifications_email_types = none;
      }
      ∷ record {
        id = 2;
        email = "ag@bank";
        est_actif = true;
        notifications_email_actives = true;
        notifications_email_types = none;
      }
      ∷ [];
  roles = record { id = 5; code_role = "SAISISSEUR"; est_actif = true } ∷ [];
  permissions = record { id = 7; code_permission = "BUDGET.SAISIR"; module_code = "BUDGET" } ∷ [];
  role_permissions = record { id = 8; fk_role = 5; fk_permission = 7 } ∷ [];
  user_roles =
      record {
        id = 9;
        fk_user = 1;
        fk_role = 5;
        perimetre_type = none;
        perimetre_id = none;
        date_debut_validite = none;
        date_fin_validite = none;
        est_actif = true;
      }
      ∷ [];
  user_perimetres = perimetre_1 ∷ [];
  delegations = [];
  structures = arborescence;
  centres = centre_row 20 3 ∷ centre_row 21 1 ∷ [];
  audit_log = [];
  events = [];
  email_log = [];
  publies = [];
  prochain_id = 100;
}

abbrev dto : CreerDelegationDto
dto = record {
  fk_delegataire = 2;
  perimetre_user_perimetre_ids = 50 ∷ [];
  permissions = saisie ∷ [];
  motif = "conges";
  date_debut = 10;
  date_fin = 20;
}

abbrev dg : Caller
dg = record { user_id = 1; email = "dg@bank" }

-- The state after user 1 has delegated to user 2.
abbrev deleguee : Store
deleguee = (creer_delegation 9 dto dg base).1

abbrev demandes : List Demande
demandes =
    record { today = 9; now = 900; requete = Requete.deleguer dto dg }
    ∷ record { today = 21; now = 2100; requete = Requete.expirer }
    ∷ []

boucle-ends_example : (boucle 4 arborescence (depart 1)).1 ≡ []
boucle-ends_example = boucle-ends arborescence 1

descendants_structure-Descend_example :
    (has 3 (descendants_structure 1 arborescence) ≡ true)
    ↔ ((any (is_structure_active 1) arborescence ≡ true) × Descend arborescence 1 3)
descendants_structure-Descend_example = descendants_structure-Descend 1 3 arborescence

get_perimetre_effectif-Autorise_example :
    (has 20 (get_perimetre_effectif 1 15 base) ≡ true) ↔ Autorise 1 15 20 base
get_perimetre_effectif-Autorise_example = get_perimetre_effectif-Autorise 1 15 20 base

perimetre_de_base : get_perimetre_effectif 1 15 base ≡ 20 ∷ []
unfolding get_perimetre_effectif descendants_structure crs_sous_structure
perimetre_de_base = refl

contexte_delegue : get_delegation_context_pour 15 2 "BUDGET.SAISIR" 15 deleguee ≡ some 100
unfolding get_delegation_context_pour get_permissions_effectives_avec_contexte
    get_effective_permissions creer_delegation refus_creation
contexte_delegue = refl

get_delegation_context_pour-find_one_example :
    get_delegation_context_pour 15 2 "BUDGET.SAISIR" 15 deleguee ≡ (
      if has_permission 15 2 ("BUDGET.SAISIR" ∷ []) au_moins_une deleguee
      then none
      else id_of (
          find_one
            (λ d. is_delegation_active 2 15 d && prete "BUDGET.SAISIR" d)
            deleguee.delegations))
get_delegation_context_pour-find_one_example =
    get_delegation_context_pour-find_one 15 2 "BUDGET.SAISIR" 15 deleguee

run_acces-are_adosses_example : are_adosses (run_acces demandes base) ≡ true
run_acces-are_adosses_example = run_acces-are_adosses demandes base refl

revocation :
    (revoquer 1200 100 "retour" dg false deleguee).0
    ≡ ok (record (nouvelle_delegation 100 dto dg) {
      actif = false;
      revoquee_le = some 1200;
      fk_revoque_par = some 1;
      motif_revocation = some "retour";
      date_modification = some 1200;
      utilisateur_modification = some "dg@bank";
    })
unfolding revoquer creer_delegation refus_creation get_effective_permissions
revocation = refl

revoquer-sans_miroir_example :
    (sans_miroir 100 (revoquer 1200 100 "retour" dg false deleguee).1 ≡ true)
    × (get_delegation_context_pour 15 2 "BUDGET.SAISIR" 15
          (revoquer 1200 100 "retour" dg false deleguee).1
        ≢ some 100)
revoquer-sans_miroir_example =
    revoquer-sans_miroir 1200 100 "retour" dg false deleguee 15 2 "BUDGET.SAISIR" 15 revocation

deleguee-adosses : are_adosses deleguee ≡ true
unfolding creer_delegation refus_creation get_effective_permissions
deleguee-adosses = refl

expirer_automatiquement-is_en_cours_example :
    (every (is_en_cours 21) (expirer_automatiquement 21 2100 deleguee).1.delegations ≡ true)
    × (every (is_miroir_en_cours 21) (expirer_automatiquement 21 2100 deleguee).1.user_perimetres
        ≡ true)
expirer_automatiquement-is_en_cours_example =
    expirer_automatiquement-is_en_cours 21 2100 deleguee deleguee-adosses

-- A second delegation of the same perimeter, for other dates
abbrev dto_suivant : CreerDelegationDto
dto_suivant = record dto { date_debut = 15; date_fin = 30 }

deja_prise :
    any
      (is_prise (nouvelle_delegation deleguee.prochain_id dto_suivant dg) deleguee.user_perimetres)
      (sources dto_suivant deleguee)
    ≡ true
unfolding creer_delegation refus_creation get_effective_permissions
deja_prise = refl

creer_delegation-is_prise_example :
    (is_ok (creer_delegation 9 dto_suivant dg deleguee).0 ≡ false)
    × ((creer_delegation 9 dto_suivant dg deleguee).1.user_perimetres ≡ deleguee.user_perimetres)
    × ((creer_delegation 9 dto_suivant dg deleguee).1.delegations ≡ deleguee.delegations)
creer_delegation-is_prise_example = creer_delegation-is_prise 9 dto_suivant dg deleguee deja_prise

-- User 7 may publish by a delegation.
abbrev droits : Store
droits = record base {
  delegations =
      nouvelle_delegation 100
        (record dto { fk_delegataire = 7; permissions = PermissionDelegable.publication ∷ [] }) dg
      ∷ [];
}

via_de_sept : via_attendue 15 droits 7 "BUDGET.PUBLIER" ≡ some 100
unfolding get_effective_permissions
via_de_sept = refl

executer-via_attendue_example :
    (executer
      (permissions_service 15 droits)
      100
      1
      none
      ""
      user_7
      publier
      (db_in StatutVersion.valide StatutCr.valide)).1.audit
    ≡ (db_in StatutVersion.valide StatutCr.valide).audit
      ++ (ligne_attendue 15 droits none "" user_7 publier (version_in 1 StatutVersion.valide) ∷ [])
executer-via_attendue_example =
    executer-via_attendue 15 100 1 droits none "" user_7 publier
      (db_in StatutVersion.valide StatutCr.valide) (version_in 1 StatutVersion.valide) frozen refl
      (unfold publier_version in refl)

rappel_ok :
    (notifier_j3 17 false 1_700 deleguee).0
    ≡ ok (record { notifiees = 1; emails_publies = 2; emails_supprimes = 0 })
unfolding notifier_j3 creer_delegation refus_creation get_effective_permissions
rappel_ok = refl

notifier_j3-rien_example :
    notifier_j3 17 true 1_701 (notifier_j3 17 false 1_700 deleguee).1
    ≡ (ok rien, (notifier_j3 17 false 1_700 deleguee).1)
notifier_j3-rien_example = notifier_j3-rien 17 1_700 1_701 false true deleguee rappel_ok
