-- ===== src/Access/Rappel.antt =====
-- delegations/delegations-rappel.service.ts: the mails three days before the end of a delegation.
use budget_backend.Base.{
  ℕ, suc, String, ◌+◌, Option, none, some, Bool, true, false, List, [], ◌∷◌, ◌++◌, map, pure, gets,
  or_throw, ok, ◌>>=◌, ◌>>◌, ◌==◌, ◌&&◌, not, find_one, find_all, any, length, str_eq,
  if◌then◌else◌,
}
use budget_backend.Access.Store.{
  User, Delegation, TypeAction, de_la_delegation, MotifSuppression, pref_toggle_global_off,
  pref_type_non_souscrit, email_dry_run, utilisateur_introuvable, AccessCall, user_has_id,
}
use budget_backend.Access.Calls.{log}
use budget_backend.Access.Extinction.{save_delegation}

-- `motifSuppression`
abbrev pub motif_suppression : String → User → Option MotifSuppression
motif_suppression evenement u =
    if not u.notifications_email_actives
    then some pref_toggle_global_off
    else elim u.notifications_email_types [
      | none ↦ none
      | some types ↦
          if any (λ t. str_eq t evenement) types then none else some pref_type_non_souscrit
    ]

-- `motifFinal`
abbrev pub motif_final : Bool → Option MotifSuppression → Option MotifSuppression
motif_final dry_run (some m) = some m
motif_final dry_run none = if dry_run then some email_dry_run else none

abbrev pub publies_apres : Option MotifSuppression → ℕ → List ℕ → List ℕ
publies_apres none id ids = ids ++ (id ∷ [])
publies_apres (some m) id ids = ids

abbrev pub is_supprime : Option MotifSuppression → Bool
is_supprime none = false
is_supprime (some m) = true

-- `envoyerEmail`; it returns `supprime`
abbrev pub envoyer_email : Bool → String → User → Delegation → AccessCall Bool
envoyer_email dry_run evenement u d db =
    let motif = motif_final dry_run (motif_suppression evenement u) in
    (
      ok (is_supprime motif),
      record db {
        email_log =
            db.email_log
            ++ (record {
              id = db.prochain_id;
              evenement = evenement;
              fk_destinataire = u.id;
              destinataire_email = u.email;
              delegation = d.id;
              suppression = motif;
            }
                ∷ []);
        publies = publies_apres motif db.prochain_id db.publies;
        prochain_id = suc db.prochain_id;
      },
    )

abbrev pub is_non_notifiee : Delegation → Bool
is_non_notifiee d = d.actif && (elim d.derniere_notification_j3 [ none ↦ true | some t ↦ false ])

-- `date_fin = CURRENT_DATE + 3 days AND actif AND derniere_notification_j3 IS NULL`
abbrev pub is_a_rappeler : ℕ → Delegation → Bool
is_a_rappeler today d = (d.date_fin == today + 3) && is_non_notifiee d

abbrev pub is_non_notifiee_of : ℕ → Delegation → Bool
is_non_notifiee_of id d = (d.id == id) && is_non_notifiee d

abbrev pub rappelee : ℕ → Delegation → Delegation
rappelee now d = record d {
  derniere_notification_j3 = some now;
  date_modification = some now;
  utilisateur_modification = some "system (cron-j3)";
}

pub record RappelResult : Type 0 where
  pub notifiees : ℕ
  pub emails_publies : ℕ
  pub emails_supprimes : ℕ

abbrev pub un_si : Bool → ℕ
un_si true = 1
un_si false = 0

abbrev pub comptes_rappel : Bool → Bool → RappelResult → RappelResult
comptes_rappel r1 r2 r = record r {
  emails_publies = un_si (not r1) + un_si (not r2) + r.emails_publies;
  emails_supprimes = un_si r1 + un_si r2 + r.emails_supprimes;
}

abbrev pub rien : RappelResult
rien = record { notifiees = 0; emails_publies = 0; emails_supprimes = 0 }

-- The body of the loop, for a delegation that is found again, or is not
abbrev pub rappeler : Bool → ℕ → Option Delegation → AccessCall RappelResult
rappeler dry_run now none = pure rien
rappeler dry_run now (some d) = do
  found ← gets (λ db. find_one (user_has_id d.fk_delegant) db.users)
  delegant ← or_throw found (utilisateur_introuvable d.fk_delegant)
  found' ← gets (λ db. find_one (user_has_id d.fk_delegataire) db.users)
  delegataire ← or_throw found' (utilisateur_introuvable d.fk_delegataire)
  r1 ← envoyer_email dry_run "DELEGATION_RAPPEL_J3_DELEGANT" delegant d
  r2 ← envoyer_email dry_run "DELEGATION_RAPPEL_J3_DELEGATAIRE" delegataire d
  save_delegation d.id (rappelee now)
  log "system (cron)" TypeAction.delegation_rappel_j3 (de_la_delegation (rappelee now d) 0 false)
  pure (comptes_rappel r1 r2 rien)

abbrev pub plus : RappelResult → RappelResult → RappelResult
plus a b = record a {
  emails_publies = a.emails_publies + b.emails_publies;
  emails_supprimes = a.emails_supprimes + b.emails_supprimes;
}

abbrev pub rappeler_toutes : Bool → ℕ → List ℕ → AccessCall RappelResult
rappeler_toutes dry_run now [] = pure rien
rappeler_toutes dry_run now (id ∷ ids) = do
  d ← gets (λ db. find_one (is_non_notifiee_of id) db.delegations)
  one ← rappeler dry_run now d
  rest ← rappeler_toutes dry_run now ids
  pure (plus one rest)

abbrev pub avec_nombre : ℕ → RappelResult → RappelResult
avec_nombre n r = record r { notifiees = n }

unfoldable pub notifier_j3 : ℕ → Bool → ℕ → AccessCall RappelResult
notifier_j3 today dry_run now db =
    let ids = map (λ d. d.id) (find_all (is_a_rappeler today) db.delegations) in
    (do r ← rappeler_toutes dry_run now ids; pure (avec_nombre (length ids) r)) db
