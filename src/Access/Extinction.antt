-- ===== src/Access/Extinction.antt =====
-- delegations/delegations.service.ts: how a delegation ends, by `revoquer` and by the daily
-- `expirerAutomatiquement`, and the reads `calculerStatut` and `getPermissionsRecues`.
use budget_backend.Base.{
  ℕ, suc, String, none, some, Bool, false, List, [], ◌∷◌, ◌++◌, pure, modify, require, or_throw,
  ◌>>=◌, ◌>>◌, ◌==◌, ◌&&◌, ◌||◌, not, ltb, find_one, find_all, update_where, if◌then◌else◌,
}
use budget_backend.Access.Store.{
  UserPerimetre, PermissionDelegable, Delegation, TypeAction, de_la_delegation, delegation_revoked,
  delegation_expired, delegation_introuvable, delegation_inactive, reserve_delegant, Store,
  AccessCall, delegation_has_id, is_miroir_of, is_delegation_active,
}
use budget_backend.Access.Calls.{Caller, in_transaction, log, emit}

-- The columns that ending a delegation sets on its rows in user_perimetres
abbrev pub desactiver : ℕ → String → UserPerimetre → UserPerimetre
desactiver now auteur p = record p {
  actif = false;
  date_modification = some now;
  utilisateur_modification = some auteur;
}

abbrev pub desactiver_miroirs : ℕ → String → ℕ → AccessCall (Unit {0})
desactiver_miroirs now auteur id = modify (λ db. record db {
  user_perimetres =
      update_where (λ p. is_miroir_of id p && p.actif) (desactiver now auteur) db.user_perimetres;
})

abbrev pub save_delegation : ℕ → (Delegation → Delegation) → AccessCall (Unit {0})
save_delegation id f =
    modify (λ db. record db { delegations = update_where (delegation_has_id id) f db.delegations })

abbrev pub revoquee : ℕ → Caller → String → Delegation → Delegation
revoquee now user motif d = record d {
  actif = false;
  revoquee_le = some now;
  fk_revoque_par = some user.user_id;
  motif_revocation = some motif;
  date_modification = some now;
  utilisateur_modification = some user.email;
}

unfoldable pub revoquer : ℕ → ℕ → String → Caller → Bool → AccessCall Delegation
revoquer now id motif user is_admin db =
    (do
      d ← or_throw (find_one (delegation_has_id id) db.delegations) (delegation_introuvable id)
      require d.actif (delegation_inactive id)
      require ((d.fk_delegant == user.user_id) || is_admin) (reserve_delegant id)
      in_transaction (do
        save_delegation id (revoquee now user motif)
        desactiver_miroirs now user.email id
        log user.email TypeAction.revoquer_delegation
            (de_la_delegation (revoquee now user motif d) 0 is_admin))
      emit (delegation_revoked (revoquee now user motif d))
      pure (revoquee now user motif d))
      db

abbrev pub auteur_cron : String
auteur_cron = "system (cron expiration)"

abbrev pub expiree : ℕ → Delegation → Delegation
expiree now d = record d {
  actif = false;
  date_modification = some now;
  utilisateur_modification = some auteur_cron;
}

abbrev pub is_a_expirer : ℕ → Delegation → Bool
is_a_expirer today d = d.actif && ltb d.date_fin today

-- The body of the loop of `expirerAutomatiquement`
abbrev pub expirer_une : ℕ → Delegation → AccessCall (Unit {0})
expirer_une now d = do
  in_transaction (do
    save_delegation d.id (expiree now)
    desactiver_miroirs now auteur_cron d.id
    log "system" TypeAction.expirer_delegation (de_la_delegation (expiree now d) 0 false))
  emit (delegation_expired (expiree now d))

abbrev pub expirer_toutes : ℕ → List Delegation → AccessCall ℕ
expirer_toutes now [] = pure 0
expirer_toutes now (d ∷ ds) = do expirer_une now d; nb ← expirer_toutes now ds; pure (suc nb)

unfoldable pub expirer_automatiquement : ℕ → ℕ → AccessCall ℕ
expirer_automatiquement today now db =
    expirer_toutes now (find_all (is_a_expirer today) db.delegations) db

pub data StatutDelegation : Type 0 where
  statut_active statut_revoquee statut_expiree : StatutDelegation

abbrev pub permissions_de : Delegation → List PermissionDelegable → List (PermissionDelegable × ℕ)
permissions_de d [] = []
permissions_de d (p ∷ ps) = (p, d.id) ∷ permissions_de d ps

abbrev pub permissions_de_toutes : List Delegation → List (PermissionDelegable × ℕ)
permissions_de_toutes [] = []
permissions_de_toutes (d ∷ ds) = permissions_de d d.permissions ++ permissions_de_toutes ds

unfoldable pub get_permissions_recues : ℕ → ℕ → Store → List (PermissionDelegable × ℕ)
get_permissions_recues user date_ref db =
    permissions_de_toutes (find_all (is_delegation_active user date_ref) db.delegations)

-- `calculerStatut`
abbrev pub calculer_statut : ℕ → Delegation → StatutDelegation
calculer_statut today d = elim d.revoquee_le [
  | some date ↦ statut_revoquee
  | none ↦ if not d.actif || ltb d.date_fin today then statut_expiree else statut_active
]
