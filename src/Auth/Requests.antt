-- ===== src/Auth/Requests.antt =====
-- The calls of the services of authentication, as requests that follow one another.
use budget_backend.Base.{ℕ, String, Option, List, [], ◌∷◌}
use budget_backend.Auth.Store.{Store}
use budget_backend.Auth.Sessions.{login, changer_mdp, refresh, logout}
use budget_backend.Auth.Tokens.{Crypto, Config}
use budget_backend.Auth.Reset.{demander_reset, executer_reset, nettoyer_tokens_expires}

-- Each with what it draws, a UUID or a salt
pub data Requete : Type 0 where
  se_connecter : (uuid email mot_de_passe : String) → Requete
  changer : (uuid sel : String) (user : ℕ) (ancien nouveau : String) → Requete
  rafraichir_session : (uuid clear : String) → Requete
  se_deconnecter : (user : ℕ) (email : String) → Option String → Requete
  demander : (uuid email : String) → Requete
  reinitialiser : (sel clair nouveau : String) → Requete
  nettoyer : Requete

pub record Demande : Type 0 where
  pub now : ℕ
  pub requete : Requete

module _ (crypto : Crypto) (config : Config) (cle_email : String → String) where
  abbrev pub executer : ℕ → Requete → Store → Store
  executer now (se_connecter uuid email mot_de_passe) db =
      (login crypto config now uuid email mot_de_passe db).1
  executer now (changer uuid sel user ancien nouveau) db =
      (changer_mdp crypto config now uuid sel user ancien nouveau db).1
  executer now (rafraichir_session uuid clear) db = (refresh crypto config now uuid clear db).1
  executer now (se_deconnecter user email clear) db =
      (logout crypto config now user email clear db).1
  executer now (demander uuid email) db =
      (demander_reset crypto config cle_email now uuid email db).1
  executer now (reinitialiser sel clair nouveau) db =
      (executer_reset crypto config now sel clair nouveau db).1
  executer now nettoyer db = (nettoyer_tokens_expires now db).1

  abbrev pub run_auth : List Demande → Store → Store
  run_auth [] db = db
  run_auth (d ∷ ds) db = run_auth ds (executer d.now d.requete db)
