-- ===== src/Lib.antt =====
-- The budget cycle of the budget backend: the services that move a budget version from its creation
-- to its publication, the approval of official documents, the rights of users with their roles,
-- perimeters and delegations, and the service that keeps the history of the reference tables.
--
-- Parts and files (paths from the repository's root):
--   Base            Boolean tests, tables as lists of rows with the calls of a repository, the monad
--                   of a service call, decimal digits of a number.
--   Entities        the rows of dim_version, dim_scenario, dim_centre_responsabilite,
--                   fait_budget_cr_statut, dim_version_cr_attendu, fait_budget, audit_log
--                   (src/referentiels/*/entities, src/budget/cr-workflow/entities, src/audit), the
--                   database `Db`, what a call throws, and the calls that all services share.
--   Interfaces      what the workflows ask of src/auth/permissions.service.ts and
--                   src/budget/services/perimetre.service.ts, and the query for active SAISISSEUR
--                   users: records, which every theorem quantifies over for each request.
--   VersionWorkflow src/referentiels/version/version-workflow.service.ts: soumettre, valider,
--                   rejeter, publier are `soumettre_version` and so on.
--   VersionService  src/referentiels/version/version.service.ts: create, update, softDelete,
--                   findOne, findByCode.
--   CrWorkflow      src/budget/cr-workflow/cr-workflow.service.ts. Transitions: soumettre, valider,
--                   rejeter, rouvrir. Comite: soumettreComite, approuverComite, demanderRevision.
--                   Snapshot: initialiserSnapshot, retirerCrSnapshot, reintegrerCrSnapshot.
--                   Helpers: the automatic pre-validation and the input lock.
--   Cycle           all these calls together: a request, a step, a history of requests, the diagram
--                   of states, and the invariants over any history. Publication: requests among
--                   launches of reforecasts.
--   Scd2            src/common/services/scd2.service.ts and src/common/entities/scd2.entity.ts.
--   Documents       src/documents-officiels. Store: the tables. Campagne: campagne.service.ts.
--                   Workflow: document-workflow.service.ts, its operations that write and
--                   verifierIntegrite; the hashes of document-hash.service.ts and bcrypt's compare
--                   are the fields of the record `Hachage`. Rejet: the state a refusal leaves.
--                   Requests, Effects, Approval: histories of calls. Signature: signerDocument
--                   against verifierIntegrite.
--   Access          who may do what. Store: the tables of src/users/entities, src/roles/entities and
--                   src/delegations/entities. Permissions: src/auth/permissions.service.ts.
--                   Structures and Perimetre: src/budget/services/perimetre.service.ts; Visite,
--                   Descendants, Centres and Couverture are about them. Delegations and Extinction:
--                   src/delegations/delegations.service.ts; Rappel: the mails three days before the
--                   end, src/delegations/delegations-rappel.service.ts. Affectations:
--                   src/users/services/user-perimetre.service.ts. RolePermissions:
--                   src/roles/role-permission.service.ts. Requests: the writes of all these, one
--                   after another. Services: Permissions as the service the version workflow asks.
--   Budget          the budget lines. Referentiels: the reference tables that input reads. Montants and
--                   Lignes: src/faits/budget/fait-budget.service.ts and its controller. Rapport,
--                   Cellule and Grille: src/budget/services/budget-saisie.service.ts. Comptage,
--                   Acceptation, Verrou, Coherence, UneLigne, Saisies, SaisieUnitaire and Reprise are
--                   about them. Doubles: the arithmetic of JavaScript numbers.
--   Reforecast      src/reforecast/reforecast.service.ts. Versions: the tables, the request and the
--                   marks; Lancement: the lines and the launch. Marques, Unicite and Obsolescence
--                   are about them.
--   Auth            src/auth. Store: the rows and the shared calls. Tokens: the tokens and
--                   src/auth/guards/password-expired.guard.ts. Sessions: src/auth/auth.service.ts.
--                   Reset: src/auth/password-reset.service.ts. Politique:
--                   src/auth/password-policy.ts, and Temporaire its temporary passwords. RateLimiter:
--                   src/auth/login-rate-limiter.service.ts, with Fenetre, a window over instants.
--                   Requests: all calls but the limiter's, one after another. SHA-256 and bcrypt are
--                   the record `Crypto`, over which every theorem quantifies.
--   Tests           concrete databases, runs, and the theorems at them.
--
-- How code corresponds to definitions. A table is the list of its rows. A call takes the database
-- and returns a result or an exception together with the database it leaves. `findOne` is
-- `find_one`, `save` of a stored row replaces the row under its unique key, `update` and `delete`
-- with a `where` clause are `update_where` and `delete_where`. In a transaction a throw restores
-- the tables; events that were emitted stay emitted. The audit lines of a call are the last thing
-- that could fail in it, so it makes no difference which connection inserts them, except in the
-- launch of a reforecast, which inserts them on a connection of their own: there they stay after a
-- rollback. Identifiers (bigint) and instants are natural numbers, `now` is the instant of the
-- call, a date is the number of its day. One counter gives the identifiers of all tables. A
-- response carries the saved row, so that is what a call returns. The LEFT JOIN of compterSnapshot
-- is a lookup, since the pair (fk_version, fk_cr) is a unique index. The entity columns of an SCD2
-- table are a type parameter, of which only `estActif` is named.
--
-- Concurrency: a request runs to its end before the next one starts; a history is a sequence of
-- requests. In Cycle a write of budget lines may leave any lines whatever; Budget and Reforecast
-- model the writes.
--
-- Fuel: `decimal`, which writes a number in digits, starts with one more than the number, and each
-- step divides the number by ten. The loop `boucle` of descendantsStructure starts with one more than
-- the number of structures: a turn that goes on has added a structure to the set. `ecart` halves a
-- double of at most 2 098 binary digits until it has 53, so 2 100 steps are enough.
--
-- Not modelled: the French prose of audit comments and exceptions, the response objects, the
-- validation of request bodies, the reads getStatut, getStatutsCrs, getLignesCr, findAll and
-- findHistory, controllers and guards but those named above; of the documents the payload of an
-- audit line, the address and browser of a request, the attached file and the details per type; of
-- the rights the lists for the screens and the administration of users; of the authentication
-- address and browser and the signature of a token; of the budget lines their reads and the
-- creation from business codes; of the reforecast its lists and its comparison; and the other
-- services of src/ (imports, actuals, reports). Amounts are whole numbers of ten-thousandths: a
-- JavaScript number keeps such an amount up to fifteen digits, and the larger ones that it rounds are
-- not modelled; the monthly amount is computed in binary floating point as the code does, and the
-- average that the database computes in floating point is a parameter. Of the errors of the database,
-- the foreign key of an official document to its version, identifiers beyond bigint and the columns
-- of a single line beyond numeric(20,4) are left out.
pub mod Base
pub mod Entities
pub mod Interfaces
pub mod VersionWorkflow
pub mod VersionService
pub mod CrWorkflow
pub mod Cycle
pub mod Scd2
pub mod Documents
pub mod Access
pub mod Budget
pub mod Reforecast
pub mod Auth
mod Tests
