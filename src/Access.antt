-- ===== src/Access.antt =====
-- users, roles, delegations: who may do what, on which centres.
pub mod Store
pub mod Structures
pub mod Visite
pub mod Permissions
pub mod Contexte
pub mod Perimetre
pub mod Centres
pub mod Couverture
pub mod Calls
pub mod Delegations
pub mod Extinction
pub mod Affectations
pub mod RolePermissions
pub mod Rappel
pub mod RappelUnique
pub mod Requests
pub mod Miroirs
pub mod AdossementRappel
pub mod Adossement
pub mod Fins
pub mod Pret
pub mod Chaine
pub mod Services
pub mod Descendants
