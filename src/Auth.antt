-- ===== src/Auth.antt =====
-- auth: who may call the services, and how often.
pub mod Fenetre
pub mod RateLimiter
pub mod Store
pub mod Politique
pub mod Temporaire
pub mod Melange
pub mod Tokens
pub mod Sessions
pub mod Reset
pub mod Requests
pub mod Rotation
pub mod Jetons
pub mod Garde
pub mod Epuises
pub mod Separation
pub mod Lien
