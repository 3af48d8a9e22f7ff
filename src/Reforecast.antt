-- ===== src/Reforecast.antt =====
-- reforecast/reforecast.service.ts: a reforecast is a new version with lines made from the actuals of
-- a quarter and from the lines of its source; it makes the older reforecast of its key obsolete.
pub mod Versions
pub mod Lancement
pub mod Marques
pub mod Unicite
pub mod Obsolescence
