-- ===== src/Astrometry.antt =====
-- python/lsst/sims/utils/AstrometryUtils.py: between mean, apparent and observed places.
pub mod Actions
pub mod Apparent
pub mod Observed
pub mod Points
pub mod Refines
pub mod Chain
pub mod Rest
pub mod Sun
pub mod Motion
pub mod Moved
pub mod Precessed
pub mod Untouched
