-- ===== src/FocalPlane.antt =====
-- python/lsst/sims/utils/FocalPlaneUtils.py: between the sky and the plane of the pupil.
pub mod Projection
pub mod Points
pub mod Pupil
pub mod Sky
pub mod Rotation
pub mod Back
