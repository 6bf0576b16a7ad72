-- ===== src/Compound.antt =====
-- python/lsst/sims/utils/CompoundCoordinateTransformations.py: altitude and azimuth, the angles of
-- the camera, and the parameters of an observation for PhoSim.
pub mod Angles
pub mod Triangle
pub mod Horizon
pub mod Rotator
pub mod Vantage
pub mod Seen
pub mod Solved
pub mod Sky
pub mod Turned
pub mod Temporary
pub mod Defaults
pub mod Params
pub mod Made
pub mod Measured
pub mod Kwargs
pub mod Shown
pub mod Answers
pub mod Requests
pub mod Untouched
