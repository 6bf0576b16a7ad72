-- ===== src/Observation.antt =====
-- python/lsst/sims/utils/ObservationMetaData.py: the state of a pointing, its constructor and its
-- setters, and what they keep.
pub mod State
pub mod Assign
pub mod Keyed
pub mod Methods
pub mod Steps
pub mod Getters
pub mod Invariant
pub mod Errors
pub mod Conflicts
