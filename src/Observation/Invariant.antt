-- ===== src/Observation/Invariant.antt =====
-- What holds of an ObservationMetaData between its method calls: the bounds fit the pointing, what
-- phoSimMetaData brings is what the object has, and m5 and seeing belong to the bandpass.
pub mod Rules
pub mod Bounds
pub mod PhoSim
pub mod Keyed
