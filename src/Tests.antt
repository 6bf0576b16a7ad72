-- ===== src/Tests.antt =====
-- Runs on concrete data, and the theorems at inputs that meet their hypotheses.
mod Data
mod Sky
mod Runs
mod Examples
mod SkyExamples
mod PathExamples
mod CompoundExamples
mod StateExamples
mod SamplingExamples
mod CoordinateExamples
mod Binary
mod PlaceExamples
mod MotionExamples
