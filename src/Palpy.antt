-- ===== src/Palpy.antt =====
-- What CoordinateTransformations.py takes from palpy, and from numpy for numbers and arrays alike.
pub mod Places
use sims_utils.Base.{ℕ, Option}
use sims_utils.Numpy.{Numpy}

pub record Palpy (N : Numpy) : Type 0 where
  -- the length of an array; `none` for what is not `numpy.ndarray`
  pub array_length : N.Object → Option ℕ
  pub floor : N.Object → N.Object
  pub greater : N.Object → N.Object → N.Object
  pub where_ : N.Object → N.Object → N.Object → N.Object
  pub eqgal : N.Object → N.Object → N.Object × N.Object
  pub eqgal_vector : N.Object → N.Object → N.Object × N.Object
  pub galeq : N.Object → N.Object → N.Object × N.Object
  pub galeq_vector : N.Object → N.Object → N.Object × N.Object
  pub eqeqx : N.Object → N.Object
  pub eqeqx_vector : N.Object → N.Object
  pub gmsta : N.Object → N.Object → N.Object
  pub gmsta_vector : N.Object → N.Object → N.Object
