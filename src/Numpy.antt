-- ===== src/Numpy.antt =====
-- What the package takes from numpy and from Python's numbers: an unknown kind of object with the
-- operations that the code calls. Floats are not modelled: a theorem that needs a fact of
-- arithmetic takes it as a hypothesis on this record.
use sims_utils.Base.{Bool, Option, List, String}

pub record Numpy : Type 1 where
  -- any Python object that a caller passes or that an operation returns
  pub Object : Type 0
  -- a number or a text as the source writes it
  pub literal : String → Object
  -- + - * / % on floats and arrays
  pub add : Object → Object → Object
  pub sub : Object → Object → Object
  pub mul : Object → Object → Object
  pub div : Object → Object → Object
  pub mod_ : Object → Object → Object
  pub lt : Object → Object → Bool
  pub eq : Object → Object → Bool
  -- whether a dict takes two objects for one key
  pub same_key : Object → Object → Bool
  pub pi : Object
  pub radians : Object → Object
  pub degrees : Object → Object
  pub sin : Object → Object
  pub cos : Object → Object
  pub arcsin : Object → Object
  pub arccos : Object → Object
  pub arctan2 : Object → Object → Object
  pub sqrt : Object → Object
  pub neg : Object → Object
  pub sign : Object → Object
  pub abs : Object → Object
  pub nan : Object
  pub is_nan : Object → Bool
  -- `isinstance(x, float)`, `isinstance(x, int)`; whether `degrees` takes `x` or raises
  pub is_float : Object → Bool
  pub is_int : Object → Bool
  pub is_number : Object → Bool
  -- `np.float(x)`; `none` where it raises
  pub to_float : Object → Option Object
  -- the items, if `hasattr(x, '__len__')`; if `hasattr(x, '__iter__')`
  pub items? : Object → Option (List Object)
  pub iter? : Object → Option (List Object)
  -- `'%f' % x` and `'%s' % x`
  pub format_f : Object → String
  pub format_s : Object → String
