-- ===== src/Json.antt =====
-- Python values as the bridge handles them (bridge/server.py): JSON data, SDK models and the rest.
-- A mapping is the sequence of its items in insertion order; its keys are strings.
pub mod Dump
pub mod Convert
mod Tests
use stavrobot_imcp_plugin.Prelude.{ℕ, Text, text_eq, Bool, Option, none, some, if◌then◌else◌}

-- A Python `int`; `negsuc n` is -(n + 1).
pub data ℤ : Type 0 where
  pos : ℕ → ℤ
  negsuc : ℕ → ℤ

mutual
  pub data Value : Type 0 where
    null : Value
    bool : Bool → Value
    int : ℤ → Value
    -- A finite float, by what `float.__repr__` writes for it, and a NaN or an infinity.
    float : Text → Value
    not_finite : Value
    str : Text → Value
    -- A list or a tuple.
    arr : Items → Value
    obj : Fields → Value
    -- An SDK model, with what its `model_dump` returns.
    model : Value → Value
    -- An object of any other type.
    other : Value

  pub data Items : Type 0 where
    nil : Items
    cons : Value → Items → Items

  pub data Fields : Type 0 where
    end : Fields
    field : Text → Value → Fields → Fields

-- `mapping.get(key)`.
unfoldable pub get : Text → Fields → Option Value
get k end = none
get k (field j v fs) = if text_eq j k then some v else get k fs

-- `mapping[key] = value`: a known key keeps its place, a new one goes to the end.
unfoldable pub put : Text → Value → Fields → Fields
put k w end = field k w end
put k w (field j v fs) = if text_eq j k then field j w fs else field j v (put k w fs)
