-- ===== src/Json/Convert.antt =====
-- `_json_value` of bridge/server.py: SDK models to plain JSON data. `none` stands for its
-- TypeError or ValueError, which every caller treats alike.
use stavrobot_imcp_plugin.Prelude.{Option, none, some}
use stavrobot_imcp_plugin.Json.{
  Value, null, bool, int, float, not_finite, str, arr, obj, model, other, Items, nil, cons, Fields,
  end, field,
}
use stavrobot_imcp_plugin.Json.Dump.{◌>>=◌}

unfoldable mutual
  pub json_value : Value → Option Value
  json_value (model dump) = json_value dump
  json_value null = some null
  json_value (str s) = some (str s)
  json_value (bool b) = some (bool b)
  json_value (int i) = some (int i)
  json_value not_finite = none
  json_value (float repr) = some (float repr)
  json_value (obj fs) = do gs ← json_fields fs; some (obj gs)
  json_value (arr xs) = do ys ← json_items xs; some (arr ys)
  json_value other = none

  pub json_items : Items → Option Items
  json_items nil = some nil
  json_items (cons x xs) = do y ← json_value x; ys ← json_items xs; some (cons y ys)

  pub json_fields : Fields → Option Fields
  json_fields end = some end
  json_fields (field k v fs) = do w ← json_value v; gs ← json_fields fs; some (field k w gs)
