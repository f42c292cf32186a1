-- ===== src/Json/Tests.antt =====
-- A run of `_dump_json` (bridge/server.py).
use stavrobot_imcp_plugin.Prelude.{◌≡◌, refl, codes, true, some, [], ◌∷◌}
use stavrobot_imcp_plugin.Json.{bool, int, str, arr, obj, negsuc, nil, cons, end, field}
use stavrobot_imcp_plugin.Json.Dump.{dump_json, escape_char}

dump_sample :
    dump_json (
      obj (
        field
          (codes "a\"")
          (arr (cons (int (negsuc 31999)) (cons (bool true) nil)))
          (field (codes "b") (str (0xd800 ∷ 0xe9 ∷ 0x1f600 ∷ [])) end)))
    ≡ some (codes "{\"a\\\"\":[-32000,true],\"b\":\"\\ud800\\u00e9\\ud83d\\ude00\"}")
unfolding dump_json escape_char
dump_sample = refl
