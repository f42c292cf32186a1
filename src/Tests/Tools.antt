-- ===== src/Tests/Tools.antt =====
-- The plugin client and its tools (_bridge.py, imcp_call/run.py) on the samples.
use stavrobot_imcp_plugin.Prelude.{
  ℕ, suc, ◌+◌, ◌*◌, ◌≤◌, ◌<◌, Text, codes, text_eq, has_code, some, [], ◌≡◌, ◌⊎◌, refl, arith,
}
use stavrobot_imcp_plugin.Json.{str, arr, obj, nil, cons, Fields, end, field, get}
use stavrobot_imcp_plugin.Client.{request_bridge, is_call, redact, restored_delay}
use stavrobot_imcp_plugin.Client.Redaction.{IsHidden, redact-IsHidden}
use stavrobot_imcp_plugin.Client.Dispatch.{IsLocal, IsDispatched, request_bridge_lem}
use stavrobot_imcp_plugin.Client.Tools.{Asks, call_main, IsCallOf, call_main_lem}
use stavrobot_imcp_plugin.Client.Timer.{restored_delay_lem}
use stavrobot_imcp_plugin.Tests.Samples.{sample_request, sample_io}

request_bridge_lem_example :
    IsLocal (request_bridge sample_io sample_request)
    ⊎ IsDispatched sample_io sample_request (request_bridge sample_io sample_request)
unfolding is_call get text_eq
request_bridge_lem_example = request_bridge_lem sample_io sample_request refl

call_main_lem_example :
    ((call_main sample_io (some (obj (field (codes "name") (str (codes "search")) end)))).status
        ≡ 1)
      × ((call_main sample_io (some (obj (field (codes "name") (str (codes "search")) end)))).opened
          ≡ [])
    ⊎ ((name : Text) × (arguments : Fields) × Asks
          (some (obj (field (codes "name") (str (codes "search")) end)))
          name
          arguments
        × IsCallOf sample_io name arguments
            (call_main sample_io (some (obj (field (codes "name") (str (codes "search")) end)))))
call_main_lem_example =
    call_main_lem sample_io (some (obj (field (codes "name") (str (codes "search")) end)))

redact-IsHidden_example :
    IsHidden (codes "xyz") (redact (codes "xyz") (arr (cons (str (codes "a xyxyz b")) nil)))
unfolding has_code
redact-IsHidden_example =
    redact-IsHidden (codes "xyz") (arr (cons (str (codes "a xyxyz b")) nil)) (ground arith)
      (refl, (refl, (refl, tt)))

restored_delay_lem_example :
    (r : ℕ) × (restored_delay 25 3 (suc 9) ≡ some r)
    × (1 ≤ r)
    × (((25 < 3) × (25 + r ≡ 3)) ⊎ ((3 ≤ 25) × (k : ℕ) × (25 + r ≡ 3 + k * suc 9) × (r ≤ suc 9)))
restored_delay_lem_example = restored_delay_lem 25 3 9
