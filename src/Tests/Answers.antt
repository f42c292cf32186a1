-- ===== src/Tests/Answers.antt =====
-- Requests and answers of the HTTP handler (bridge/server.py) on the samples.
use stavrobot_imcp_plugin.Prelude.{
  ◌≤◌, codes, text_eq, Bool, true, none, some, [], ◌∷◌, length, All, ◌≡◌, ◌≢◌, ◌⊎◌, inl, refl,
  arith,
}
use stavrobot_imcp_plugin.Json.{Value, bool, str, obj, end, Fields, get, put}
use stavrobot_imcp_plugin.Json.Dump.{Bytes, utf8, is_surrogate, dump_json, escape_char}
use stavrobot_imcp_plugin.Json.Dump.Write.{IsCleanFields, is_scalar, is_scalar-IsScalar, encode}
use stavrobot_imcp_plugin.Response.Payload.{unknown_outcome_payload}
use stavrobot_imcp_plugin.Response.Bounded.{
  Child, priority, ordered_mapping_items, bounded_json_value,
}
use stavrobot_imcp_plugin.Response.Bounded.Order.{by_keys, ordered_mapping_items-by_keys}
use stavrobot_imcp_plugin.Response.Bounded.Fits.{bounded_json_value-Fits}
use stavrobot_imcp_plugin.Response.Bounded.Strings.{Fits}
use stavrobot_imcp_plugin.Response.Encode.{
  encode_json, max_response_bytes, sent, nested_key, overhead,
}
use stavrobot_imcp_plugin.Response.Bounded.Parts.{IsPart}
use stavrobot_imcp_plugin.Response.Encode.Limit.{encode_json-within, Reply}
use stavrobot_imcp_plugin.Response.Encode.Retains.{encode_json-prunes}
use stavrobot_imcp_plugin.Bridge.Responses.{bad_gateway}
use stavrobot_imcp_plugin.Http.{timed_out, authorized, read_request, is_call_tool, do_post}
use stavrobot_imcp_plugin.Http.Authorization.{SendsToken, authorized-SendsToken}
use stavrobot_imcp_plugin.Http.Bodies.{IsBodyOf}
use stavrobot_imcp_plugin.Http.Served.{Admitted, do_post_lem, do_post-unknown_outcome}
use stavrobot_imcp_plugin.Tests.Samples.{sample_request, sample_payload, sample_exchange}

sample_payload-IsClean : IsCleanFields sample_payload
unfolding is_scalar is_surrogate
sample_payload-IsClean = (
  is_scalar-IsScalar (codes "ok") refl,
  tt,
  (
    is_scalar-IsScalar (codes "result") refl,
    is_scalar-IsScalar (codes "a result of some forty characters or more") refl,
    (is_scalar-IsScalar (codes "truncated") refl, tt, tt),
  ),
)

encode_json-within_example :
    (bs : Bytes) × (flag : Bool) × (encode_json sample_payload 200 ≡ sent bs flag)
    × (length bs ≤ 200)
    × Reply sample_payload bs flag
encode_json-within_example = encode_json-within sample_payload 200 (omega arith)

encode_json-prunes_example :
    (w : Value) × (get (codes "result") sample_payload ≡ some w)
    × (v : Value) × ((v ≡ obj end) ⊎ IsPart v w)
    × (encode_json sample_payload 64
        ≡ sent
            (encode
              (obj (put (codes "result") v (put (codes "truncated") (bool true) sample_payload))))
            true)
    × (length (
          encode
            (obj (put (codes "result") v (put (codes "truncated") (bool true) sample_payload))))
        ≤ 64)
unfolding put text_eq nested_key overhead dump_json encode escape_char
encode_json-prunes_example =
    encode_json-prunes sample_payload 64 (codes "result") sample_payload-IsClean refl (omega arith)
      (omega arith)

bounded_json_value-Fits_example : Fits 10 (bounded_json_value (str (codes "a long string")) 10)
unfolding is_scalar is_surrogate
bounded_json_value-Fits_example =
    bounded_json_value-Fits (str (codes "a long string")) 10
      (is_scalar-IsScalar (codes "a long string") refl)

sample_exchange-Admitted : Admitted sample_exchange sample_request
unfolding authorized read_request text_eq utf8
sample_exchange-Admitted = (refl, refl, refl)

authorized-SendsToken_example : SendsToken (some (codes "bEARER abc")) (codes "abc")
unfolding authorized text_eq utf8
authorized-SendsToken_example = authorized-SendsToken (some (codes "bEARER abc")) (codes "abc") refl

do_post_lem_example :
    (((do_post sample_exchange).1.runs ≡ [])
      ⊎ ((request : Fields) × ((do_post sample_exchange).1.runs ≡ request ∷ [])
          × SendsToken sample_exchange.authorization sample_exchange.bridge_token
          × (sample_exchange.url_path ≡ some sample_exchange.bridge_path)
          × IsBodyOf sample_exchange request))
    × All (λ reply. length reply.body ≤ max_response_bytes) (do_post sample_exchange).1.replies
    × (((do_post sample_exchange).1.replies ≢ [])
        ⊎ ((do_post sample_exchange).1.status ≡ codes "client_disconnected"))
do_post_lem_example = do_post_lem sample_exchange

do_post-unknown_outcome_example :
    (body : Bytes) × (flag : Bool) × (encode_json unknown_outcome_payload max_response_bytes
      ≡ sent body flag)
    × ((do_post sample_exchange).1.replies ≡ record { status_code = bad_gateway; body = body } ∷ [])
    × ((do_post sample_exchange).1.status ≡ codes "unknown_outcome")
unfolding is_call_tool get text_eq
do_post-unknown_outcome_example =
    do_post-unknown_outcome sample_exchange sample_request timed_out sample_exchange-Admitted refl
      refl (inl refl)

abbrev no_child : Child
no_child budget = none

ordered_mapping_items-by_keys_example :
    ordered_mapping_items
      ((codes "content", no_child) ∷ (codes "extra", no_child) ∷ (codes "isError", no_child) ∷ [])
    ≡ by_keys priority
        ((codes "content", no_child) ∷ (codes "extra", no_child) ∷ (codes "isError", no_child) ∷ [])
ordered_mapping_items-by_keys_example =
    ordered_mapping_items-by_keys
      ((codes "content", no_child) ∷ (codes "extra", no_child) ∷ (codes "isError", no_child) ∷ [])
