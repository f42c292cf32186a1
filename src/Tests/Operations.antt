-- ===== src/Tests/Operations.antt =====
-- Operations of the bridge service (bridge/server.py) on the samples.
use stavrobot_imcp_plugin.Prelude.{◌++◌, true, none, some, All, ◌≡◌, inl, inr, refl}
use stavrobot_imcp_plugin.Bridge.Effects.{ok, History}
use stavrobot_imcp_plugin.Bridge.Session.{
  ensure_session_locked, mark_session_dead_locked, close_service,
}
use stavrobot_imcp_plugin.Bridge.Session.Lifecycle.{
  close_service-IsRetired, mark_session_dead_locked-IsRetired,
}
use stavrobot_imcp_plugin.Bridge.Session.Established.{
  IsEstablished, ensure_session_locked-IsEstablished,
}
use stavrobot_imcp_plugin.Bridge.Session.Setup.{live, IsDown, IsUp, IsCovered, IsRetired, UpOr}
use stavrobot_imcp_plugin.Bridge.Service.{execute, list_tools}
use stavrobot_imcp_plugin.Bridge.Service.Safety.{Ends, execute-Ends}
use stavrobot_imcp_plugin.Bridge.Service.Requests.{Sent, sent_calls, execute_sends}
use stavrobot_imcp_plugin.Bridge.Effects.Deadlines.{EndsBy}
use stavrobot_imcp_plugin.Bridge.Service.Deadlines.{execute-OnTime}
use stavrobot_imcp_plugin.Bridge.Service.Listing.{IsListing, list_tools-IsListing}
use stavrobot_imcp_plugin.Tests.Samples.{
  sample_sdk, sample_env, sample_config, sample_world, sample_request, up_world,
}

sample_world-IsDown : IsDown sample_world
unfolding live
sample_world-IsDown = record { safe = tt; no_owner = refl; no_session = refl; none_live = refl }

up_world-IsUp : IsUp 0 up_world
unfolding live
up_world-IsUp = record {
  safe = (refl, (refl, tt));
  owned = (record { id = 0; started = true; entered = true }, refl, refl, refl);
  session_is = refl;
  one_live = refl;
  not_dead = refl;
}

up_world-IsCovered : IsCovered up_world
unfolding live
up_world-IsCovered = record { safe = (refl, (refl, tt)); covered = inr (refl, refl) }

execute_sends_example :
    Sent sample_sdk sample_env sample_config
      (sent_calls sample_world.history)
      sample_request
      (execute sample_sdk sample_env sample_config sample_request (some 100) sample_world).1
execute_sends_example =
    execute_sends sample_sdk sample_env sample_config sample_request (some 100) sample_world

execute-OnTime_example :
    (news : History) × ((execute sample_sdk sample_env sample_config sample_request
        (some 100)
        sample_world).1.history
      ≡ news ++ sample_world.history)
    × All (EndsBy 100) news
execute-OnTime_example =
    execute-OnTime sample_sdk sample_env sample_config sample_request 100 sample_world

list_tools-IsListing_example :
    IsListing sample_env sample_config
      (list_tools sample_sdk sample_env sample_config none sample_world).0
      (list_tools sample_sdk sample_env sample_config none sample_world).1
list_tools-IsListing_example =
    list_tools-IsListing sample_sdk sample_env sample_config none sample_world

execute-Ends_example :
    Ends
      (execute sample_sdk sample_env sample_config sample_request none up_world).0
      (execute sample_sdk sample_env sample_config sample_request none up_world).1
execute-Ends_example =
    execute-Ends sample_sdk sample_env sample_config sample_request none up_world
      (inr (0, up_world-IsUp))

ensure_session_locked-IsEstablished_example :
    UpOr IsDown
      (ensure_session_locked sample_env sample_config none sample_world).0
      (ensure_session_locked sample_env sample_config none sample_world).1
    × IsEstablished sample_env sample_world
        (ensure_session_locked sample_env sample_config none sample_world).0
        (ensure_session_locked sample_env sample_config none sample_world).1
ensure_session_locked-IsEstablished_example =
    ensure_session_locked-IsEstablished sample_env sample_config none sample_world
      (inl sample_world-IsDown)

close_service-IsRetired_example : IsRetired (close_service sample_env sample_config up_world).1
close_service-IsRetired_example =
    close_service-IsRetired sample_env sample_config up_world (inr (0, up_world-IsUp))

mark_session_dead_locked-IsRetired_example :
    IsRetired (mark_session_dead_locked sample_env sample_config up_world).1
    × ((mark_session_dead_locked sample_env sample_config up_world).0 ≡ ok tt)
mark_session_dead_locked-IsRetired_example =
    mark_session_dead_locked-IsRetired sample_env sample_config up_world up_world-IsCovered
