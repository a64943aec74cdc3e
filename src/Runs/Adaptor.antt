-- ===== src/Runs/Adaptor.antt =====
-- Runs of the adaptor of aerial_bridge/src/aerial_fapi_adaptor.cpp and of the transport that it owns,
-- and of the plugin of aerial_bridge/src/aerial_split6_plugin.cpp.
use ocudu_aerial_fapi_connec.Adaptor.{
  Adaptor, done, Event, wake, set_notifier, indications_notifier, construct, in_sector, register,
  step,
}
use ocudu_aerial_fapi_connec.Adaptor.Calls.{IsLive, Returns}
use ocudu_aerial_fapi_connec.Adaptor.Reachable.{IsVacant, Alive, at_first, after, Alive-step}
use ocudu_aerial_fapi_connec.Common.{ℕ, ◌≡◌, refl, true, false, List, [], ◌∷◌, none, length, arith}
use ocudu_aerial_fapi_connec.Plugin.{
  AerialBridgeConfig, on_configuration_validation, create_fapi_adaptor,
}
use ocudu_aerial_fapi_connec.Plugin.Created.{Serves, create_fapi_adaptor-Serves}
use ocudu_aerial_fapi_connec.RxThread
use ocudu_aerial_fapi_connec.RxThread.{new_rx_thread}
use ocudu_aerial_fapi_connec.Runs.Gateway.{idle_p5, idle_p7}
use ocudu_aerial_fapi_connec.Runs.Rx.{sample_config, crc_message, null_message, fresh-IsTallied}
use ocudu_aerial_fapi_connec.Runs.Samples.{sample_ocudu, fresh}
use ocudu_aerial_fapi_connec.Transport.{
  NvIpcAnswers, NvipcTransportConfig, new_transport, connect, create_interface, is_empty,
  disconnect,
}
use ocudu_aerial_fapi_connec.Transport.Handles.{
  Call, connecting, disconnecting, calls, calls-disconnect,
}

abbrev answers : NvIpcAnswers
answers = record { yaml_loads = true; creates = true; nv_name_max_len = 32 }

abbrev nvipc_config : NvipcTransportConfig
nvipc_config = record { prefix = 0x6e ∷ 0x76 ∷ []; yaml_path = [] }

-- Connects twice, disconnects, and connects again.
abbrev some_calls : List Call
some_calls =
    connecting answers nvipc_config
    ∷ connecting answers nvipc_config
    ∷ disconnecting
    ∷ connecting answers nvipc_config
    ∷ []

calls-disconnect_example :
    let t = disconnect (calls some_calls new_transport) in
    (t.has_ipc ≡ false) × (t.connected ≡ false) × (length t.created ≡ t.destroyed)
calls-disconnect_example = calls-disconnect some_calls

abbrev vacant : Adaptor (ℕ × ℕ × ℕ) ℕ
vacant = record {
  transport = new_transport;
  rx = new_rx_thread;
  owners = record { slot = none; ind = none; error = none; p5 = none };
  sectors = 0;
  world = fresh;
  p5 = idle_p5;
  p7 = idle_p7;
  released = 0;
  orphans = 0;
}

vacant-IsVacant : IsVacant vacant
vacant-IsVacant = record {
  no_orphan = refl;
  tallied = fresh-IsTallied;
  balanced = record { p7_released = refl; p7_sent = refl; p5_sent = refl };
}

-- What the constructor makes of it.
abbrev built : Adaptor (ℕ × ℕ × ℕ) ℕ
built = record vacant {
  transport = (connect answers nvipc_config new_transport).1;
  sectors = 2;
  rx = RxThread.start sample_config new_rx_thread;
}

construct-built : construct answers nvipc_config sample_config 2 vacant ≡ done built
unfolding construct connect create_interface is_empty new_transport
construct-built = refl

connects : (connect answers nvipc_config new_transport).0 ≡ true
unfolding connect create_interface is_empty new_transport
connects = refl

abbrev registered : Adaptor (ℕ × ℕ × ℕ) ℕ
registered = register indications_notifier 7 built

step-registered :
    step sample_ocudu false (set_notifier 1 indications_notifier 7) built ≡ done registered
unfolding step in_sector
step-registered = refl

registered-Alive : Alive sample_ocudu false answers nvipc_config sample_config 2 vacant registered
registered-Alive =
    after (set_notifier 1 indications_notifier 7) built registered (omega arith) step-registered
      (at_first built construct-built)

abbrev messages : Event
messages = wake (crc_message ∷ null_message ∷ [])

Alive-step_example :
    Returns
      (λ b. Alive sample_ocudu false answers nvipc_config sample_config 2 vacant b × IsLive b)
      (step sample_ocudu false messages registered)
Alive-step_example =
    Alive-step sample_ocudu false answers nvipc_config sample_config 2 vacant registered messages
      vacant-IsVacant connects registered-Alive (omega arith, (tt, tt))

abbrev plugin_config : AerialBridgeConfig
plugin_config = record { nvipc = nvipc_config; rx = sample_config }

create_fapi_adaptor-Serves_example :
    let (cfg', made) = create_fapi_adaptor answers (1 ∷ 0 ∷ []) plugin_config vacant in
    Returns (Serves (1 ∷ 0 ∷ []) cfg'.rx) made
unfolding on_configuration_validation is_empty
create_fapi_adaptor-Serves_example =
    create_fapi_adaptor-Serves answers (1 ∷ 0 ∷ []) plugin_config vacant vacant-IsVacant refl refl
      refl (omega arith, (omega arith, tt))
