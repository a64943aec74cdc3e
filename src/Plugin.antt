-- ===== src/Plugin.antt =====
-- `aerial_split6_plugin` of aerial_bridge/src/aerial_split6_plugin.cpp: from the configuration to the
-- adaptor.
pub mod Created
use ocudu_aerial_fapi_connec.Adaptor.{Adaptor, Outcome, construct}
use ocudu_aerial_fapi_connec.Common.{
  ℕ, Bool, true, false, not, ◌&&◌, leb, ◌==◌, if◌then◌else◌, List, [], ◌∷◌, ℤ, pos, negsuc, length,
}
use ocudu_aerial_fapi_connec.RxThread.Dispatch.{RxThreadConfig}
use ocudu_aerial_fapi_connec.Transport.{NvIpcAnswers, NvipcTransportConfig, is_empty}

-- `aerial_bridge_config`, the plugin's only member.
pub record AerialBridgeConfig : Type 0 where
  pub nvipc : NvipcTransportConfig
  pub rx : RxThreadConfig

-- The constructor's defaults; the prefix is "nvipc".
abbrev pub new_plugin : AerialBridgeConfig
new_plugin = record {
  nvipc = record { prefix = 0x6e ∷ 0x76 ∷ 0x69 ∷ 0x70 ∷ 0x63 ∷ []; yaml_path = [] };
  rx = record { cpu_core = negsuc 0; priority = pos 90; numerology = 1 };
}

-- What the options of `on_parsing_configuration_registration` name; CLI11 fills them in.
pub record Options : Type 0 where
  pub nvipc_prefix : List ℕ
  pub nvipc_yaml : List ℕ
  pub rx_cpu_core : ℤ
  pub rx_priority : ℤ
  pub numerology : ℕ

-- The members that the options are bound to.
abbrev pub parsed : Options → AerialBridgeConfig
parsed o = record {
  nvipc = record { prefix = o.nvipc_prefix; yaml_path = o.nvipc_yaml };
  rx = record { cpu_core = o.rx_cpu_core; priority = o.rx_priority; numerology = o.numerology };
}

unfoldable pub on_configuration_validation : AerialBridgeConfig → Bool
on_configuration_validation cfg =
    if is_empty cfg.nvipc.prefix then false else if leb cfg.rx.numerology 4 then true else false

-- The number of cells is at least 1; each cell is given by its `scs_common`.
pub num_cells : List ℕ → ℕ
num_cells cells = if length cells == 0 then 1 else length cells

-- The first cell's subcarrier spacing replaces the numerology of the options.
pub with_numerology : List ℕ → AerialBridgeConfig → AerialBridgeConfig
with_numerology [] cfg = cfg
with_numerology (scs_common ∷ cells) cfg = record cfg {
  rx = record (cfg.rx) { numerology = scs_common };
}

-- The configuration after the call, and the adaptor that it makes.
pub create_fapi_adaptor :
    {Slot Ta : Type 0}
    → NvIpcAnswers
    → List ℕ
    → AerialBridgeConfig
    → Adaptor Slot Ta
    → AerialBridgeConfig × Outcome (Adaptor Slot Ta)
create_fapi_adaptor answers cells cfg process =
    let cfg' = with_numerology cells cfg in
    (cfg', construct answers cfg'.nvipc cfg'.rx (num_cells cells) process)
