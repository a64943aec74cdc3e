-- ===== src/Plugin/Created.antt =====
-- The adaptor that aerial_bridge/src/aerial_split6_plugin.cpp makes.
use ocudu_aerial_fapi_connec.Adaptor.{Adaptor, Outcome, done, thrown, bad_pointer, construct}
use ocudu_aerial_fapi_connec.Adaptor.Calls.{IsLive, Returns}
use ocudu_aerial_fapi_connec.Adaptor.Reachable.{IsVacant, Built, construct-Built}
use ocudu_aerial_fapi_connec.Common.{
  ℕ, ◌<◌, ◌≤◌, ◌≡◌, refl, true, leb→le, if-elim, All, ap, List, [], ◌∷◌, length, arith,
}
use ocudu_aerial_fapi_connec.Plugin.{
  AerialBridgeConfig, num_cells, with_numerology, on_configuration_validation, create_fapi_adaptor,
}
use ocudu_aerial_fapi_connec.RxThread
use ocudu_aerial_fapi_connec.RxThread.Dispatch.{RxThreadConfig}
use ocudu_aerial_fapi_connec.Transport.{
  NvIpcAnswers, NvipcTransportConfig, new_transport, connect, create_interface,
}

-- A usable adaptor with a sector for each cell and one at least, whose thread has the configuration.
pub record Serves {Slot Ta : Type 0} (cells : List ℕ) (rx : RxThreadConfig) (a : Adaptor Slot Ta)
    : Type 0 where
  pub live : IsLive a
  pub first_sector : 0 < a.sectors
  pub each_sector : length cells ≤ a.sectors
  pub thread_cfg : a.rx.cfg ≡ rx
  pub numerology_fits : a.rx.cfg.numerology ≤ 4

num_cells-bounds : (cells : List ℕ) → (0 < num_cells cells) × (length cells ≤ num_cells cells)
unfolding num_cells
num_cells-bounds cells = ground arith

with_numerology-fits :
    (cells : List ℕ) (cfg : AerialBridgeConfig)
    → on_configuration_validation cfg ≡ true
    → All (λ (scs : ℕ). scs ≤ 4) cells
    → (with_numerology cells cfg).rx.numerology ≤ 4
unfolding on_configuration_validation with_numerology
with_numerology-fits [] cfg v h = ground (arith, leb→le cfg.rx.numerology 4)
with_numerology-fits (scs ∷ cells) cfg v (h, hs) = h

-- With nvIPC answering, `connect` succeeds whatever way it goes.
connect-creates :
    (answers : NvIpcAnswers) (cfg : NvipcTransportConfig)
    → answers.yaml_loads ≡ true
    → answers.creates ≡ true
    → (connect answers cfg new_transport).0 ≡ true
unfolding connect create_interface new_transport
connect-creates answers cfg y c = ground arith

module _ {Slot Ta : Type 0} where
  construct-cfg :
      (answers : NvIpcAnswers) (nvipc_cfg : NvipcTransportConfig) (rx_cfg : RxThreadConfig)
      (cells : ℕ) (a : Adaptor Slot Ta)
      → (connect answers nvipc_cfg new_transport).0 ≡ true
      → Returns
          (λ (b : Adaptor Slot Ta). b.rx.cfg ≡ rx_cfg)
          (construct answers nvipc_cfg rx_cfg cells a)
  unfolding construct RxThread.start
  construct-cfg answers nvipc_cfg rx_cfg cells a c =
      if-elim (Returns _) (connect answers nvipc_cfg new_transport).0 _ thrown (λ on. refl)
        (λ off. absurd (ground (arith, c)))

  Returns-both :
      (P Q R : Adaptor Slot Ta → Type 0) (c : Outcome (Adaptor Slot Ta))
      → ((a : Adaptor Slot Ta) → P a → Q a → R a)
      → Returns P c
      → Returns Q c
      → Returns R c
  Returns-both P Q R (done a) f p q = f a p q
  Returns-both P Q R thrown f p q = p
  Returns-both P Q R bad_pointer f p q = p

  -- In a process without an adaptor, with nvIPC answering, a configuration that was found valid, and
  -- cells whose subcarrier spacings are FAPI numerologies, the plugin makes a usable adaptor: its
  -- receive thread runs with the configuration that the plugin then holds, whose numerology is at
  -- most 4, and it has at least one sector, and one for each cell.
  pub create_fapi_adaptor-Serves :
      (answers : NvIpcAnswers) (cells : List ℕ) (cfg : AerialBridgeConfig)
      (process : Adaptor Slot Ta)
      → IsVacant process
      → answers.yaml_loads ≡ true
      → answers.creates ≡ true
      → on_configuration_validation cfg ≡ true
      → All (λ (scs : ℕ). scs ≤ 4) cells
      → let (cfg', made) = create_fapi_adaptor answers cells cfg process in
        Returns (Serves cells cfg'.rx) made
  unfolding create_fapi_adaptor
  create_fapi_adaptor-Serves answers cells cfg process v y c ok h =
      let cfg' = with_numerology cells cfg in
      let connects = connect-creates answers cfg'.nvipc y c in
      let (first, each) = num_cells-bounds cells in
      Returns-both (Built (num_cells cells)) (λ (b : Adaptor Slot Ta). b.rx.cfg ≡ cfg'.rx)
        (Serves cells cfg'.rx) (construct answers cfg'.nvipc cfg'.rx (num_cells cells) process)
        (λ b built same. record {
          live = built.0;
          first_sector = omega (arith, built.1);
          each_sector = omega (arith, built.1);
          thread_cfg = same;
          numerology_fits =
              rw (ap (λ (r : RxThreadConfig). r.numerology) same)
                (with_numerology-fits cells cfg ok h);
        })
        (construct-Built answers cfg'.nvipc cfg'.rx (num_cells cells) process v connects)
        (construct-cfg answers cfg'.nvipc cfg'.rx (num_cells cells) process connects)
