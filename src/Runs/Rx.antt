-- ===== src/Runs/Rx.antt =====
-- Runs of the receive path of aerial_bridge/src/rx_thread.cpp and aerial_bridge/src/msg_translator.cpp.
use ocudu_aerial_fapi_connec.Common.{
  ℕ, ◌≡◌, refl, true, false, ltb, ◌&&◌, if◌then◌else◌, List, [], ◌∷◌, ◌++◌, none, some, Ensures,
  pos, arith,
}
use ocudu_aerial_fapi_connec.Rx.Slot.{deserialize_slot_indication}
use ocudu_aerial_fapi_connec.Rx.Slot.Meaning.{IsLeast, deserialize_slot_indication-IsLeast}
use ocudu_aerial_fapi_connec.Rx.Tally.{IsTallied, tally}
use ocudu_aerial_fapi_connec.RxThread.{Tick, run_loop}
use ocudu_aerial_fapi_connec.RxThread.Dispatch.{RxThreadConfig, Notifiers, IpcMsg}
use ocudu_aerial_fapi_connec.RxThread.Tallies.{After, taken, run_loop-After}
use ocudu_aerial_fapi_connec.Runs.Samples.{sample_ocudu, header_bytes, fresh}

-- Slot 25 does not exist at 15 or 30 kHz: the slot goes by numerology 2.
deserialize_slot_indication-IsLeast_example :
    (e : ℕ) × IsLeast 1 25 e
    × (deserialize_slot_indication sample_ocudu (header_bytes ++ (0xe8 ∷ 3 ∷ 25 ∷ 0 ∷ [])) 1 7
        ≡ some (
            if ltb 1000 1024 && ltb 25 160
            then some (record { slot = (e, 1000, 25); time_point = 7 })
            else none))
deserialize_slot_indication-IsLeast_example =
    deserialize_slot_indication-IsLeast sample_ocudu header_bytes [] 1000 25 1 7 refl (omega arith)
      (omega arith) (omega arith)

abbrev pub sample_config : RxThreadConfig
sample_config = record { cpu_core = pos 0; priority = pos 1; numerology = 1 }

abbrev all_set : Notifiers
all_set = record { slot = true; ind = true; error = true; p5 = true }

-- A CRC.indication of one entry with a failed transport block.
abbrev pub crc_message : IpcMsg
crc_message = record {
  msg_id = 0x86;
  msg_buf = some (
      1 ∷ 0 ∷ 0x86 ∷ 0 ∷ 0 ∷ 0 ∷ 0 ∷ 0 ∷ 10 ∷ 0 ∷ 4 ∷ 0 ∷ 1 ∷ 0 ∷ 7 ∷ 0 ∷ 0 ∷ 0 ∷ 1 ∷ 0x46 ∷ 3 ∷ 1
      ∷ 0 ∷ 0 ∷ 200 ∷ 16 ∷ 0 ∷ 9 ∷ 1 ∷ []);
  msg_len = pos 29;
  data_present = false;
  data_len = pos 0;
  now = 11;
}

-- A message whose buffer pointer is null.
abbrev pub null_message : IpcMsg
null_message = record {
  msg_id = 0x82;
  msg_buf = none;
  msg_len = pos 12;
  data_present = false;
  data_len = pos 0;
  now = 12;
}

abbrev ticks : List Tick
ticks =
    record {
      running_before = true;
      running_after = true;
      queue = crc_message ∷ null_message ∷ crc_message ∷ [];
    }
    ∷ record { running_before = true; running_after = false; queue = crc_message ∷ [] }
    ∷ []

pub fresh-IsTallied : IsTallied fresh
unfolding tally
fresh-IsTallied = record {
  crc_ok = refl;
  crc_fail = refl;
  crc_total = refl;
  rx_data = refl;
  rach = refl;
  srs = refl;
  uci_pusch = refl;
  uci_pucch01 = refl;
  uci_pucch234 = refl;
  uci_total = refl;
}

run_loop-After_example :
    Ensures
      (After sample_ocudu sample_config all_set 3)
      (run_loop sample_ocudu sample_config all_set ticks (record { world = fresh; released = 0 }))
unfolding taken
run_loop-After_example =
    run_loop-After sample_ocudu sample_config all_set ticks fresh
      ((omega arith, (tt, (omega arith, tt))), ((omega arith, tt), tt)) fresh-IsTallied
