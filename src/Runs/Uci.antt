-- ===== src/Runs/Uci.antt =====
-- Runs of the UCI dispatcher of aerial_bridge/src/msg_translator.cpp.
use ocudu_aerial_fapi_connec.Common.{refl, true, false, List, [], ◌∷◌, none, some, Ensures, arith}
use ocudu_aerial_fapi_connec.Rx.Envelope.{Adds}
use ocudu_aerial_fapi_connec.Rx.Uci.{dispatch_uci_indication}
use ocudu_aerial_fapi_connec.Rx.Uci.Entries.{
  BitsEntry, HeadEntry, HeadFits, UciEntry, pusch_entry, pucch01_entry, pucch234_entry,
}
use ocudu_aerial_fapi_connec.Rx.Uci.RoundTrip.{
  told_uci, uci_message_of, dispatch_uci_indication-Adds,
}
use ocudu_aerial_fapi_connec.Tx.Bits.{pack_lsb}
use ocudu_aerial_fapi_connec.Runs.Samples.{sample_ocudu, header_bytes, fresh}

abbrev sample_head : HeadEntry
sample_head = record { handle = 3; rnti = 0x4601; ul_cqi = 0; timing_advance = 31; rssi = 1280 }

sample_head-HeadFits : HeadFits sample_head
sample_head-HeadFits = record {
  handle_fits = omega arith;
  rnti_fits = omega arith;
  advance_fits = omega arith;
  rssi_fits = omega arith;
}

-- Eleven bits, which take two bytes.
abbrev eleven_bits : BitsEntry
eleven_bits = record {
  status = 0;
  bits = true ∷ false ∷ false ∷ true ∷ true ∷ true ∷ false ∷ false ∷ false ∷ true ∷ true ∷ [];
}

-- UCI on PUSCH without HARQ bits, a scheduling request, and a PUCCH of format 2.
abbrev uci_entries : List UciEntry
uci_entries =
    pusch_entry sample_head none (some eleven_bits) none
    ∷ pucch01_entry 1 sample_head (some (record { sr_indication = 1; sr_confidence_level = 0 }))
        (some (record { harq_confidence_level = 0; harq_values = 1 ∷ 0 ∷ [] }))
    ∷ pucch234_entry 0 sample_head (some (true ∷ [])) (some eleven_bits) none none
    ∷ []

dispatch_uci_indication-Adds_example :
    Ensures (Adds (told_uci sample_ocudu 1 (1, 1000, 4) uci_entries) fresh) (
      dispatch_uci_indication sample_ocudu (uci_message_of header_bytes 1000 4 uci_entries) 1 fresh)
unfolding pack_lsb
dispatch_uci_indication-Adds_example =
    dispatch_uci_indication-Adds sample_ocudu 1 header_bytes 1000 4 uci_entries fresh refl
      (omega arith) (omega arith) (omega arith)
      (
        record {
          fields = (
            sample_head-HeadFits,
            tt,
            record { status_fits = omega arith; length_fits = omega arith; accepted = omega arith },
            tt,
          );
          size_fits = omega arith;
        },
        (
          record {
            fields = (
              omega arith,
              sample_head-HeadFits,
              omega arith,
              record { number_fits = omega arith; accepted = omega arith },
            );
            size_fits = omega arith;
          },
          (
            record {
              fields = (
                omega arith,
                sample_head-HeadFits,
                record { length_fits = omega arith; accepted = omega arith },
                record {
                  status_fits = omega arith;
                  length_fits = omega arith;
                  accepted = omega arith;
                },
                tt,
                tt,
              );
              size_fits = omega arith;
            },
            tt,
          ),
        ),
      )
