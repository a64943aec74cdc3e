-- ===== src/Rx/Rach.antt =====
-- `dispatch_rach_indication` of aerial_bridge/src/msg_translator.cpp.
pub mod Safety
pub mod RoundTrip
use ocudu_aerial_fapi_connec.Common.{
  ℕ, zero, suc, ◌+◌, ltb, if◌then◌else◌, List, [], ◌∷◌, Option, none, some, ◌>>=◌, length,
}
use ocudu_aerial_fapi_connec.Metrics.{add64}
use ocudu_aerial_fapi_connec.Ocudu.{Ocudu}
use ocudu_aerial_fapi_connec.Rx.Indication.{RachPdu, Preamble, on_rach_indication}
use ocudu_aerial_fapi_connec.Rx.World.{World, notify, scf_hdr_size}
use ocudu_aerial_fapi_connec.Wire.{load8, load16, load32}

-- The seven bytes of a preamble; its timing advance is read and not used.
pub read_preamble : List ℕ → ℕ → Option Preamble
read_preamble buf p = do
  preamble_index ← load8 buf p
  ta ← load16 buf (p + 1)
  pwr ← load32 buf (p + 3)
  some (record { preamble_index = preamble_index; preamble_pwr = pwr; preamble_snr = 0 })

-- The inner loop: the preambles and the offset behind them.
pub preamble_loop : ℕ → List ℕ → ℕ → Option (List Preamble × ℕ)
preamble_loop zero buf p = some ([], p)
preamble_loop (suc rounds) buf p = if ltb (length buf) (p + 7) then some ([], p) else do
  preamble ← read_preamble buf p
  (rest, next) ← preamble_loop rounds buf (p + 7)
  some (preamble ∷ rest, next)

-- One entry at offset `p`, whose first two bytes are skipped, and the offset of the next one.
pub read_rach : List ℕ → ℕ → Option (RachPdu × ℕ)
read_rach buf p = do
  symbol_index ← load8 buf (p + 2)
  slot_index ← load8 buf (p + 3)
  ra_index ← load8 buf (p + 4)
  avg_rssi ← load8 buf (p + 5)
  avg_snr ← load8 buf (p + 6)
  num_preambles ← load8 buf (p + 7)
  (preambles, next) ← preamble_loop num_preambles buf (p + 8)
  some (
    record {
      symbol_index = symbol_index;
      slot_index = slot_index;
      ra_index = ra_index;
      avg_rssi = avg_rssi;
      avg_snr = avg_snr;
      preambles = preambles;
    },
    next,
  )

module _ {Slot Ta : Type 0} where
  unfoldable pub notify_rach : Slot → RachPdu → World Slot Ta → World Slot Ta
  notify_rach sp pdu w =
      let m = w.metrics in
      notify (on_rach_indication sp pdu)
        (record w { metrics = record m { rach_total = add64 m.rach_total 1 } })

  pub rach_loop : ℕ → List ℕ → ℕ → Slot → World Slot Ta → Option (World Slot Ta)
  rach_loop zero buf p sp w = some w
  rach_loop (suc rounds) buf p sp w =
      if ltb (length buf) (p + 8)
      then some w
      else do (pdu, next) ← read_rach buf p; rach_loop rounds buf next sp (notify_rach sp pdu w)

  pub dispatch_rach_indication : Ocudu Slot Ta → List ℕ → ℕ → World Slot Ta → Option (World Slot Ta)
  dispatch_rach_indication o buf numerology w =
      if ltb (length buf) (scf_hdr_size + 5) then some w else do
        sfn ← load16 buf scf_hdr_size
        slot ← load16 buf (scf_hdr_size + 2)
        num_pdus ← load8 buf (scf_hdr_size + 4)
        rach_loop num_pdus buf (scf_hdr_size + 5) (o.slot_point numerology sfn slot) w
