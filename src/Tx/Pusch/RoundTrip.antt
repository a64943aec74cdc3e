-- ===== src/Tx/Pusch/RoundTrip.antt =====
-- Reading back the PUSCH PDUs that aerial_bridge/src/msg_translator.cpp writes.
use ocudu_aerial_fapi_connec.Common.{
  ℕ, ◌+◌, ◌*◌, ◌/◌, ◌%◌, ◌<◌, ◌≡◌, refl, ap, ◌∙◌, sym, Bool, ◌==◌, if◌then◌else◌, List, [], ◌∷◌,
  ◌++◌, append-nil, append_assoc, Option, none, some, length, length-append, drop, drop-append,
  arith,
}
use ocudu_aerial_fapi_connec.Tx.Frame.{pdu, bwp_bytes, no_beamforming}
use ocudu_aerial_fapi_connec.Tx.Pusch.{
  TransformPrecoding, enabled, disabled, PuschData, PuschUci, Pusch, is_present, is_enabled,
  pusch_bitmap, pusch_fixed, pusch_data_bytes, pusch_uci_bytes, dft_ofdm_bytes, serialize_pusch_pdu,
}
use ocudu_aerial_fapi_connec.Wire.{load16, load32, two_bytes, four_bytes}
use ocudu_aerial_fapi_connec.Tx.Pusch.Reader.{
  read_pusch, read_data, read_uci, read_dft, DataFits, UciFits, IdentityFits, identity_of,
  read_data_lem, read_uci_lem, read_dft_lem,
}

data_length : (d : Option PuschData) → length (pusch_data_bytes d) ≡ (if is_present d then 9 else 0)
unfolding pusch_data_bytes
data_length none = refl
data_length (some d) = refl

uci_length : (u : Option PuschUci) → length (pusch_uci_bytes u) ≡ (if is_present u then 10 else 0)
unfolding pusch_uci_bytes
uci_length none = refl
uci_length (some u) = refl

dft_length : (t : TransformPrecoding) → length (dft_ofdm_bytes t) ≡ (if is_enabled t then 5 else 0)
unfolding dft_ofdm_bytes
dft_length (enabled identity) = refl
dft_length (disabled groups) = refl

-- The three bits of the stored bitmap.
abbrev bits_of : Bool → Bool → Bool → ℕ
bits_of d u t =
    let v : ℕ = (if d then 0x01 else 0) + (if u then 0x02 else 0) + (if t then 0x08 else 0) in
    v % 256 + 256 * (v / 256 % 256)

bit_data : (d u t : Bool) → (bits_of d u t % 2 == 1) ≡ d
bit_data d u t = ground arith

bit_uci : (d u t : Bool) → (bits_of d u t / 2 % 2 == 1) ≡ u
bit_uci d u t = ground arith

bit_dft : (d u t : Bool) → (bits_of d u t / 8 % 2 == 1) ≡ t
bit_dft d u t = ground arith

module _ (p : Pusch) where
  abbrev buf : List ℕ
  buf = serialize_pusch_pdu p

  abbrev d : List ℕ
  d = pusch_data_bytes p.pusch_data

  abbrev u : List ℕ
  u = pusch_uci_bytes p.pusch_uci

  abbrev t : List ℕ
  t = dft_ofdm_bytes p.transform_precoding

  abbrev tail : List ℕ
  tail = no_beamforming ++ []

  abbrev uci_at : ℕ
  uci_at = 86 + (if is_present p.pusch_data then 9 else 0)

  abbrev dft_at : ℕ
  dft_at = uci_at + (if is_present p.pusch_uci then 10 else 0)

  -- The 86 bytes in front of the sections.
  front_lem : (h : List ℕ) × (length h ≡ 86) × (buf ≡ h ++ (d ++ (u ++ (t ++ tail))))
  unfolding serialize_pusch_pdu pdu pusch_fixed bwp_bytes
  front_lem =
      let c = pusch_fixed p ++ (d ++ (u ++ (t ++ tail))) in
      (
        1 ∷ 0 ∷ (4 + length c) % 256 ∷ (4 + length c) / 256 % 256 ∷ pusch_fixed p,
        refl,
        rw (append-nil c),
      )

  read_bitmap :
      load16 buf 4
      ≡ some (
          bits_of
            (is_present p.pusch_data)
            (is_present p.pusch_uci)
            (is_enabled p.transform_precoding))
  unfolding serialize_pusch_pdu pdu pusch_fixed pusch_bitmap load16
  read_bitmap = refl

  read_rnti : p.rnti < 65536 → load16 buf 6 ≡ some p.rnti
  unfolding serialize_pusch_pdu pdu pusch_fixed load16
  read_rnti h = ap some (two_bytes p.rnti h)

  read_handle : p.handle < 4294967296 → load32 buf 8 ≡ some p.handle
  unfolding serialize_pusch_pdu pdu pusch_fixed load32
  read_handle h = ap some (four_bytes p.handle h)

  read_sections :
      DataFits p.pusch_data
      → UciFits p.pusch_uci
      → IdentityFits p.transform_precoding
      → (read_data (is_present p.pusch_data) buf 86 ≡ some p.pusch_data)
        × (read_uci (is_present p.pusch_uci) buf uci_at ≡ some p.pusch_uci)
        × (read_dft (is_enabled p.transform_precoding) buf dft_at
            ≡ some (identity_of p.transform_precoding))
        × (drop (dft_at + (if is_enabled p.transform_precoding then 5 else 0)) buf ≡ tail)
  read_sections hd hu ht =
      let (h, n, e) = front_lem in
      let dn = data_length p.pusch_data in
      let un = uci_length p.pusch_uci in
      let tn = dft_length p.transform_precoding in
      let e2 = e ∙ sym (append_assoc h d (u ++ (t ++ tail))) in
      let e3 = e2 ∙ sym (append_assoc (h ++ d) u (t ++ tail)) in
      let e4 = e3 ∙ sym (append_assoc ((h ++ d) ++ u) t tail) in
      let n2 : uci_at ≡ length (h ++ d) = omega (arith, n, dn, length-append h d) in
      let n3 : dft_at ≡ length ((h ++ d) ++ u) = omega (arith, n2, un, length-append (h ++ d) u) in
      let n4 : dft_at + (if is_enabled p.transform_precoding then 5 else 0)
          ≡ length (((h ++ d) ++ u) ++ t) =
        omega (arith, n3, tn, length-append ((h ++ d) ++ u) t) in
      (
        rw e (read_data_lem h (u ++ (t ++ tail)) 86 (omega (arith, n)) p.pusch_data hd),
        rw e2 (read_uci_lem (h ++ d) (t ++ tail) uci_at n2 p.pusch_uci hu),
        rw e3 (read_dft_lem ((h ++ d) ++ u) tail dft_at n3 p.transform_precoding ht),
        rw (e4, n4) (drop-append (((h ++ d) ++ u) ++ t) tail),
      )

  -- For a PDU whose fields are in the range of their types, reading the bytes back by the bitmap
  -- gives the PDU's RNTI and handle, exactly the data and UCI sections that it has, the DMRS
  -- identity exactly if transform precoding is enabled, and behind them nothing but the empty
  -- beamforming block.
  pub serialize_pusch_pdu-read_pusch :
      p.rnti < 65536
      → p.handle < 4294967296
      → DataFits p.pusch_data
      → UciFits p.pusch_uci
      → IdentityFits p.transform_precoding
      → read_pusch (serialize_pusch_pdu p)
        ≡ some (record {
          rnti = p.rnti;
          handle = p.handle;
          pusch_data = p.pusch_data;
          pusch_uci = p.pusch_uci;
          dmrs_identity = identity_of p.transform_precoding;
          trailer = 0 ∷ 0 ∷ 0 ∷ 0 ∷ 0 ∷ [];
        })
  unfolding read_pusch no_beamforming
  serialize_pusch_pdu-read_pusch hr hh hd hu ht =
      let (e_data, e_uci, e_dft, e_tail) = read_sections hd hu ht in
      let b0 = is_present p.pusch_data in
      let b1 = is_present p.pusch_uci in
      let b3 = is_enabled p.transform_precoding in
      rw (
        read_bitmap,
        read_rnti hr,
        read_handle hh,
        bit_data b0 b1 b3,
        bit_uci b0 b1 b3,
        bit_dft b0 b1 b3,
        e_data,
        e_uci,
        e_dft,
        e_tail,
      )
