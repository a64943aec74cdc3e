-- ===== src/Tx/Pdcch/RoundTrip.antt =====
-- Reading back the PDCCH PDUs that aerial_bridge/src/msg_translator.cpp writes.
use ocudu_aerial_fapi_connec.Common.{
  ℕ, ◌+◌, ◌%◌, ◌≡◌, refl, ap, sym, ◌∙◌, Bool, true, false, ◌==◌, if◌then◌else◌, List, [], ◌++◌,
  append-nil, some, length, take, arith,
}
use ocudu_aerial_fapi_connec.Rx.Uci.Bits.{payload_bits-pack_lsb, length-pack_lsb}
use ocudu_aerial_fapi_connec.Rx.Uci.Section.{payload_bits, num_bytes}
use ocudu_aerial_fapi_connec.Tx.Bits.{pack_lsb}
use ocudu_aerial_fapi_connec.Tx.Frame.{pdu, bwp_bytes}
use ocudu_aerial_fapi_connec.Tx.Pdcch.{mapping_bytes, Pdcch, dci_bytes, serialize_pdcch_pdu}
use ocudu_aerial_fapi_connec.Wire.{le8, le16, load8, load16, one_byte, two_bytes}
use ocudu_aerial_fapi_connec.Wire.Cursor.{At, At-left, At-right, load8-At, load16-At}
use ocudu_aerial_fapi_connec.Tx.Pdcch.Reader.{
  read_pdcch, PdcchFits, length-mapping_bytes, read_mapping_lem, take-whole, read_dci_lem,
}

pub cp-normal : (b : Bool) → ((if b then 0 else 1) % 256 == 0) ≡ b
cp-normal true = refl
cp-normal false = refl

module _ (p : Pdcch) (fits : PdcchFits p) where
  abbrev buf : List ℕ
  buf = serialize_pdcch_pdu p

  abbrev resources : List ℕ
  resources = pack_lsb (num_bytes (length p.freq_domain_resource)) p.freq_domain_resource

  abbrev dci : List ℕ
  dci = dci_bytes p.dl_dci

  abbrev config : List ℕ
  config =
      bwp_bytes p.coreset_bwp p.scs p.cp_normal
      ++ (le8 p.symbols.start
          ++ (le8 p.symbols.size
              ++ (pack_lsb 6 (take 45 p.freq_domain_resource)
                  ++ (mapping_bytes p.mapping
                      ++ (le8 p.precoder_granularity ++ (le16 1 ++ (dci ++ [])))))))

  -- The headers and the fields in front of the frequency resources: 12 bytes.
  abbrev start : List ℕ
  start =
      le16 0
      ++ (le16 (4 + length config)
          ++ (bwp_bytes p.coreset_bwp p.scs p.cp_normal
              ++ (le8 p.symbols.start ++ le8 p.symbols.size)))

  abbrev middle : List ℕ
  middle = le8 p.precoder_granularity ++ le16 1

  all_resources : pack_lsb 6 (take 45 p.freq_domain_resource) ≡ resources
  all_resources =
      ap (pack_lsb 6) (take-whole 45 p.freq_domain_resource (sym fits.resources))
      ∙ ap (λ (n : ℕ). pack_lsb n p.freq_domain_resource) (omega (arith, fits.resources))

  pdu_shape : buf ≡ start ++ (resources ++ (mapping_bytes p.mapping ++ (middle ++ dci)))
  unfolding serialize_pdcch_pdu pdu bwp_bytes
  pdu_shape =
      ap (λ (xs : List ℕ). le16 0 ++ (le16 (4 + length config) ++ xs)) (append-nil config)
      ∙ ap (λ (xs : List ℕ). start ++ (xs ++ (mapping_bytes p.mapping ++ (middle ++ (dci ++ [])))))
          all_resources
      ∙ ap (λ (xs : List ℕ). start ++ (resources ++ (mapping_bytes p.mapping ++ (middle ++ xs))))
          (append-nil dci)

  at_start : At buf 0 (start ++ (resources ++ (mapping_bytes p.mapping ++ (middle ++ dci))))
  at_start = record { pre = []; rest = []; split = pdu_shape ∙ sym (append-nil _); offset = refl }

  head : At buf 0 start
  head = At-left buf 0 start (resources ++ (mapping_bytes p.mapping ++ (middle ++ dci))) at_start

  at_resources : At buf 12 (resources ++ (mapping_bytes p.mapping ++ (middle ++ dci)))
  unfolding bwp_bytes
  at_resources =
      At-right buf 0 start (resources ++ (mapping_bytes p.mapping ++ (middle ++ dci))) at_start

  at_mapping : At buf 18 (mapping_bytes p.mapping ++ (middle ++ dci))
  at_mapping =
      let six : 12 + length resources ≡ 18 = omega (
        arith,
        length-pack_lsb (num_bytes (length p.freq_domain_resource)) p.freq_domain_resource,
        fits.resources,
      ) in
      rw six at
        (At-right buf 12 resources (mapping_bytes p.mapping ++ (middle ++ dci)) at_resources)

  at_middle : At buf 24 (middle ++ dci)
  at_middle =
      let six : 18 + length (mapping_bytes p.mapping) ≡ 24 =
        omega (arith, length-mapping_bytes p.mapping) in
      rw six at (At-right buf 18 (mapping_bytes p.mapping) (middle ++ dci) at_mapping)

  resources_lem : payload_bits 45 buf 12 0 ≡ some p.freq_domain_resource
  resources_lem =
      let a = At-left buf 12 resources (mapping_bytes p.mapping ++ (middle ++ dci)) at_resources in
      ap (λ (n : ℕ). payload_bits n buf 12 0) (sym fits.resources)
      ∙ ap (λ (b : List ℕ). payload_bits (length p.freq_domain_resource) b 12 0) a.split
      ∙ payload_bits-pack_lsb p.freq_domain_resource a.pre a.rest 12 a.offset

  -- A PDCCH PDU whose fields fit the structs' fields, with 45 frequency resource bits, is read back
  -- whole from the bytes written for it: BWP, CORESET, CCE mapping, the DCI's identifiers, and the
  -- DCI's payload bit for bit, whatever its length.
  pub serialize_pdcch_pdu-read_pdcch : read_pdcch (serialize_pdcch_pdu p) ≡ some p
  unfolding read_pdcch load8 load16 bwp_bytes
  serialize_pdcch_pdu-read_pdcch =
      rw
        (
          load16-At buf 0 start head 4 4 refl (omega arith)
              ∙ ap some (two_bytes p.coreset_bwp.size fits.size_fits),
          load16-At buf 0 start head 6 6 refl (omega arith)
              ∙ ap some (two_bytes p.coreset_bwp.start fits.start_fits),
          load8-At buf 0 start head 8 8 refl (omega arith) ∙ ap some (one_byte p.scs fits.scs_fits),
          load8-At buf 0 start head 9 9 refl (omega arith),
          load8-At buf 0 start head 10 10 refl (omega arith)
              ∙ ap some (one_byte p.symbols.start fits.first_fits),
          load8-At buf 0 start head 11 11 refl (omega arith)
              ∙ ap some (one_byte p.symbols.size fits.count_fits),
          resources_lem,
          read_mapping_lem p.mapping buf 18 fits.mapping_fits
              (At-left buf 18 (mapping_bytes p.mapping) (middle ++ dci) at_mapping),
          load8-At buf 24 middle (At-left buf 24 middle dci at_middle) 24 0 refl (omega arith)
              ∙ ap some (one_byte p.precoder_granularity fits.granularity_fits),
          read_dci_lem p.dl_dci fits.dci_fits buf 27 (At-right buf 24 middle dci at_middle),
          cp-normal p.cp_normal,
        )
        refl
