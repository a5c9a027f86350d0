-- ===== src/Ndnlp/Wire.antt =====
-- encodeFragment of daemon/face/ndnlp-slicer.cpp against fromBlock of ndnlp-data.cpp.
use nfd_pitless.Base.{
  ℕ, ◌^◌, ◌≤◌, ◌<◌, ◌≡◌, refl, true, false, some, arith, ltb, leb, ◌==◌, Bool-cases, inl, inr,
}
use nfd_pitless.Ndnlp.{
  Encoding, NdnlpData, parsed, max16, from_block, encode_fragment, parse_elements, parse_fields,
  read16,
}

module _ (enc : Encoding) where
  read16_lem :
      (kind n : ℕ)
      → n ≤ max16
      → read16 enc kind (record { kind = kind; value = enc.nonnegative n }) ≡ some (some n)
  unfolding read16
  read16_lem kind n small =
      let back = enc.read-nonnegative n (omega arith) in
      let fits : ltb max16 n ≡ false = ground arith in
      let right : (kind == kind) ≡ true = ground arith in rw right (rw back (rw fits refl))

  -- What encodeFragment puts on the wire for a sequence number of 64 bits, and an index below a count
  -- of 16 bits, fromBlock reads back.
  pub from_block-encode_fragment :
      (d : NdnlpData)
      → d.seq < 2 ^ 64
      → d.frag_index < d.frag_count
      → d.frag_count ≤ max16
      → from_block enc (encode_fragment enc d.seq d.frag_index d.frag_count d.payload) ≡ parsed d
  unfolding from_block encode_fragment parse_elements parse_fields
  from_block-encode_fragment d wide below small = elim (Bool-cases (ltb 1 d.frag_count)) [
    | inl many ↦
        let apart : leb d.frag_count d.frag_index ≡ false = ground arith in
        rw (many, encode_fragment)
          (rw (enc.length-be64 d.seq) (
            rw (read16_lem 82 d.frag_index (omega arith)) (
              rw (read16_lem 83 d.frag_count small)
                (rw apart (rw (enc.read-be64 d.seq wide) refl)))))
    | inr one ↦
        let e1 : d.frag_count ≡ 1 = ground arith in
        let e0 : d.frag_index ≡ 0 = ground arith in
        rw (one, encode_fragment)
          (rw (enc.length-be64 d.seq) (rw (enc.read-be64 d.seq wide) (ground arith)))
  ]
