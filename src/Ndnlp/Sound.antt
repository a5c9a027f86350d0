-- ===== src/Ndnlp/Sound.antt =====
-- The fragments that Slicer::slice of daemon/face/ndnlp-slicer.cpp makes.
use nfd_pitless.Base.{
  ℕ, zero, suc, ◌+◌, ◌-◌, ◌*◌, ◌%◌, ◌^◌, ◌≤◌, ◌<◌, ◌≡◌, min, List, [], ◌∷◌, All, arith, length,
  take, drop,
}
use nfd_pitless.Ndnlp.{
  Encoding, NdnlpData, parsed, max16, fragment_size, from_block, encode_fragment,
}
use nfd_pitless.Ndnlp.Slicer.{
  SequenceBlock, nth_sequence, pieces, payload_at, fragments, slice, max_payload,
}
use nfd_pitless.Ndnlp.Wire.{from_block-encode_fragment}
use nfd_pitless.Ndnlp.Fits.{max_payload_lem}

length-take_le : {A : Type 0} (n : ℕ) (xs : List A) → length (take n xs) ≤ n
length-take_le zero xs = omega arith
length-take_le (suc n) [] = omega arith
length-take_le (suc n) (x ∷ xs) = omega (arith, length-take_le n xs)

module _ (enc : Encoding) where
  -- The fragment fits in the MTU, is read back from the wire, and has the identifier of a message.
  pub record IsSound (mtu identifier : ℕ) (d : NdnlpData) : Type 0 where
    pub fits : fragment_size enc d.frag_index d.frag_count (length d.payload) ≤ mtu
    pub reads :
        from_block enc (encode_fragment enc d.seq d.frag_index d.frag_count d.payload) ≡ parsed d
    pub belongs : (d.seq + 2 ^ 64 - d.frag_index) % 2 ^ 64 ≡ identifier

  fragments-IsSound :
      (mtu : ℕ) (packet : List ℕ) (seqs : SequenceBlock) (count i left : ℕ)
      → mtu < 2 ^ 62
      → fragment_size enc (max16 - 1) max16 mtu < 2 * mtu
      → seqs.start < 2 ^ 64
      → count ≤ max16
      → i + left ≤ count
      → All (IsSound mtu seqs.start) (fragments enc (max_payload enc mtu) packet seqs count i left)
  unfolding fragments payload_at
  fragments-IsSound mtu packet seqs count i zero small room start few within = tt
  fragments-IsSound mtu packet seqs count i (suc left) small room start few within =
      let rest = drop (i * max_payload enc mtu) packet in
      let size = min (max_payload enc mtu) (length packet - i * max_payload enc mtu) in
      let short : length (take size rest) ≤ max_payload enc mtu =
        omega (arith, length-take_le size rest) in
      let wide : nth_sequence seqs i < 2 ^ 64 = omega arith in
      let d : NdnlpData = record {
        seq = nth_sequence seqs i;
        frag_index = i;
        frag_count = count;
        payload = take size rest;
      } in
      let first : IsSound mtu seqs.start d = record {
        fits =
            (max_payload_lem enc mtu i count (length (take size rest)) small room (omega arith) few
              short).0;
        reads = from_block-encode_fragment enc d wide (omega arith) few;
        belongs = back seqs.start i start (omega arith);
      } in
      (
        first,
        fragments-IsSound mtu packet seqs count (suc i) left small room start few (omega arith),
      )
    where
      back : (s j : ℕ) → s < 2 ^ 64 → j < 2 ^ 16 → ((s + j) % 2 ^ 64 + 2 ^ 64 - j) % 2 ^ 64 ≡ s
      back s j hs hj = omega arith

  -- At an MTU that leaves room, each fragment that the slicer makes of a packet at a sequence
  -- generator's next number fits in the MTU, is read back from the wire as it was, and has that
  -- number as its message identifier, also where the sequence numbers wrap around.
  pub slice-IsSound :
      (mtu next : ℕ) (packet : List ℕ)
      → mtu < 2 ^ 62
      → fragment_size enc (max16 - 1) max16 mtu < 2 * mtu
      → next < 2 ^ 64
      → All (IsSound mtu next) (slice enc mtu next packet).0
  unfolding slice
  slice-IsSound mtu next packet small room start =
      let count = pieces (length packet) (max_payload enc mtu) % 2 ^ 16 in
      fragments-IsSound mtu packet (record { start = next; count = count }) count 0 count small room
        start (omega arith) (omega arith)
