-- ===== src/Ndnlp/Slicer.antt =====
-- The slicer and its sequence numbers: daemon/face/ndnlp-slicer.cpp and ndnlp-sequence-generator.cpp
-- with 64-bit size_t. Differences of size_t wrap around.
use nfd_pitless.Base.{
  ℕ, zero, suc, ◌+◌, ◌-◌, ◌*◌, ◌/◌, ◌%◌, ◌^◌, min, List, [], ◌∷◌, length, take, drop, if◌then◌else◌,
  ◌==◌,
}
use nfd_pitless.Ndnlp.{Encoding, NdnlpData, max16, fragment_size}

abbrev pub sub_size : ℕ → ℕ → ℕ
sub_size a b = (a + 2 ^ 64 - b) % 2 ^ 64

-- SequenceBlock, and its operator[] within the block.
pub record SequenceBlock : Type 0 where
  pub start : ℕ
  pub count : ℕ

abbrev pub nth_sequence : SequenceBlock → ℕ → ℕ
nth_sequence b pos = (b.start + pos) % 2 ^ 64

-- SequenceGenerator::nextBlock: the block, and the next number.
abbrev pub next_block : ℕ → ℕ → SequenceBlock × ℕ
next_block next count = (record { start = next; count = count }, (next + count) % 2 ^ 64)

-- The quotient, rounded up.
abbrev pub pieces : ℕ → ℕ → ℕ
pieces size max_payload = size / max_payload + (if size % max_payload == 0 then 0 else 1)

module _ (enc : Encoding) where
  -- Slicer::estimateOverhead
  unfoldable pub estimate_overhead : ℕ → ℕ
  estimate_overhead mtu = sub_size (fragment_size enc (max16 - 1) max16 mtu) mtu

  unfoldable pub max_payload : ℕ → ℕ
  unfolding estimate_overhead
  max_payload mtu = sub_size mtu (estimate_overhead mtu)

  -- The payload of a fragment.
  unfoldable pub payload_at : ℕ → List ℕ → ℕ → List ℕ
  payload_at max packet frag_index =
      let offset = frag_index * max in take (min max (length packet - offset)) (drop offset packet)

  -- The fragments from an index on; `left` counts those that are left.
  unfoldable pub fragments : ℕ → List ℕ → SequenceBlock → ℕ → ℕ → ℕ → List NdnlpData
  unfolding payload_at
  fragments max packet seqs frag_count frag_index zero = []
  fragments max packet seqs frag_count frag_index (suc left) =
      record {
        seq = nth_sequence seqs frag_index;
        frag_index = frag_index;
        frag_count = frag_count;
        payload = payload_at max packet frag_index;
      }
      ∷ fragments max packet seqs frag_count (suc frag_index) left

  -- Slicer::slice at a sequence generator's next number: the fragments, each of which
  -- encodeFragment puts on the wire, and the next number.
  unfoldable pub slice : ℕ → ℕ → List ℕ → List NdnlpData × ℕ
  unfolding max_payload fragments
  slice mtu next packet =
      let max = max_payload mtu in
      let frag_count = pieces (length packet) max % 2 ^ 16 in
      let (seqs, next') = next_block next frag_count in
      (fragments max packet seqs frag_count 0 frag_count, next')
