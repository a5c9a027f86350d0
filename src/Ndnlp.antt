-- ===== src/Ndnlp.antt =====
-- NDNLP, the fragments of a packet on a link: daemon/face/ndnlp-data.cpp, ndnlp-slicer.cpp and
-- ndnlp-sequence-generator.cpp. Bytes are numbers. The TLV encoding of ndn-cxx and the byte order
-- of the C library are the parameter `Encoding`.
pub mod Slicer
pub mod Partial
pub mod Wire
pub mod Fits
pub mod Pieces
pub mod Sound
pub mod Slots
pub mod Reassembly
pub mod Isolation
mod Examples
use nfd_pitless.Base.{
  ℕ, zero, suc, ◌+◌, ◌-◌, ◌*◌, ◌%◌, ◌^◌, ◌≤◌, ◌<◌, ◌≡◌, Bool, true, false, not, ◌&&◌, ◌||◌, List,
  [], ◌∷◌, ◌++◌, Option, none, some, length, if◌then◌else◌, ltb, leb, ◌==◌,
}

-- `var_number n` is the size of `n` as a TLV-TYPE or TLV-LENGTH, `nonnegative n` the bytes of `n` as
-- a nonNegativeInteger, which `read_nonnegative` reads unless it throws, and `be64 n` the 8 bytes of
-- `n` in network order. `from_buffer` is Block::fromBuffer and `from_value` Block::blockFromValue,
-- which give the wire of the first block, or fail.
pub record Encoding : Type 0 where
  pub var_number : ℕ → ℕ
  pub var_number_mono : (a b : ℕ) → a ≤ b → var_number a ≤ var_number b
  pub nonnegative : ℕ → List ℕ
  pub nonnegative_mono : (a b : ℕ) → a ≤ b → length (nonnegative a) ≤ length (nonnegative b)
  pub read_nonnegative : List ℕ → Option ℕ
  pub read-nonnegative : (n : ℕ) → n < 2 ^ 64 → read_nonnegative (nonnegative n) ≡ some n
  pub be64 : ℕ → List ℕ
  pub length-be64 : (n : ℕ) → length (be64 n) ≡ 8
  pub read_be64 : List ℕ → ℕ
  pub read-be64 : (n : ℕ) → n < 2 ^ 64 → read_be64 (be64 n) ≡ n
  pub from_buffer : List ℕ → Option (List ℕ)
  pub from_value : List ℕ → Option (List ℕ)

abbrev pub tlv_data : ℕ
tlv_data = 80

abbrev pub tlv_sequence : ℕ
tlv_sequence = 81

abbrev pub tlv_frag_index : ℕ
tlv_frag_index = 82

abbrev pub tlv_frag_count : ℕ
tlv_frag_count = 83

abbrev pub tlv_payload : ℕ
tlv_payload = 84

-- A child element of a block, and a block whose elements are parsed; `none` where parsing throws.
pub record Element : Type 0 where
  pub kind : ℕ
  pub value : List ℕ

pub record Block : Type 0 where
  pub kind : ℕ
  pub elements : Option (List Element)

-- NdnlpData
pub record NdnlpData : Type 0 where
  pub seq : ℕ
  pub frag_index : ℕ
  pub frag_count : ℕ
  pub payload : List ℕ

-- What NdnlpData::fromBlock does: it returns false, it throws, or it returns true and the packet.
pub data Parse : Type 0 where
  rejected thrown : Parse
  parsed : NdnlpData → Parse

-- std::numeric_limits<uint16_t>::max()
abbrev pub max16 : ℕ
max16 = 65535

module _ (enc : Encoding) where
  open enc use {var_number, nonnegative, read_nonnegative, be64, read_be64}

  -- Slicer::encodeFragment into a buffer.
  unfoldable pub encode_fragment : ℕ → ℕ → ℕ → List ℕ → Block
  encode_fragment seq frag_index frag_count payload =
      let sequence : Element = record { kind = tlv_sequence; value = be64 seq } in
      let index : Element = record { kind = tlv_frag_index; value = nonnegative frag_index } in
      let count : Element = record { kind = tlv_frag_count; value = nonnegative frag_count } in
      let last : Element = record { kind = tlv_payload; value = payload } in
      record {
        kind = tlv_data;
        elements = some (
            if ltb 1 frag_count
            then sequence ∷ index ∷ count ∷ last ∷ []
            else sequence ∷ last ∷ []);
      }

  -- The size of an element with a value of a size, and that of a fragment: what encodeFragment
  -- returns, for a buffer and for the estimator alike.
  abbrev pub element_size : ℕ → ℕ → ℕ
  element_size kind value_size = value_size + var_number value_size + var_number kind

  unfoldable pub fragment_size : ℕ → ℕ → ℕ → ℕ
  fragment_size frag_index frag_count payload_size =
      let header =
        if ltb 1 frag_count
        then element_size tlv_frag_count (length (nonnegative frag_count))
          + element_size tlv_frag_index (length (nonnegative frag_index))
        else 0 in
      element_size tlv_data
        (element_size tlv_payload payload_size + header + element_size tlv_sequence 8)

  -- A field of 16 bits.
  unfoldable pub read16 : ℕ → Element → Option (Option ℕ)
  read16 kind e = if not (e.kind == kind) then some none else elim (read_nonnegative e.value) [
    | none ↦ none
    | some n ↦ if ltb max16 n then some none else some (some n)
  ]

  -- The two fields between the sequence and the payload.
  unfoldable pub parse_fields : ℕ → List ℕ → Element → Element → Parse
  unfolding read16
  parse_fields seq payload index count = elim (read16 tlv_frag_index index) [
    | none ↦ thrown
    | some none ↦ rejected
    | some (some i) ↦ elim (read16 tlv_frag_count count) [
      | none ↦ thrown
      | some none ↦ rejected
      | some (some n) ↦
          if leb n i
          then rejected
          else parsed (record { seq = seq; frag_index = i; frag_count = n; payload = payload })
    ]
  ]

  abbrev pub last_of : Element → List Element → Element
  last_of e [] = e
  last_of e (f ∷ fs) = last_of f fs

  -- From the test of the first element on.
  unfoldable pub parse_elements : Element → List Element → Parse
  unfolding parse_fields
  parse_elements first rest =
      let payload = last_of first rest in
      if not (first.kind == tlv_sequence)
      then rejected
      else if not (length first.value == 8)
      then rejected
      else if not (payload.kind == tlv_payload)
      then rejected
      else elim rest [
        | [] ↦ rejected
        | a ∷ [] ↦ parsed (record {
          seq = read_be64 first.value;
          frag_index = 0;
          frag_count = 1;
          payload = payload.value;
        })
        | index ∷ count ∷ last ∷ [] ↦ parse_fields (read_be64 first.value) payload.value index count
        | _ ↦ rejected
      ]

  -- NdnlpData::fromBlock
  unfoldable pub from_block : Block → Parse
  unfolding parse_elements
  from_block wire = if not (wire.kind == tlv_data) then rejected else elim wire.elements [
    | none ↦ thrown
    | some [] ↦ rejected
    | some (e ∷ []) ↦ rejected
    | some (e ∷ f ∷ rest) ↦ parse_elements e (f ∷ rest)
  ]
