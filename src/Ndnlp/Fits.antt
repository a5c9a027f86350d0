-- ===== src/Ndnlp/Fits.antt =====
-- The sizes of fragments against the MTU, daemon/face/ndnlp-slicer.cpp.
use nfd_pitless.Base.{
  ℕ, ◌+◌, ◌-◌, ◌*◌, ◌^◌, ◌≤◌, ◌<◌, ◌≡◌, arith, length, ltb, if◌then◌else◌, Bool-cases, inl, inr,
}
use nfd_pitless.Ndnlp.{
  Encoding, max16, fragment_size, element_size, tlv_payload, tlv_sequence, tlv_frag_index,
  tlv_frag_count, tlv_data,
}
use nfd_pitless.Ndnlp.Slicer.{sub_size, estimate_overhead, max_payload}

module _ (enc : Encoding) where
  element_size_mono :
      (kind a b : ℕ) → a ≤ b → element_size enc kind a + b ≤ element_size enc kind b + a
  element_size_mono kind a b h = omega (arith, enc.var_number_mono a b h)

  -- The header fields for an index and a count.
  abbrev header_size : ℕ → ℕ → ℕ
  header_size i n =
      if ltb 1 n
      then element_size enc tlv_frag_count (length (enc.nonnegative n))
        + element_size enc tlv_frag_index (length (enc.nonnegative i))
      else 0

  header_size_mono :
      (i n : ℕ) → i ≤ max16 - 1 → n ≤ max16 → header_size i n ≤ header_size (max16 - 1) max16
  header_size_mono i n hi hn =
      let li = enc.nonnegative_mono i (max16 - 1) hi in
      let ln = enc.nonnegative_mono n max16 hn in
      let ei =
        element_size_mono tlv_frag_index (length (enc.nonnegative i))
          (length (enc.nonnegative (max16 - 1))) li in
      let en =
        element_size_mono tlv_frag_count (length (enc.nonnegative n))
          (length (enc.nonnegative max16)) ln in
      elim (Bool-cases (ltb 1 n)) [
        | inl many ↦ rw many (omega (arith, li, ln, ei, en))
        | inr one ↦ rw one (omega arith)
      ]

  -- What a fragment takes besides its payload grows with each of the numbers.
  grows :
      (i n p m : ℕ)
      → i ≤ max16 - 1
      → n ≤ max16
      → p ≤ m
      → fragment_size enc i n p + m ≤ fragment_size enc (max16 - 1) max16 m + p
  unfolding fragment_size
  grows i n p m hi hn hp =
      let a = element_size enc tlv_payload p + header_size i n + element_size enc tlv_sequence 8 in
      let b =
        element_size enc tlv_payload m
        + header_size (max16 - 1) max16
        + element_size enc tlv_sequence 8 in
      let body : a + m ≤ b + p =
        omega (arith, element_size_mono tlv_payload p m hp, header_size_mono i n hi hn) in
      let le : a ≤ b = omega (arith, body) in outer a b body le
    where
      outer :
          (a b : ℕ)
          → a + m ≤ b + p
          → a ≤ b
          → element_size enc tlv_data a + m ≤ element_size enc tlv_data b + p
      outer a b body le = omega (arith, enc.var_number_mono a b le)

  -- If the fragment that the slicer estimates is less than twice as long as the MTU, each fragment
  -- with an index and a count of 16 bits, the index below the count, and a payload of no more than
  -- the slicer's maximum fits in the MTU, and that maximum is not zero.
  pub max_payload_lem :
      (mtu i n p : ℕ)
      → mtu < 2 ^ 62
      → fragment_size enc (max16 - 1) max16 mtu < 2 * mtu
      → i < n
      → n ≤ max16
      → p ≤ max_payload enc mtu
      → (fragment_size enc i n p ≤ mtu) × (0 < max_payload enc mtu)
  unfolding max_payload estimate_overhead
  max_payload_lem mtu i n p small room hi hn hp =
      let whole = fragment_size enc (max16 - 1) max16 mtu in
      let over : mtu ≤ whole =
        omega (arith, grows 0 0 0 mtu (omega arith) (omega arith) (omega arith)) in
      let o : estimate_overhead enc mtu ≡ whole - mtu = wraps whole mtu (omega arith) over in
      let m : max_payload enc mtu ≡ mtu - (whole - mtu) =
        rw o (wraps mtu (whole - mtu) (omega arith) (omega arith)) in
      let pm : p ≤ mtu = omega (arith, m) in
      (omega (arith, m, grows i n p mtu (omega arith) hn pm), omega (arith, m))
    where
      wraps : (a b : ℕ) → a < 2 ^ 64 → b ≤ a → sub_size a b ≡ a - b
      wraps a b ha hb = omega arith
