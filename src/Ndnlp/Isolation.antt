-- ===== src/Ndnlp/Isolation.antt =====
-- Several messages in the store of daemon/face/ndnlp-partial-message-store.cpp.
use nfd_pitless.Base.{
  ℕ, ◌+◌, ◌-◌, ◌%◌, ◌^◌, ◌≡◌, refl, false, List, [], ◌∷◌, Option, none, some, arith, ◌==◌, if_keeps,
}
use nfd_pitless.Ndnlp.{Encoding, NdnlpData}
use nfd_pitless.Ndnlp.Partial.{
  Slot, Store, message_at, erase_slot, put_slot, add, is_complete, concat_payloads, deliver,
  receive, cleanup,
}

message-erase_slot :
    (i j : ℕ) (slots : List Slot)
    → (i == j) ≡ false
    → message_at j (erase_slot i slots) ≡ message_at j slots
unfolding message_at erase_slot
message-erase_slot i j [] h = refl
message-erase_slot i j (s ∷ slots) h = ground (arith, message-erase_slot i j slots h)

message-put_slot :
    (t : Slot) (j : ℕ) (slots : List Slot)
    → (t.identifier == j) ≡ false
    → message_at j (put_slot t slots) ≡ message_at j slots
unfolding message_at put_slot
message-put_slot t j [] h = rw h refl
message-put_slot t j (s ∷ slots) h = ground (arith, message-put_slot t j slots h)

module _ (enc : Encoding) where
  deliver-slots : (o : Option (List ℕ)) (s : Store) → (deliver enc o s).slots ≡ s.slots
  deliver-slots none s = refl
  deliver-slots (some packet) s = refl

  -- A fragment, and the cleanup of a message, change no partial message but the one with their
  -- identifier, which for a fragment is its sequence number less its index, with 64 bits.
  pub receive-message_at :
      (now j : ℕ) (pkt : NdnlpData) (s : Store) (i : ℕ)
      → (((pkt.seq + 2 ^ 64 - pkt.frag_index) % 2 ^ 64) == j) ≡ false
      → (i == j) ≡ false
      → (message_at j (receive enc now pkt s).slots ≡ message_at j s.slots)
        × (message_at j (cleanup enc i s).slots ≡ message_at j s.slots)
  unfolding receive cleanup
  receive-message_at now j pkt s i other apart =
      let id = (pkt.seq + 2 ^ 64 - pkt.frag_index) % 2 ^ 64 in
      let m = (add pkt.frag_index pkt.frag_count pkt.payload (message_at id s.slots)).0 in
      let Same : Store → Type 0 = λ t. message_at j t.slots ≡ message_at j s.slots in
      let erased : Store = record s { slots = erase_slot id s.slots } in
      let gone : Same erased = message-erase_slot id j s.slots other in
      (
        if_keeps Same (pkt.frag_count == 1) (deliver enc (enc.from_value pkt.payload) s) _
            (rw (deliver-slots (enc.from_value pkt.payload) s) refl)
            (if_keeps Same (is_complete m)
              (deliver enc (enc.from_buffer (concat_payloads m.payloads)) erased) _
              (rw (deliver-slots (enc.from_buffer (concat_payloads m.payloads)) erased) gone)
              (message-put_slot
                (record { identifier = id; message = m; expiry = now + s.idle_duration }) j s.slots
                other)),
        message-erase_slot i j s.slots apart,
      )
