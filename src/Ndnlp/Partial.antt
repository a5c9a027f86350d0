-- ===== src/Ndnlp/Partial.antt =====
-- Reassembly: daemon/face/ndnlp-partial-message-store.cpp. A payload that is not there yet, an empty
-- Block, is `none`. The map of partial messages is an association list, and the scheduled cleanup
-- of a message its due time.
use nfd_pitless.Base.{
  ℕ, ◌+◌, ◌-◌, ◌%◌, ◌^◌, Bool, true, false, not, ◌||◌, List, [], ◌∷◌, ◌++◌, Option, none, some,
  length, get_elem?, set, take, replicate, if◌then◌else◌, leb, ◌==◌,
}
use nfd_pitless.Ndnlp.{Encoding, NdnlpData}

pub record PartialMessage : Type 0 where
  pub frag_count : ℕ
  pub received : ℕ
  pub payloads : List (Option (List ℕ))
  pub total_length : ℕ

abbrev pub new_message : PartialMessage
new_message = record { frag_count = 0; received = 0; payloads = []; total_length = 0 }

-- std::vector::resize
abbrev pub resize : ℕ → List (Option (List ℕ)) → List (Option (List ℕ))
resize n payloads = take n payloads ++ replicate (n - length payloads) none

unfoldable pub is_free : ℕ → List (Option (List ℕ)) → Bool
is_free i payloads = elim (get_elem? payloads i) [ some none ↦ true | _ ↦ false ]

-- The first packet of a message sizes it.
unfoldable pub opened : ℕ → PartialMessage → PartialMessage
opened frag_count m =
    if m.received == 0
    then record m { frag_count = frag_count; payloads = resize frag_count m.payloads }
    else m

-- PartialMessage::add
unfoldable pub add : ℕ → ℕ → List ℕ → PartialMessage → PartialMessage × Bool
unfolding opened is_free
add frag_index frag_count payload m =
    let sized = opened frag_count m in
    if not (sized.frag_count == frag_count) || leb sized.frag_count frag_index
    then (sized, false)
    else if not (is_free frag_index sized.payloads)
    then (sized, false)
    else (
      record sized {
        payloads = set sized.payloads frag_index (some payload);
        received = sized.received + 1;
        total_length = sized.total_length + length payload;
      },
      true,
    )

-- PartialMessage::isComplete
unfoldable pub is_complete : PartialMessage → Bool
is_complete m = m.received == m.frag_count

-- The bytes that PartialMessage::reassemble copies into its buffer.
abbrev pub concat_payloads : List (Option (List ℕ)) → List ℕ
concat_payloads [] = []
concat_payloads (none ∷ rest) = concat_payloads rest
concat_payloads (some bytes ∷ rest) = bytes ++ concat_payloads rest

-- A message with its cleanup, by its identifier.
pub record Slot : Type 0 where
  pub identifier : ℕ
  pub message : PartialMessage
  pub expiry : ℕ

-- `delivered` has the packets that onReceive was fired with, the oldest first.
pub record Store : Type 0 where
  pub slots : List Slot
  pub idle_duration : ℕ
  pub delivered : List (List ℕ)

-- m_partialMessages[identifier], a new message where there is none.
unfoldable pub message_at : ℕ → List Slot → PartialMessage
message_at identifier [] = new_message
message_at identifier (s ∷ slots) =
    if s.identifier == identifier then s.message else message_at identifier slots

-- m_partialMessages.erase(identifier)
unfoldable pub erase_slot : ℕ → List Slot → List Slot
erase_slot identifier [] = []
erase_slot identifier (s ∷ slots) =
    if s.identifier == identifier then slots else s ∷ erase_slot identifier slots

unfoldable pub put_slot : Slot → List Slot → List Slot
put_slot t [] = t ∷ []
put_slot t (s ∷ slots) = if s.identifier == t.identifier then t ∷ slots else s ∷ put_slot t slots

module _ (enc : Encoding) where
  abbrev pub deliver : Option (List ℕ) → Store → Store
  deliver none s = s
  deliver (some packet) s = record s { delivered = s.delivered ++ packet ∷ [] }

  -- PartialMessageStore::receive
  unfoldable pub receive : ℕ → NdnlpData → Store → Store
  unfolding message_at erase_slot put_slot add is_complete
  receive now pkt s =
      let identifier = (pkt.seq + 2 ^ 64 - pkt.frag_index) % 2 ^ 64 in
      let m = (add pkt.frag_index pkt.frag_count pkt.payload (message_at identifier s.slots)).0 in
      if pkt.frag_count == 1
      then deliver (enc.from_value pkt.payload) s
      else if is_complete m
      then deliver (enc.from_buffer (concat_payloads m.payloads))
          (record s { slots = erase_slot identifier s.slots })
      else record s {
        slots =
            put_slot
              (record { identifier = identifier; message = m; expiry = now + s.idle_duration })
              s.slots;
      }

  -- PartialMessageStore::cleanup
  unfoldable pub cleanup : ℕ → Store → Store
  unfolding erase_slot
  cleanup identifier s = record s { slots = erase_slot identifier s.slots }
