-- ===== src/Ndnlp/Examples.antt =====
-- NDNLP at concrete inputs. The encoding of the tests keeps a number in one place.
use nfd_pitless.Base.{
  ℕ, ◌≡◌, ◌≤◌, refl, true, List, [], ◌∷◌, Option, none, some, All, arith, if◌then◌else◌, ltb,
}
use nfd_pitless.Ndnlp.{Encoding, NdnlpData, parsed, from_block, encode_fragment, fragment_size}
use nfd_pitless.Ndnlp.Slicer.{slice}
use nfd_pitless.Ndnlp.Isolation.{receive-message_at}
use nfd_pitless.Ndnlp.Partial.{
  Store, message_at, receive, cleanup, new_message, is_complete, concat_payloads,
}
use nfd_pitless.Ndnlp.Wire.{from_block-encode_fragment}
use nfd_pitless.Ndnlp.Sound.{IsSound, slice-IsSound}
use nfd_pitless.Ndnlp.Reassembly.{add_all, add_all_whole}

abbrev var_number : ℕ → ℕ
var_number n =
    if ltb n 253 then 1 else if ltb n 65536 then 3 else if ltb n 4_294_967_296 then 5 else 9

var_number_mono : (a b : ℕ) → a ≤ b → var_number a ≤ var_number b
var_number_mono a b h = ground arith

abbrev read_head : List ℕ → Option ℕ
read_head [] = none
read_head (n ∷ rest) = some n

abbrev head_of : List ℕ → ℕ
head_of [] = 0
head_of (n ∷ rest) = n

abbrev plain : Encoding
plain = record {
  var_number = var_number;
  var_number_mono = var_number_mono;
  nonnegative = λ n. n ∷ [];
  nonnegative_mono = λ a b h. omega arith;
  read_nonnegative = read_head;
  read-nonnegative = λ n h. refl;
  be64 = λ n. n ∷ 0 ∷ 0 ∷ 0 ∷ 0 ∷ 0 ∷ 0 ∷ 0 ∷ [];
  length-be64 = λ n. refl;
  read_be64 = head_of;
  read-be64 = λ n h. refl;
  from_buffer = some;
  from_value = some;
}

abbrev fragment : NdnlpData
fragment = record { seq = 9; frag_index = 1; frag_count = 3; payload = 4 ∷ 5 ∷ [] }

from_block-encode_fragment_example :
    from_block plain (encode_fragment plain 9 1 3 (4 ∷ 5 ∷ [])) ≡ parsed fragment
from_block-encode_fragment_example =
    from_block-encode_fragment plain fragment (omega arith) (omega arith) (omega arith)

abbrev packet : List ℕ
packet = 1 ∷ 2 ∷ 3 ∷ 4 ∷ 5 ∷ 6 ∷ 7 ∷ 8 ∷ []

slice-IsSound_example : All (IsSound plain 25 7) (slice plain 25 7 packet).0
unfolding fragment_size
slice-IsSound_example = slice-IsSound plain 25 7 packet (omega arith) (omega arith) (omega arith)

abbrev parts : List (List ℕ)
parts = (1 ∷ 2 ∷ []) ∷ (3 ∷ []) ∷ (4 ∷ []) ∷ []

add_all_whole_example :
    (is_complete (add_all parts (2 ∷ 0 ∷ 1 ∷ []) new_message) ≡ true)
    × (concat_payloads (add_all parts (2 ∷ 0 ∷ 1 ∷ []) new_message).payloads ≡ 1 ∷ 2 ∷ 3 ∷ 4 ∷ [])
add_all_whole_example =
    add_all_whole parts 2 (0 ∷ 1 ∷ []) (omega arith, (omega arith, (omega arith, tt))) refl

abbrev store : Store
store = record {
  slots = record { identifier = 3; message = new_message; expiry = 100 } ∷ [];
  idle_duration = 100;
  delivered = [];
}

receive-message_at_example :
    (message_at 3 (receive plain 5 fragment store).slots ≡ new_message)
    × (message_at 3 (cleanup plain 8 store).slots ≡ new_message)
unfolding message_at
receive-message_at_example = receive-message_at plain 5 3 fragment store 8 refl refl
