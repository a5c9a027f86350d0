-- ===== src/Ndnlp/Reassembly.antt =====
-- Partial messages of daemon/face/ndnlp-partial-message-store.cpp, whichever fragments come.
use mathlib.Core.List.{append-nil}
use nfd_pitless.Base.{
  ℕ, zero, suc, ◌+◌, ◌-◌, ◌<◌, ◌≡◌, ◌∙◌, refl, sym, ap, true, false, not, List, [], ◌∷◌, Option,
  none, some, arith, length, get_elem?, take, replicate, leb, ◌==◌, Bool-cases, inl, inr, All,
}
use nfd_pitless.Ndnlp.Partial.{
  PartialMessage, new_message, resize, is_free, opened, add, is_complete, concat_payloads,
}
use nfd_pitless.Ndnlp.Slots.{
  has_index, filled, covers, count_filled, concat, length-filled, filled-none, set-filled,
  free-filled, filled_again, count-set, count-covers, concat-filled,
}

-- The message holds the payloads `ps` of the seen indices.
record Held (ps : List (List ℕ)) (seen : List ℕ) (m : PartialMessage) : Type 0 where
  slots : m.payloads ≡ filled 0 ps seen
  sized : m.frag_count ≡ length ps
  counted : m.received ≡ count_filled (filled 0 ps seen)

get_elem?-lt :
    {A : Type 0} (xs : List A) (i : ℕ) → i < length xs → (x : A) × (get_elem? xs i ≡ some x)
get_elem?-lt [] i h = absurd (omega arith)
get_elem?-lt (x ∷ xs) zero h = (x, refl)
get_elem?-lt (x ∷ xs) (suc i) h = get_elem?-lt xs i (omega arith)

get_elem?-bound :
    {A : Type 0} (xs : List A) (i : ℕ) (x : A) → get_elem? xs i ≡ some x → i < length xs
get_elem?-bound [] i x h = absurd (cc)
get_elem?-bound (y ∷ xs) zero x h = omega arith
get_elem?-bound (y ∷ xs) (suc i) x h = omega (arith, get_elem?-bound xs i x h)

take_all : {A : Type 0} (xs : List A) → take (length xs) xs ≡ xs
take_all [] = refl
take_all (x ∷ xs) = ap (◌∷◌ x) (take_all xs)

resize_same : (n : ℕ) (slots : List (Option (List ℕ))) → length slots ≡ n → resize n slots ≡ slots
resize_same n slots h =
    let z : n - length slots ≡ 0 = omega arith in
    rw z (append-nil (take n slots) ∙ rw⁻¹ h (take_all slots))

opened-Held :
    (ps : List (List ℕ)) (seen : List ℕ) (m : PartialMessage)
    → Held ps seen m
    → Held ps seen (opened (length ps) m)
unfolding opened
opened-Held ps seen m h = elim (Bool-cases (m.received == 0)) [
  | inl first ↦
      rw (first, opened)
        (record {
          slots =
              rw (h.slots) (resize_same (length ps) (filled 0 ps seen) (length-filled 0 ps seen));
          sized = refl;
          counted = h.counted;
        })
  | inr later ↦ rw (later, opened) h
]

opened-new : (ps : List (List ℕ)) → Held ps [] (opened (length ps) new_message)
unfolding opened
opened-new ps = record {
  slots = empty (length ps) ∙ sym (filled-none 0 ps);
  sized = refl;
  counted = none_yet 0 ps;
}
  where
    empty : (n : ℕ) → resize n [] ≡ replicate n none
    empty zero = refl
    empty (suc n) = let z : suc n - 0 ≡ suc n = omega arith in ap (λ k. replicate k none) z

    none_yet : (k : ℕ) (qs : List (List ℕ)) → 0 ≡ count_filled (filled k qs [])
    none_yet k [] = refl
    none_yet k (q ∷ qs) = none_yet (suc k) qs

add-Held :
    (ps : List (List ℕ)) (seen : List ℕ) (m : PartialMessage) (j : ℕ) (p : List ℕ)
    → get_elem? ps j ≡ some p
    → Held ps seen (opened (length ps) m)
    → Held ps (j ∷ seen) (add j (length ps) p m).0
unfolding add
add-Held ps seen m j p at h =
    let right : ((opened (length ps) m).frag_count == length ps) ≡ true = ground (arith, h.sized) in
    let below : leb (opened (length ps) m).frag_count j ≡ false =
      ground (arith, h.sized, get_elem?-bound ps j p at) in
    let z : 0 + j ≡ j = omega arith in
    let free : is_free j (opened (length ps) m).payloads ≡ not (has_index j seen) =
      rw (h.slots) (free-filled 0 j ps seen p at ∙ ap (λ i. not (has_index i seen)) z) in
    let open_slot : is_free j (filled 0 ps seen) ≡ not (has_index j seen) =
      free-filled 0 j ps seen p at ∙ ap (λ i. not (has_index i seen)) z in
    elim (Bool-cases (has_index j seen)) [
      | inl again ↦ rw right (
          rw below (
            rw free (
              rw again (record {
                slots = h.slots ∙ sym (filled_again 0 j ps seen again);
                sized = h.sized;
                counted = h.counted ∙ ap count_filled (sym (filled_again 0 j ps seen again));
              }))))
      | inr new ↦ rw right (
          rw below (
            rw free (
              rw new (record {
                slots =
                    rw (h.slots) (set-filled 0 j ps seen p at ∙ ap (λ i. filled 0 ps (i ∷ seen)) z);
                sized = h.sized;
                counted = rw (h.counted) (
                    omega (arith, count-set (filled 0 ps seen) j p (open_slot ∙ rw new refl))
                    ∙ ap count_filled
                        (set-filled 0 j ps seen p at ∙ ap (λ i. filled 0 ps (i ∷ seen)) z));
              }))))
    ]

-- Fragments with the indices of a list come, one after the other.
unfoldable pub add_all : List (List ℕ) → List ℕ → PartialMessage → PartialMessage
add_all ps [] m = m
add_all ps (i ∷ is) m =
    let payload : List ℕ = elim (get_elem? ps i) [ none ↦ [] | some p ↦ p ] in
    add_all ps is (add i (length ps) payload m).0

-- The indices seen after those of a list.
abbrev pub seen_after : List ℕ → List ℕ → List ℕ
seen_after [] seen = seen
seen_after (i ∷ is) seen = seen_after is (i ∷ seen)

add_all-Held :
    (ps : List (List ℕ)) (is : List ℕ) (seen : List ℕ) (m : PartialMessage)
    → All (λ i. i < length ps) is
    → Held ps seen m
    → Held ps (seen_after is seen) (add_all ps is m)
unfolding add_all
add_all-Held ps [] seen m below h = h
add_all-Held ps (i ∷ is) seen m below h =
    let (p, at) = get_elem?-lt ps i below.0 in
    rw (at) (
      add_all-Held ps is (i ∷ seen) _ below.1 (add-Held ps seen m i p at (opened-Held ps seen m h)))

-- Of a message in `ps` fragments, whichever fragments come to a new partial message, at least one,
-- in whichever order and however often: it is complete exactly when each index has come, and its
-- slots hold the payloads of those that have come, and no other.
pub add_all_lem :
    (ps : List (List ℕ)) (i : ℕ) (is : List ℕ)
    → All (λ j. j < length ps) (i ∷ is)
    → (is_complete (add_all ps (i ∷ is) new_message) ≡ covers 0 ps (seen_after (i ∷ is) []))
      × ((add_all ps (i ∷ is) new_message).payloads ≡ filled 0 ps (seen_after (i ∷ is) []))
unfolding is_complete add_all
add_all_lem ps i is below =
    let (p, at) = get_elem?-lt ps i below.0 in
    let first = add-Held ps [] new_message i p at (opened-new ps) in
    let payload : List ℕ = elim (get_elem? ps i) [ none ↦ [] | some p ↦ p ] in
    let first' : Held ps (i ∷ []) (add i (length ps) payload new_message).0 = rw at first in
    let h = add_all-Held ps is (i ∷ []) (add i (length ps) payload new_message).0 below.1 first' in
    (rw (h.sized) (rw (h.counted) (count-covers 0 ps (seen_after is (i ∷ [])))), h.slots)

-- If every index of a message has come, in whichever order and however often, to a new partial
-- message, it is complete and what it reassembles is the message.
pub add_all_whole :
    (ps : List (List ℕ)) (i : ℕ) (is : List ℕ)
    → All (λ j. j < length ps) (i ∷ is)
    → covers 0 ps (seen_after (i ∷ is) []) ≡ true
    → (is_complete (add_all ps (i ∷ is) new_message) ≡ true)
      × (concat_payloads (add_all ps (i ∷ is) new_message).payloads ≡ concat ps)
add_all_whole ps i is below all =
    let (c, slots) = add_all_lem ps i is below in
    (c ∙ all, rw slots (concat-filled 0 ps (seen_after (i ∷ is) []) all))
