-- ===== src/Ndnlp/Pieces.antt =====
-- The payloads that daemon/face/ndnlp-slicer.cpp cuts a packet into.
use native.Mathlib.Omega.{div_any}
use native.Mathlib.Nat.{mod-lt, mod-eq_of_lt, suc-mul}
use nfd_pitless.Base.{
  ℕ, zero, suc, ◌+◌, ◌-◌, ◌*◌, ◌%◌, ◌^◌, ◌≤◌, ◌<◌, ◌≡◌, ◌∙◌, ◌⊎◌, leb, min, refl, sym, ap, List, [],
  ◌∷◌, ◌++◌, map, arith, length, take, drop, length-drop, ◌==◌, Bool-cases, inl, inr,
}
use nfd_pitless.Ndnlp.{Encoding}
use nfd_pitless.Ndnlp.Slicer.{SequenceBlock, pieces, payload_at, fragments, slice, max_payload}
use nfd_pitless.Ndnlp.Slots.{concat}

take-drop : {A : Type 0} (n : ℕ) (xs : List A) → take n xs ++ drop n xs ≡ xs
take-drop zero xs = refl
take-drop (suc n) [] = refl
take-drop (suc n) (x ∷ xs) = ap (◌∷◌ x) (take-drop n xs)

drop_nil : {A : Type 0} (n : ℕ) → drop {A = A} n [] ≡ []
drop_nil zero = refl
drop_nil (suc n) = refl

drop-add : {A : Type 0} (m n : ℕ) (xs : List A) → drop n (drop m xs) ≡ drop (m + n) xs
drop-add zero n xs = let z : n ≡ 0 + n = omega arith in ap (λ k. drop k xs) z
drop-add (suc m) n [] = drop_nil n ∙ sym (drop_nil (suc m + n))
drop-add (suc m) n (x ∷ xs) =
    let s : suc m + n ≡ suc (m + n) = omega arith in
    drop-add m n xs ∙ ap (λ k. drop k (x ∷ xs)) (sym s)

take_long : {A : Type 0} (n : ℕ) (xs : List A) → length xs ≤ n → take n xs ≡ xs
take_long zero [] h = refl
take_long zero (x ∷ xs) h = absurd (omega arith)
take_long (suc n) [] h = refl
take_long (suc n) (x ∷ xs) h = ap (◌∷◌ x) (take_long n xs (omega arith))

take-min : {A : Type 0} (n : ℕ) (xs : List A) → take (min n (length xs)) xs ≡ take n xs
take-min n xs = elim (dec-le n (length xs)) [
  | inl small ↦ let e : min n (length xs) ≡ n = omega arith in ap (λ k. take k xs) e
  | inr large ↦
      let e : min n (length xs) ≡ length xs = omega arith in
      ap (λ k. take k xs) e
      ∙ take_long (length xs) xs (omega arith)
      ∙ sym (take_long n xs (omega arith))
]
  where
    dec-le : (a b : ℕ) → (a ≤ b) ⊎ (b ≤ a)
    dec-le a b = elim (Bool-cases (leb a b)) [
      | inl y ↦ inl (ground arith)
      | inr n ↦ inr (ground arith)
    ]

drop_all : {A : Type 0} (n : ℕ) (xs : List A) → length xs ≤ n → drop n xs ≡ []
drop_all zero [] h = refl
drop_all zero (x ∷ xs) h = absurd (omega arith)
drop_all (suc n) [] h = refl
drop_all (suc n) (x ∷ xs) h = drop_all n xs (omega arith)

enough : (size max : ℕ) → 0 < max → size ≤ pieces size max * max
enough size max positive =
    let whole = div_any size max in
    let rest = mod-lt size positive in
    elim (Bool-cases (size % max == 0)) [
      | inl even ↦ rw even (grind (arith, whole))
      | inr odd ↦ rw odd (grind (arith, whole, rest))
    ]

module _ (enc : Encoding) where
  concat-fragments :
      (max : ℕ) (packet : List ℕ) (seqs : SequenceBlock) (count i left : ℕ)
      → length packet ≤ (i + left) * max
      → concat (map (λ d. d.payload) (fragments enc max packet seqs count i left))
        ≡ drop (i * max) packet
  unfolding fragments payload_at
  concat-fragments max packet seqs count i zero h =
      let e : i + 0 ≡ i = omega arith in sym (drop_all (i * max) packet (rw⁻¹ e h))
  concat-fragments max packet seqs count i (suc left) h =
      let rest = drop (i * max) packet in
      let shift : suc i + left ≡ i + suc left = omega arith in
      let next : i * max + max ≡ suc i * max = sym (suc-mul i max) in
      let first : take (min max (length packet - i * max)) rest ≡ take max rest =
        ap (λ k. take (min max k) rest) (sym (length-drop (i * max) packet)) ∙ take-min max rest in
      let tail = concat-fragments max packet seqs count (suc i) left (rw shift h) in
      rw first (rw tail (rw⁻¹ next (rw⁻¹ (drop-add (i * max) max packet) (take-drop max rest))))

  -- If a fragment may have a payload, and the packet needs no more fragments than a 16-bit count can
  -- tell, the payloads of the slicer's fragments, one after the other, are the packet.
  pub slice_lem :
      (mtu next : ℕ) (packet : List ℕ)
      → 0 < max_payload enc mtu
      → pieces (length packet) (max_payload enc mtu) < 2 ^ 16
      → concat (map (λ d. d.payload) (slice enc mtu next packet).0) ≡ packet
  unfolding slice
  slice_lem mtu next packet positive few =
      let max = max_payload enc mtu in
      let exact : pieces (length packet) max % 2 ^ 16 ≡ pieces (length packet) max =
        mod-eq_of_lt few in
      let z : 0 + pieces (length packet) max ≡ pieces (length packet) max = omega arith in
      let start : 0 * max ≡ 0 = omega arith in
      rw exact (
        concat-fragments max packet (record { start = next; count = pieces (length packet) max })
          (pieces (length packet) max) 0 (pieces (length packet) max)
          (rw z (enough (length packet) max positive))
        ∙ ap (λ k. drop k packet) start)
