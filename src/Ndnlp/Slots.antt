-- ===== src/Ndnlp/Slots.antt =====
-- The payload slots of a partial message (daemon/face/ndnlp-partial-message-store.cpp).
use nfd_pitless.Base.{
  ℕ, zero, suc, ◌+◌, ◌≤◌, ◌<◌, ◌≡◌, ◌∙◌, refl, sym, ap, Bool, true, false, not, ◌&&◌, List, [], ◌∷◌,
  ◌++◌, Option, none, some, arith, length, get_elem?, set, replicate, any_of, ◌==◌, if◌then◌else◌,
  Bool-cases, inl, inr,
}
use nfd_pitless.Ndnlp.Partial.{is_free, concat_payloads}

abbrev pub has_index : ℕ → List ℕ → Bool
has_index i seen = any_of (λ j. j == i) seen

-- The slots for payloads from an index on, of which those with a seen index are filled.
abbrev pub filled : ℕ → List (List ℕ) → List ℕ → List (Option (List ℕ))
filled k [] seen = []
filled k (p ∷ ps) seen = (if has_index k seen then some p else none) ∷ filled (suc k) ps seen

-- Every index has been seen.
abbrev pub covers : ℕ → List (List ℕ) → List ℕ → Bool
covers k [] seen = true
covers k (p ∷ ps) seen = has_index k seen && covers (suc k) ps seen

abbrev pub count_filled : List (Option (List ℕ)) → ℕ
count_filled [] = 0
count_filled (none ∷ slots) = count_filled slots
count_filled (some p ∷ slots) = suc (count_filled slots)

abbrev pub concat : List (List ℕ) → List ℕ
concat [] = []
concat (p ∷ ps) = p ++ concat ps

pub length-filled :
    (k : ℕ) (ps : List (List ℕ)) (seen : List ℕ) → length (filled k ps seen) ≡ length ps
length-filled k [] seen = refl
length-filled k (p ∷ ps) seen = ap suc (length-filled (suc k) ps seen)

pub filled-none : (k : ℕ) (ps : List (List ℕ)) → filled k ps [] ≡ replicate (length ps) none
filled-none k [] = refl
filled-none k (p ∷ ps) = ap (◌∷◌ none) (filled-none (suc k) ps)

filled_past :
    (k i : ℕ) (ps : List (List ℕ)) (seen : List ℕ)
    → i < k
    → filled k ps (i ∷ seen) ≡ filled k ps seen
filled_past k i [] seen h = refl
filled_past k i (p ∷ ps) seen h =
    let off : (i == k) ≡ false = ground arith in
    rw off (
      ap (◌∷◌ (if has_index k seen then some p else none))
        (filled_past (suc k) i ps seen (omega arith)))

pub set-filled :
    (k j : ℕ) (ps : List (List ℕ)) (seen : List ℕ) (p : List ℕ)
    → get_elem? ps j ≡ some p
    → set (filled k ps seen) j (some p) ≡ filled k ps ((k + j) ∷ seen)
set-filled k j [] seen p h = absurd (cc)
set-filled k zero (q ∷ ps) seen p h =
    let hit : ((k + 0) == k) ≡ true = ground arith in
    let same : q ≡ p = ground arith in
    rw hit (rw same (ap (◌∷◌ (some p)) (sym (filled_past (suc k) (k + 0) ps seen (omega arith)))))
set-filled k (suc j) (q ∷ ps) seen p h =
    let off : ((k + suc j) == k) ≡ false = ground arith in
    let next : suc k + j ≡ k + suc j = omega arith in
    rw off (
      ap (◌∷◌ (if has_index k seen then some q else none))
        (set-filled (suc k) j ps seen p h ∙ ap (λ i. filled (suc k) ps (i ∷ seen)) next))

pub free-filled :
    (k j : ℕ) (ps : List (List ℕ)) (seen : List ℕ) (p : List ℕ)
    → get_elem? ps j ≡ some p
    → is_free j (filled k ps seen) ≡ not (has_index (k + j) seen)
unfolding is_free
free-filled k j [] seen p h = absurd (cc)
free-filled k zero (q ∷ ps) seen p h =
    let e : k + 0 ≡ k = omega arith in
    rw e (elim (Bool-cases (has_index k seen)) [ inl hit ↦ rw hit refl | inr off ↦ rw off refl ])
free-filled k (suc j) (q ∷ ps) seen p h =
    let e : suc k + j ≡ k + suc j = omega arith in
    free-filled (suc k) j ps seen p h ∙ ap (λ i. not (has_index i seen)) e

pub filled_again :
    (k j : ℕ) (ps : List (List ℕ)) (seen : List ℕ)
    → has_index j seen ≡ true
    → filled k ps (j ∷ seen) ≡ filled k ps seen
filled_again k j [] seen h = refl
filled_again k j (p ∷ ps) seen h = elim (Bool-cases (j == k)) [
  | inl hit ↦
      let e : j ≡ k = ground arith in
      let there : has_index k seen ≡ true = rw⁻¹ e h in
      rw hit (rw there (ap (◌∷◌ (some p)) (filled_again (suc k) j ps seen h)))
  | inr off ↦
      rw off
        (ap (◌∷◌ (if has_index k seen then some p else none)) (filled_again (suc k) j ps seen h))
]

pub count-set :
    (slots : List (Option (List ℕ))) (j : ℕ) (p : List ℕ)
    → is_free j slots ≡ true
    → count_filled (set slots j (some p)) ≡ suc (count_filled slots)
unfolding is_free
count-set [] j p h = absurd (cc)
count-set (none ∷ slots) zero p h = refl
count-set (some q ∷ slots) zero p h = absurd (cc)
count-set (none ∷ slots) (suc j) p h = count-set slots j p h
count-set (some q ∷ slots) (suc j) p h = ap suc (count-set slots j p h)

pub count_filled_le :
    (k : ℕ) (ps : List (List ℕ)) (seen : List ℕ) → count_filled (filled k ps seen) ≤ length ps
count_filled_le k [] seen = omega arith
count_filled_le k (p ∷ ps) seen = elim (Bool-cases (has_index k seen)) [
  | inl hit ↦ rw hit (omega (arith, count_filled_le (suc k) ps seen))
  | inr off ↦ rw off (omega (arith, count_filled_le (suc k) ps seen))
]

pub count-covers :
    (k : ℕ) (ps : List (List ℕ)) (seen : List ℕ)
    → (count_filled (filled k ps seen) == length ps) ≡ covers k ps seen
count-covers k [] seen = refl
count-covers k (p ∷ ps) seen = elim (Bool-cases (has_index k seen)) [
  | inl hit ↦ rw hit (ground (arith, count-covers (suc k) ps seen))
  | inr off ↦ rw off (ground (arith, count_filled_le (suc k) ps seen))
]

pub concat-filled :
    (k : ℕ) (ps : List (List ℕ)) (seen : List ℕ)
    → covers k ps seen ≡ true
    → concat_payloads (filled k ps seen) ≡ concat ps
concat-filled k [] seen h = refl
concat-filled k (p ∷ ps) seen h = elim (Bool-cases (has_index k seen)) [
  | inl hit ↦ rw hit (ap (λ rest. p ++ rest) (concat-filled (suc k) ps seen (ground arith)))
  | inr off ↦ absurd (ground arith)
]
