-- ===== src/NameTree/Chains.antt =====
-- A node that leaves a chain of daemon/table/name-tree.cpp.
use nfd_pitless.Base.{
  ℕ, zero, suc, ◌+◌, ◌≡◌, refl, Bool, true, false, List, [], ◌∷◌, none, some, arith, find_if,
  count_if, erase_if, Bool-cases, inl, inr,
}
use nfd_pitless.NameTree.{flatten, bucket_at, change_at}
use nfd_pitless.NameTree.Buckets.{count_if-append}

module _ {A : Type 0} where
  count_if-erase_if :
      (p m : A → Bool) (x : A) (xs : List A)
      → find_if m xs ≡ some x
      → count_if p (x ∷ []) + count_if p (erase_if m xs) ≡ count_if p xs
  count_if-erase_if p m x [] h = absurd (cc)
  count_if-erase_if p m x (y ∷ ys) h = elim (Bool-cases (m y)) [
    | inl hit ↦ let same : y ≡ x = ground (arith, h, hit) in rw (hit, same) (ground arith)
    | inr off ↦ rw off (ground (arith, count_if-erase_if p m x ys (ground (arith, h, off))))
  ]

  pub count_if-erased :
      (p m : A → Bool) (x : A) (i : ℕ) (bs : List (List A))
      → find_if m (bucket_at i bs) ≡ some x
      → count_if p (x ∷ []) + count_if p (flatten (change_at i (erase_if m) bs))
        ≡ count_if p (flatten bs)
  unfolding bucket_at change_at flatten
  count_if-erased p m x i [] h = absurd (cc)
  count_if-erased p m x zero (b ∷ bs) h = omega (
    arith,
    count_if-append p (erase_if m b) (flatten bs),
    count_if-append p b (flatten bs),
    count_if-erase_if p m x b h,
  )
  count_if-erased p m x (suc i) (b ∷ bs) h = omega (
    arith,
    count_if-append p b (flatten (change_at i (erase_if m) bs)),
    count_if-append p b (flatten bs),
    count_if-erased p m x i bs h,
  )

  pub find_if-erase_if :
      (p m : A → Bool) (xs : List A)
      → ((x : A) → p x ≡ true → m x ≡ false)
      → find_if p (erase_if m xs) ≡ find_if p xs
  find_if-erase_if p m [] h = refl
  find_if-erase_if p m (x ∷ xs) h = elim (Bool-cases (p x)) [
    | inl hit ↦ rw (h x hit) (rw hit refl)
    | inr off ↦ elim (Bool-cases (m x)) [
      | inl gone ↦ rw (gone, off) refl
      | inr stays ↦ rw stays (rw off (find_if-erase_if p m xs h))
    ]
  ]

  pub none_counted : (p : A → Bool) (xs : List A) → count_if p xs ≡ 0 → find_if p xs ≡ none
  none_counted p [] h = refl
  none_counted p (x ∷ xs) h = elim (Bool-cases (p x)) [
    | inl hit ↦ absurd (ground (arith, h, hit))
    | inr off ↦ rw off (none_counted p xs (ground (arith, h, off)))
  ]

  pub found_passes : (p : A → Bool) (x : A) (xs : List A) → find_if p xs ≡ some x → p x ≡ true
  found_passes p x [] h = absurd (cc)
  found_passes p x (y ∷ ys) h = elim (Bool-cases (p y)) [
    | inl hit ↦ ground (arith, h, hit)
    | inr off ↦ found_passes p x ys (ground (arith, h, off))
  ]
