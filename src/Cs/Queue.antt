-- ===== src/Cs/Queue.antt =====
-- Lists of iterators and tables without two of one place, for daemon/table/cs.cpp.
use nfd_pitless.Base.{
  ◌+◌, ◌≡◌, ◌↔◌, refl, Bool, true, false, not, ◌&&◌, ◌||◌, List, [], ◌∷◌, ◌++◌, arith, any_of,
  erase_if, length, Bool-cases, inl, inr,
}

-- Lists of A that are told apart by a key with a Boolean equality.
module _ {A K : Type 0} (key : A → K) (eq : K → K → Bool)
    (eq_iff : (i j : K) → (eq i j ≡ true) ↔ (i ≡ j)) where
  abbrev pub has_key : K → List A → Bool
  has_key i xs = any_of (λ x. eq (key x) i) xs

  abbrev pub erase_key : K → List A → List A
  erase_key i xs = erase_if (λ x. eq (key x) i) xs

  -- No two have one key.
  abbrev pub NoTwo : List A → Type 0
  NoTwo [] = Unit {0}
  NoTwo (x ∷ xs) = (has_key (key x) xs ≡ false) × NoTwo xs

  pub has-append : (i : K) (xs ys : List A) → has_key i (xs ++ ys) ≡ (has_key i xs || has_key i ys)
  has-append i [] ys = refl
  has-append i (x ∷ xs) ys = ground (arith, has-append i xs ys)

  pub length-erase :
      (i : K) (xs : List A) → has_key i xs ≡ true → length (erase_key i xs) + 1 ≡ length xs
  length-erase i [] h = absurd (cc)
  length-erase i (x ∷ xs) h = elim (Bool-cases (eq (key x) i)) [
    | inl hit ↦ ground arith
    | inr off ↦ ground (arith, length-erase i xs (ground arith))
  ]

  pub has-erase :
      (i j : K) (xs : List A)
      → NoTwo xs
      → has_key j (erase_key i xs) ≡ (not (eq i j) && has_key j xs)
  has-erase i j [] h = ground arith
  has-erase i j (x ∷ xs) h = elim (Bool-cases (eq (key x) i)) [
    | inl hit ↦ ground (arith, eq_iff (key x) i, eq_iff (key x) j, eq_iff i j, h.0)
    | inr off ↦ ground (arith, eq_iff (key x) i, eq_iff (key x) j, eq_iff i j, has-erase i j xs h.1)
  ]

  pub erase-NoTwo : (i : K) (xs : List A) → NoTwo xs → NoTwo (erase_key i xs)
  erase-NoTwo i [] h = tt
  erase-NoTwo i (x ∷ xs) h = elim (Bool-cases (eq (key x) i)) [
    | inl hit ↦ rw hit h.1
    | inr off ↦ rw off (ground (arith, has-erase i (key x) xs h.1, h.0), erase-NoTwo i xs h.1)
  ]

  pub append-NoTwo :
      (x : A) (xs : List A) → has_key (key x) xs ≡ false → NoTwo xs → NoTwo (xs ++ x ∷ [])
  append-NoTwo x [] fresh h = (refl, tt)
  append-NoTwo x (y ∷ ys) fresh h = (
    ground (
      arith,
      has-append (key y) ys (x ∷ []),
      h.0,
      eq_iff (key x) (key y),
      eq_iff (key y) (key x),
    ),
    append-NoTwo x ys (ground arith) h.1,
  )
