-- ===== src/NameTree/Buckets.antt =====
-- Lists of chains, for the buckets of daemon/table/name-tree.cpp.
use nfd_pitless.Base.{
  ℕ, zero, suc, ◌+◌, ◌<◌, ◌≡◌, ◌≢◌, ◌∙◌, refl, sym, ap, Bool, true, false, List, [], ◌∷◌, ◌++◌, map,
  Option, none, some, arith, find_if, copy_if, count_if, length, replicate, All, All-append,
  Bool-cases, inl, inr,
}
use nfd_pitless.NameTree.{or_else, flatten, bucket_at, change_at}

abbrev pub on_some : {A B : Type 0} → (A → B) → Option A → Option B
on_some f none = none
on_some f (some x) = some (f x)

pub or_else-none : {A : Type 0} (x : Option A) → or_else x none ≡ x
or_else-none none = refl
or_else-none (some x) = refl

module _ {A : Type 0} where
  pub find_if-append :
      (p : A → Bool) (xs ys : List A) → find_if p (xs ++ ys) ≡ or_else (find_if p xs) (find_if p ys)
  find_if-append p [] ys = refl
  find_if-append p (x ∷ xs) ys = elim (Bool-cases (p x)) [
    | inl hit ↦ rw hit refl
    | inr off ↦ rw off (find_if-append p xs ys)
  ]

  pub count_if-append :
      (p : A → Bool) (xs ys : List A) → count_if p (xs ++ ys) ≡ count_if p xs + count_if p ys
  count_if-append p [] ys = omega arith
  count_if-append p (x ∷ xs) ys = ground (arith, count_if-append p xs ys)

  -- No element passes a test that none passes.
  pub nothing_found : (p : A → Bool) (xs : List A) → All (λ x. p x ≡ false) xs → find_if p xs ≡ none
  nothing_found p [] h = refl
  nothing_found p (x ∷ xs) h = rw h.0 (nothing_found p xs h.1)

  pub All-weaken : {P Q : A → Type 0} (xs : List A) → ((x : A) → P x → Q x) → All P xs → All Q xs
  All-weaken [] f h = tt
  All-weaken (x ∷ xs) f h = (f x h.0, All-weaken xs f h.1)

  -- Of the elements that a test keeps, all that another test asks for.
  pub find_if-copy_if :
      (p c : A → Bool) (xs : List A)
      → ((x : A) → p x ≡ true → c x ≡ true)
      → find_if p (copy_if c xs) ≡ find_if p xs
  find_if-copy_if p c [] h = refl
  find_if-copy_if p c (x ∷ xs) h = elim (Bool-cases (p x)) [
    | inl hit ↦ rw (hit, h x hit) (rw hit refl)
    | inr off ↦ elim (Bool-cases (c x)) [
      | inl kept ↦ rw (off, kept) (rw off (find_if-copy_if p c xs h))
      | inr dropped ↦ rw (off, dropped) (find_if-copy_if p c xs h)
    ]
  ]

  -- Two tests that agree on the elements find the same.
  pub find_if_same :
      (p q : A → Bool) (xs : List A) → All (λ x. p x ≡ q x) xs → find_if p xs ≡ find_if q xs
  find_if_same p q [] h = refl
  find_if_same p q (x ∷ xs) h = elim (Bool-cases (q x)) [
    | inl hit ↦ rw (h.0, hit) refl
    | inr off ↦ rw (h.0, off) (find_if_same p q xs h.1)
  ]

  pub length-change_at :
      (i : ℕ) (f : List A → List A) (bs : List (List A)) → length (change_at i f bs) ≡ length bs
  unfolding change_at
  length-change_at i f [] = refl
  length-change_at zero f (b ∷ bs) = refl
  length-change_at (suc i) f (b ∷ bs) = ap suc (length-change_at i f bs)

  pub bucket_at-changed :
      (i : ℕ) (f : List A → List A) (bs : List (List A))
      → i < length bs
      → bucket_at i (change_at i f bs) ≡ f (bucket_at i bs)
  unfolding change_at bucket_at
  bucket_at-changed i f [] h = absurd (omega (arith, h))
  bucket_at-changed zero f (b ∷ bs) h = refl
  bucket_at-changed (suc i) f (b ∷ bs) h = bucket_at-changed i f bs (omega (arith, h))

  pub bucket_at_others :
      (i j : ℕ) (f : List A → List A) (bs : List (List A))
      → i ≢ j
      → bucket_at i (change_at j f bs) ≡ bucket_at i bs
  unfolding change_at bucket_at
  bucket_at_others i j f [] h = refl
  bucket_at_others zero zero f (b ∷ bs) h = absurd (h refl)
  bucket_at_others zero (suc j) f (b ∷ bs) h = refl
  bucket_at_others (suc i) zero f (b ∷ bs) h = refl
  bucket_at_others (suc i) (suc j) f (b ∷ bs) h = bucket_at_others i j f bs (λ e. h (ap suc e))

  pub bucket_at-replicate : (i n : ℕ) → bucket_at {A = A} i (replicate n []) ≡ []
  unfolding bucket_at
  bucket_at-replicate i zero = refl
  bucket_at-replicate zero (suc n) = refl
  bucket_at-replicate (suc i) (suc n) = bucket_at-replicate i n

  pub flatten-replicate : (n : ℕ) → flatten {A = A} (replicate n []) ≡ []
  unfolding flatten
  flatten-replicate zero = refl
  flatten-replicate (suc n) = flatten-replicate n

  -- A node at the end of a chain is one more.
  pub count_if-pushed :
      (p : A → Bool) (i : ℕ) (e : A) (bs : List (List A))
      → i < length bs
      → count_if p (flatten (change_at i (λ chain. chain ++ e ∷ []) bs))
        ≡ count_if p (e ∷ []) + count_if p (flatten bs)
  unfolding change_at flatten
  count_if-pushed p i e [] h = absurd (omega (arith, h))
  count_if-pushed p zero e (b ∷ bs) h = omega (
    arith,
    count_if-append p (b ++ e ∷ []) (flatten bs),
    count_if-append p b (e ∷ []),
    count_if-append p b (flatten bs),
  )
  count_if-pushed p (suc i) e (b ∷ bs) h = omega (
    arith,
    count_if-append p b (flatten (change_at i (λ chain. chain ++ e ∷ []) bs)),
    count_if-pushed p i e bs (omega (arith, h)),
    count_if-append p b (flatten bs),
  )

  pub All-flatten :
      (P : A → Type 0) (bs : List (List A))
      → ((i : ℕ) → All P (bucket_at i bs))
      → All P (flatten bs)
  unfolding flatten bucket_at
  All-flatten P [] h = tt
  All-flatten P (b ∷ bs) h =
      All-append P b (flatten bs) (h zero) (All-flatten P bs (λ i. h (suc i)))

  -- What a test finds in one bucket is what it finds in all, where it fails in the others.
  pub find_if-flatten :
      (p : A → Bool) (k : ℕ) (bs : List (List A))
      → ((i : ℕ) → i ≢ k → All (λ x. p x ≡ false) (bucket_at i bs))
      → find_if p (bucket_at k bs) ≡ find_if p (flatten bs)
  unfolding flatten bucket_at
  find_if-flatten p k [] h = refl
  find_if-flatten p zero (b ∷ bs) h = sym (
      find_if-append p b (flatten bs)
      ∙ rw
          (nothing_found p (flatten bs)
            (All-flatten (λ x. p x ≡ false) bs (λ i. h (suc i) (omega arith))))
          (or_else-none (find_if p b)))
  find_if-flatten p (suc k) (b ∷ bs) h =
      find_if-flatten p k bs (λ i other. h (suc i) (omega (arith, other)))
      ∙ sym (find_if-append p b (flatten bs) ∙ rw (nothing_found p b (h zero (omega arith))) refl)

-- A map over all nodes.
module _ {A : Type 0} (g : A → A) where
  pub bucket_at-map :
      (i : ℕ) (bs : List (List A)) → bucket_at i (map (map g) bs) ≡ map g (bucket_at i bs)
  unfolding bucket_at
  bucket_at-map i [] = refl
  bucket_at-map zero (b ∷ bs) = refl
  bucket_at-map (suc i) (b ∷ bs) = bucket_at-map i bs

  pub find_if-map :
      (p : A → Bool) (xs : List A)
      → ((x : A) → p (g x) ≡ p x)
      → find_if p (map g xs) ≡ on_some g (find_if p xs)
  find_if-map p [] h = refl
  find_if-map p (x ∷ xs) h = elim (Bool-cases (p x)) [
    | inl hit ↦ rw (h x, hit) refl
    | inr off ↦ rw (h x, off) (find_if-map p xs h)
  ]

  pub count_if-map :
      (p : A → Bool) (xs : List A)
      → ((x : A) → p (g x) ≡ p x)
      → count_if p (map g xs) ≡ count_if p xs
  count_if-map p [] h = refl
  count_if-map p (x ∷ xs) h = ground (arith, h x, count_if-map p xs h)

  map-append : (xs ys : List A) → map g (xs ++ ys) ≡ map g xs ++ map g ys
  map-append [] ys = refl
  map-append (x ∷ xs) ys = ap (◌∷◌ (g x)) (map-append xs ys)

  pub flatten-map : (bs : List (List A)) → flatten (map (map g) bs) ≡ map g (flatten bs)
  unfolding flatten
  flatten-map [] = refl
  flatten-map (b ∷ bs) =
      ap (λ rest. map g b ++ rest) (flatten-map bs) ∙ sym (map-append b (flatten bs))

  pub All-map :
      {P : A → Type 0} (xs : List A) → ((x : A) → P x → P (g x)) → All P xs → All P (map g xs)
  All-map [] f h = tt
  All-map (x ∷ xs) f h = (f x h.0, All-map xs f h.1)

pub length-map : {A B : Type 0} (f : A → B) (xs : List A) → length (map f xs) ≡ length xs
length-map f [] = refl
length-map f (x ∷ xs) = ap suc (length-map f xs)
