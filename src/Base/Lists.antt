-- ===== src/Base/Lists.antt =====
-- Sequences: native lengths, the C++ algorithms over a Boolean test, and predicates on all elements.
use Prim.Native.Nat.{ℕ, zero, suc, ◌+◌, ◌-◌, ◌≤◌}
use mathlib.Core.Path.{◌≡◌, refl, ap}
use mathlib.Core.Logic.{inl, inr}
use mathlib.Core.Bool.{Bool, false, ◌||◌}
use mathlib.Core.List.{List, [], ◌∷◌, ◌++◌}
use mathlib.Core.Option.{Option, none, some}
use native.Mathlib.Omega.{arith}
use nfd_pitless.Base.Tests.{if◌then◌else◌, if_keeps, Bool-cases}

module _ {ℓ} {A : Type ℓ} where
  abbrev pub length : List A → ℕ
  length [] = 0
  length (x ∷ xs) = suc (length xs)

  abbrev pub get_elem? : List A → ℕ → Option A
  get_elem? [] i = none
  get_elem? (x ∷ xs) zero = some x
  get_elem? (x ∷ xs) (suc i) = get_elem? xs i

  abbrev pub set : List A → ℕ → A → List A
  set [] i v = []
  set (x ∷ xs) zero v = v ∷ xs
  set (x ∷ xs) (suc i) v = x ∷ set xs i v

  abbrev pub take : ℕ → List A → List A
  take zero xs = []
  take (suc n) [] = []
  take (suc n) (x ∷ xs) = x ∷ take n xs

  abbrev pub drop : ℕ → List A → List A
  drop zero xs = xs
  drop (suc n) [] = []
  drop (suc n) (x ∷ xs) = drop n xs

  abbrev pub replicate : ℕ → A → List A
  replicate zero a = []
  replicate (suc n) a = a ∷ replicate n a

  pub length-append : (xs ys : List A) → length (xs ++ ys) ≡ length xs + length ys
  length-append [] ys = omega arith
  length-append (x ∷ xs) ys = omega (arith, length-append xs ys)

  pub length-drop : (n : ℕ) (xs : List A) → length (drop n xs) ≡ length xs - n
  length-drop zero xs = omega arith
  length-drop (suc n) [] = omega arith
  length-drop (suc n) (x ∷ xs) = omega (arith, length-drop n xs)

  pub length-take : (xs : List A) (n : ℕ) → n ≤ length xs → length (take n xs) ≡ n
  length-take xs zero h = refl
  length-take [] (suc n) h = absurd (omega (arith, h))
  length-take (x ∷ xs) (suc n) h = ap suc (length-take xs n (omega (arith, h)))

  pub length-replicate : (n : ℕ) (a : A) → length (replicate n a) ≡ n
  length-replicate zero a = refl
  length-replicate (suc n) a = omega (arith, length-replicate n a)

-- `std::any_of`, `std::find_if`, `std::copy_if`, `std::count_if`, and the erasure of the element
-- that `std::find_if` finds.
module _ {ℓ} {A : Type ℓ} (p : A → Bool) where
  abbrev pub any_of : List A → Bool
  any_of [] = false
  any_of (x ∷ xs) = p x || any_of xs

  abbrev pub find_if : List A → Option A
  find_if [] = none
  find_if (x ∷ xs) = if p x then some x else find_if xs

  abbrev pub copy_if : List A → List A
  copy_if [] = []
  copy_if (x ∷ xs) = if p x then x ∷ copy_if xs else copy_if xs

  abbrev pub count_if : List A → ℕ
  count_if [] = 0
  count_if (x ∷ xs) = if p x then suc (count_if xs) else count_if xs

  abbrev pub erase_if : List A → List A
  erase_if [] = []
  erase_if (x ∷ xs) = if p x then xs else x ∷ erase_if xs

-- A property of every element.
abbrev pub All {ℓ κ} : {A : Type ℓ} → (A → Type κ) → List A → Type κ
All P [] = Unit
All P (x ∷ xs) = P x × All P xs

pub All-append {ℓ κ} :
    {A : Type ℓ} (P : A → Type κ) (xs ys : List A) → All P xs → All P ys → All P (xs ++ ys)
All-append P [] ys hx hy = hy
All-append P (x ∷ xs) ys hx hy = (hx.0, All-append P xs ys hx.1 hy)

pub All-copy_if {ℓ κ} :
    {A : Type ℓ} (P : A → Type κ) (p : A → Bool) (xs : List A) → All P xs → All P (copy_if p xs)
All-copy_if P p [] h = tt
All-copy_if P p (x ∷ xs) h = elim (Bool-cases (p x)) [
  | inl hit ↦ rw hit (h.0, All-copy_if P p xs h.1)
  | inr other ↦ rw other (All-copy_if P p xs h.1)
]

pub All-find_if {ℓ κ} :
    {A : Type ℓ} (P : A → Type κ) (p : A → Bool) (xs : List A)
    → All P xs
    → (x : A) → find_if p xs ≡ some x
    → P x
All-find_if P p [] h x e = absurd (cc)
All-find_if P p (y ∷ ys) h x e = elim (Bool-cases (p y)) [
  | inl hit ↦ ground arith
  | inr other ↦ All-find_if P p ys h.1 x (ground arith)
]

pub All-erase_if {ℓ κ} :
    {A : Type ℓ} (P : A → Type κ) (p : A → Bool) (xs : List A) → All P xs → All P (erase_if p xs)
All-erase_if P p [] h = tt
All-erase_if P p (x ∷ xs) h = if_keeps (All P) (p x) _ _ h.1 (h.0, All-erase_if P p xs h.1)
