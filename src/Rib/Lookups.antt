-- ===== src/Rib/Lookups.antt =====
-- Lookups in the names and routes of a table of rib/rib.cpp.
use nfd_pitless.Base.{
  ◌+◌, ◌≡◌, ◌∙◌, refl, ap, Bool, true, false, ◌||◌, List, [], ◌∷◌, none, some, arith, length,
  if◌then◌else◌, any_of, find_if, erase_if, Bool-cases, inl, inr,
}
use nfd_pitless.Ndn.{Ndn}
use nfd_pitless.Rib.{Route, assign_route}
use nfd_pitless.Rib.Names.{NameOrder}
use nfd_pitless.Rib.Shape.{Shape, lookup, has_name, total, IsDistinct, change, put, drop_name}

pub find_if-any :
    {A : Type 0} (p : A → Bool) (xs : List A) → find_if p xs ≡ none → any_of p xs ≡ false
find_if-any p [] h = refl
find_if-any p (x ∷ xs) h = elim (Bool-cases (p x)) [
  | inl hit ↦ absurd (ground arith)
  | inr off ↦ rw off (find_if-any p xs (ground arith))
]

pub find_if-any_some :
    {A : Type 0} (p : A → Bool) (xs : List A) (x : A) → find_if p xs ≡ some x → any_of p xs ≡ true
find_if-any_some p [] x h = absurd (cc)
find_if-any_some p (y ∷ ys) x h = elim (Bool-cases (p y)) [
  | inl hit ↦ rw hit refl
  | inr off ↦ rw off (find_if-any_some p ys x (ground arith))
]

pub erase_missing :
    {A : Type 0} (p : A → Bool) (xs : List A) → find_if p xs ≡ none → erase_if p xs ≡ xs
erase_missing p [] h = refl
erase_missing p (x ∷ xs) h = elim (Bool-cases (p x)) [
  | inl hit ↦ absurd (ground arith)
  | inr off ↦ rw off (ap (◌∷◌ x) (erase_missing p xs (ground arith)))
]

pub length-erase_if :
    {A : Type 0} (p : A → Bool) (xs : List A) (x : A)
    → find_if p xs ≡ some x
    → length (erase_if p xs) + 1 ≡ length xs
length-erase_if p [] x h = absurd (cc)
length-erase_if p (y ∷ ys) x h = elim (Bool-cases (p y)) [
  | inl hit ↦ rw hit (omega arith)
  | inr off ↦ rw off (omega (arith, length-erase_if p ys x (ground arith)))
]

pub length-assign_route :
    (p : Route → Bool) (f : Route → Route) (rs : List Route)
    → length (assign_route p f rs) ≡ length rs
length-assign_route p f [] = refl
length-assign_route p f (r ∷ rs) = ground (arith, length-assign_route p f rs)

module _ (ndn : Ndn) (order : NameOrder ndn) where
  open ndn use {name_eq, name_eq_iff}

  abbrev pub S : Type 0
  S = Shape ndn order

  -- What the abstract operations do to a lookup, and to the rest.
  pub lookup-change :
      (p q : ndn.Name) (g : List Route → List Route) (s : S)
      → has_name ndn order p s ≡ true
      → lookup ndn order q (change ndn order p g s)
        ≡ (if name_eq p q then g (lookup ndn order p s) else lookup ndn order q s)
  lookup-change p q g [] h = absurd (cc)
  lookup-change p q g ((n, rs) ∷ s) h =
      ground (arith, lookup-change p q g s, name_eq_iff n p, name_eq_iff n q, name_eq_iff p q)

  pub has-change :
      (p q : ndn.Name) (g : List Route → List Route) (s : S)
      → has_name ndn order q (change ndn order p g s) ≡ has_name ndn order q s
  has-change p q g [] = refl
  has-change p q g ((n, rs) ∷ s) = ground (arith, has-change p q g s)

  pub change-IsDistinct :
      (p : ndn.Name) (g : List Route → List Route) (s : S)
      → IsDistinct ndn order s
      → IsDistinct ndn order (change ndn order p g s)
  change-IsDistinct p g [] h = tt
  change-IsDistinct p g ((n, rs) ∷ s) h = elim (Bool-cases (name_eq n p)) [
    | inl hit ↦ rw hit h
    | inr off ↦ rw off (has-change p n g s ∙ h.0, change-IsDistinct p g s h.1)
  ]

  pub lookup_missing :
      (q : ndn.Name) (s : S) → has_name ndn order q s ≡ false → lookup ndn order q s ≡ []
  lookup_missing q [] h = refl
  lookup_missing q ((n, rs) ∷ s) h = ground (arith, lookup_missing q s)

  pub lookup-put :
      (p q : ndn.Name) (rs : List Route) (s : S)
      → has_name ndn order p s ≡ false
      → lookup ndn order q (put ndn order p rs s)
        ≡ (if name_eq p q then rs else lookup ndn order q s)
  lookup-put p q rs [] h = refl
  lookup-put p q rs ((n, ns) ∷ s) h = elim (Bool-cases (order.less p n)) [
    | inl first ↦ rw first refl
    | inr later ↦
        rw later
          (ground (arith, lookup-put p q rs s, name_eq_iff n p, name_eq_iff n q, name_eq_iff p q))
  ]

  pub has-put :
      (p q : ndn.Name) (rs : List Route) (s : S)
      → has_name ndn order q (put ndn order p rs s) ≡ (name_eq p q || has_name ndn order q s)
  has-put p q rs [] = refl
  has-put p q rs ((n, ns) ∷ s) = ground (arith, has-put p q rs s)

  pub put-IsDistinct :
      (p : ndn.Name) (rs : List Route) (s : S)
      → has_name ndn order p s ≡ false
      → IsDistinct ndn order s
      → IsDistinct ndn order (put ndn order p rs s)
  put-IsDistinct p rs [] h d = (refl, tt)
  put-IsDistinct p rs ((n, ns) ∷ s) h d = elim (Bool-cases (order.less p n)) [
    | inl first ↦ rw first (h, d)
    | inr later ↦ rw later (
      has-put p n rs s ∙ ground (arith, d.0, name_eq_iff n p, name_eq_iff p n),
      put-IsDistinct p rs s (ground arith) d.1,
    )
  ]

  pub lookup-drop :
      (p q : ndn.Name) (s : S)
      → IsDistinct ndn order s
      → lookup ndn order q (drop_name ndn order p s)
        ≡ (if name_eq p q then [] else lookup ndn order q s)
  lookup-drop p q [] d = ground arith
  lookup-drop p q ((n, rs) ∷ s) d = ground (
    arith,
    d.0,
    lookup_missing q s,
    lookup-drop p q s d.1,
    name_eq_iff n p,
    name_eq_iff n q,
    name_eq_iff p q,
  )

  pub has-drop :
      (p q : ndn.Name) (s : S)
      → has_name ndn order q s ≡ false
      → has_name ndn order q (drop_name ndn order p s) ≡ false
  has-drop p q [] h = refl
  has-drop p q ((n, rs) ∷ s) h = ground (arith, has-drop p q s)

  pub drop-IsDistinct :
      (p : ndn.Name) (s : S)
      → IsDistinct ndn order s
      → IsDistinct ndn order (drop_name ndn order p s)
  drop-IsDistinct p [] d = tt
  drop-IsDistinct p ((n, rs) ∷ s) d = elim (Bool-cases (name_eq n p)) [
    | inl hit ↦ rw hit d.1
    | inr off ↦ rw off (has-drop p n s d.0, drop-IsDistinct p s d.1)
  ]

  pub total-change :
      (p : ndn.Name) (g : List Route → List Route) (s : S)
      → has_name ndn order p s ≡ true
      → total ndn order (change ndn order p g s) + length (lookup ndn order p s)
        ≡ total ndn order s + length (g (lookup ndn order p s))
  total-change p g [] h = absurd (cc)
  total-change p g ((n, rs) ∷ s) h = ground (arith, total-change p g s)

  pub total-put :
      (p : ndn.Name) (rs : List Route) (s : S)
      → total ndn order (put ndn order p rs s) ≡ length rs + total ndn order s
  total-put p rs [] = omega arith
  total-put p rs ((n, ns) ∷ s) = ground (arith, total-put p rs s)

  pub total-drop :
      (p : ndn.Name) (s : S)
      → total ndn order (drop_name ndn order p s) + length (lookup ndn order p s)
        ≡ total ndn order s
  total-drop p [] = omega arith
  total-drop p ((n, rs) ∷ s) = ground (arith, total-drop p s)
