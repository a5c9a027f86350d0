-- ===== src/Rib/Toy.antt =====
-- The order of the toy names of Toy.antt, for tests.
use nfd_pitless.Base.{
  ℕ, ◌<◌, ◌≡◌, Bool, true, false, List, [], ◌∷◌, arith, if◌then◌else◌, ltb, ◌==◌, length,
  length-take,
}
use nfd_pitless.Toy.{toy, list_eq, is_list_prefix}
use nfd_pitless.Rib.Names.{NameOrder}

abbrev pub list_less : List ℕ → List ℕ → Bool
list_less [] [] = false
list_less [] (y ∷ ys) = true
list_less (x ∷ xs) [] = false
list_less (x ∷ xs) (y ∷ ys) = if x == y then list_less xs ys else ltb x y

pub longer :
    (xs ys : List ℕ) → is_list_prefix xs ys ≡ true → list_eq xs ys ≡ false → length xs < length ys
longer [] [] p e = absurd (cc)
longer [] (y ∷ ys) p e = omega arith
longer (x ∷ xs) [] p e = absurd (cc)
longer (x ∷ xs) (y ∷ ys) p e = ground (arith, longer xs ys)

abbrev pub toy_order : NameOrder toy
toy_order = record { less = list_less; size-get_prefix = length-take; size_lt = longer }
