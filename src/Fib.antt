-- ===== src/Fib.antt =====
-- A FIB entry's next hops: daemon/table/fib-entry.cpp and fib-nexthop.cpp.
-- std::sort leaves the order of equal costs open, so it is a parameter with the two laws that the
-- standard gives: the result is sorted, and a permutation.
pub mod Laws
pub mod Toy
mod Examples
use nfd_pitless.Base.{
  ℕ, ◌≤◌, ◌≡◌, Bool, not, ◌&&◌, List, [], ◌∷◌, ◌++◌, Option, none, some, if◌then◌else◌, any_of,
  find_if, count_if, erase_if,
}
use nfd_pitless.Face.{Face, same}

pub record NextHop : Type 0 where
  pub face : Face
  pub cost : ℕ

abbrev pub IsSorted : List NextHop → Type 0
IsSorted [] = Unit {0}
IsSorted (a ∷ []) = Unit {0}
IsSorted (a ∷ b ∷ rest) = (a.cost ≤ b.cost) × IsSorted (b ∷ rest)

-- std::sort by cost.
pub record Sort : Type 0 where
  pub apply : List NextHop → List NextHop
  pub apply-IsSorted : (hops : List NextHop) → IsSorted (apply hops)
  pub count-apply :
      (p : NextHop → Bool) (hops : List NextHop) → count_if p (apply hops) ≡ count_if p hops

abbrev pub to : Face → NextHop → Bool
to face hop = same hop.face face

unfoldable pub has_next_hop : List NextHop → Face → Bool
has_next_hop hops face = any_of (to face) hops

-- `it->setCost(cost)` for the hop that findNextHop returns.
unfoldable pub set_cost : Face → ℕ → List NextHop → List NextHop
set_cost face cost [] = []
set_cost face cost (hop ∷ hops) =
    if to face hop then record hop { cost = cost } ∷ hops else hop ∷ set_cost face cost hops

-- The hop for the face, at the end and with no cost if there was none.
unfoldable pub find_or_push : List NextHop → Face → List NextHop
unfolding has_next_hop
find_or_push hops face =
    if has_next_hop hops face then hops else hops ++ record { face = face; cost = 0 } ∷ []

unfoldable pub add_next_hop : Sort → List NextHop → Face → ℕ → List NextHop
add_next_hop sort hops face cost = sort.apply (set_cost face cost (find_or_push hops face))

unfoldable pub remove_next_hop : List NextHop → Face → List NextHop
remove_next_hop hops face = erase_if (to face) hops
