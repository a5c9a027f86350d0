-- ===== src/Fib/Examples.antt =====
-- FIB entries at concrete inputs, sorted by insertion.
use nfd_pitless.Base.{◌≡◌, refl, Bool, [], ◌∷◌, arith, ltb}
use nfd_pitless.Toy.{east, west, two_ways}
use nfd_pitless.Fib.{NextHop, add_next_hop, find_or_push, set_cost}
use nfd_pitless.Fib.Toy.{by_insertion, insertion_sort}
use nfd_pitless.Fib.Laws.{IsUnique}

-- Setting the east's cost to 9 moves it behind the west.
east_last :
    add_next_hop by_insertion two_ways east 9
    ≡ record { face = west; cost = 7 } ∷ record { face = east; cost = 9 } ∷ []
unfolding add_next_hop find_or_push set_cost by_insertion insertion_sort
east_last = refl

two_ways-IsUnique : IsUnique two_ways
two_ways-IsUnique g = ground arith

abbrev cheap : NextHop → Bool
cheap hop = ltb hop.cost 8
