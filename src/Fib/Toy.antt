-- ===== src/Fib/Toy.antt =====
-- Sorting by insertion, for the std::sort of daemon/table/fib-entry.cpp in tests.
use nfd_pitless.Base.{◌≡◌, refl, Bool, List, [], ◌∷◌, arith, leb, if◌then◌else◌, count_if}
use nfd_pitless.Fib.{NextHop, IsSorted, Sort}

unfoldable pub put_in : NextHop → List NextHop → List NextHop
put_in hop [] = hop ∷ []
put_in hop (g ∷ gs) = if leb hop.cost g.cost then hop ∷ g ∷ gs else g ∷ put_in hop gs

unfoldable pub insertion_sort : List NextHop → List NextHop
unfolding put_in
insertion_sort [] = []
insertion_sort (hop ∷ hops) = put_in hop (insertion_sort hops)

put_in-IsSorted : (hop : NextHop) (hops : List NextHop) → IsSorted hops → IsSorted (put_in hop hops)
unfolding put_in
put_in-IsSorted hop [] s = tt
put_in-IsSorted hop (g ∷ []) s = ground arith
put_in-IsSorted hop (g ∷ h ∷ rest) s = ground (arith, put_in-IsSorted hop (h ∷ rest))

pub insertion_sort-IsSorted : (hops : List NextHop) → IsSorted (insertion_sort hops)
unfolding insertion_sort
insertion_sort-IsSorted [] = tt
insertion_sort-IsSorted (hop ∷ hops) = put_in-IsSorted hop _ (insertion_sort-IsSorted hops)

count-put_in :
    (p : NextHop → Bool) (hop : NextHop) (hops : List NextHop)
    → count_if p (put_in hop hops) ≡ count_if p (hop ∷ hops)
unfolding put_in
count-put_in p hop [] = refl
count-put_in p hop (g ∷ gs) = ground (arith, count-put_in p hop gs)

pub count-insertion_sort :
    (p : NextHop → Bool) (hops : List NextHop) → count_if p (insertion_sort hops) ≡ count_if p hops
unfolding insertion_sort
count-insertion_sort p [] = refl
count-insertion_sort p (hop ∷ hops) =
    ground (arith, count-put_in p hop (insertion_sort hops), count-insertion_sort p hops)

abbrev pub by_insertion : Sort
by_insertion = record {
  apply = insertion_sort;
  apply-IsSorted = insertion_sort-IsSorted;
  count-apply = count-insertion_sort;
}
