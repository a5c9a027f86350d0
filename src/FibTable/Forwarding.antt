-- ===== src/FibTable/Forwarding.antt =====
-- The PITless forwarder, daemon/fw/pitless-forwarder.cpp, on the FIB of daemon/table/fib.cpp.
use nfd_pitless.Base.{
  ℕ, zero, suc, ◌+◌, ◌≡◌, ◌∙◌, refl, sym, ap, subst, true, false, not, ◌&&◌, List, [], ◌∷◌, ◌++◌,
  Option, none, some, if_keeps, any_of, ◌==◌,
}
use nfd_pitless.Ndn.{Ndn, Interest}
use nfd_pitless.Face.{Face, invalid_faceid}
use nfd_pitless.Fib.{NextHop, IsSorted, Sort, add_next_hop, remove_next_hop}
use nfd_pitless.Fib.Laws.{erase-IsSorted}
use nfd_pitless.Fw.{Stores, Forwarder, send_interest, cs_lookup}
use nfd_pitless.Pitless.{on_incoming_interest, can_forward_to}
use nfd_pitless.Pitless.Packets.{packets, IsCheapest}
use nfd_pitless.Pitless.Routing.{interest_to_cheapest}
use nfd_pitless.NameTree.{is_nil, or_else, Hashing}
use nfd_pitless.NameTree.Invariant.{IsPower}
use nfd_pitless.NameTree.Started.{new_name_tree-IsTree}
use nfd_pitless.NameTree.Longest.{IsSpread}
use nfd_pitless.FibTable.{map_some, hops_or_nil, new_fib, find_longest}
use nfd_pitless.FibTable.Longest.{longest_entry, find_longest_lem}
use nfd_pitless.FibTable.Removal.{unless_nil}
use nfd_pitless.FibTable.Refines.{
  Change, added, erased, face_removed, Routes, change_routes, change_all, change_all_routes,
  HasRoomForAll, change_all-IsTree, change_all_refines,
}

abbrev SortedIn : Option (List NextHop) → Type 0
SortedIn none = Unit
SortedIn (some hops) = IsSorted hops

module _ (ndn : Ndn) (hashing : Hashing ndn) (sort : Sort) where
  abbrev AllSorted : Routes ndn hashing sort → Type 0
  AllSorted routes = (q : ndn.Name) → SortedIn (routes q)

  added_sorted :
      (face : Face) (cost : ℕ) (o : Option (List NextHop))
      → SortedIn (map_some (λ hops. add_next_hop sort hops face cost) o)
  unfolding add_next_hop
  added_sorted face cost none = tt
  added_sorted face cost (some hops) = sort.apply-IsSorted _

  removed_sorted :
      (face : Face) (o : Option (List NextHop))
      → SortedIn o
      → SortedIn (unless_nil (map_some (λ hops. remove_next_hop hops face) o))
  unfolding remove_next_hop
  removed_sorted face none h = tt
  removed_sorted face (some hops) h =
      if_keeps SortedIn (is_nil (remove_next_hop hops face)) none (some (remove_next_hop hops face))
        tt (erase-IsSorted face hops h)

  change_sorted :
      (c : Change ndn hashing sort) (routes : Routes ndn hashing sort)
      → AllSorted routes
      → AllSorted (change_routes ndn hashing sort c routes)
  change_sorted (added p face cost) routes h q =
      if_keeps SortedIn (ndn.name_eq p q) _ (routes q)
        (added_sorted face cost (or_else (routes q) (some []))) (h q)
  change_sorted (erased p) routes h q = if_keeps SortedIn (ndn.name_eq p q) none (routes q) tt (h q)
  change_sorted (face_removed face) routes h q = removed_sorted face (routes q) (h q)

  changes_sorted :
      (cs : List (Change ndn hashing sort)) (routes : Routes ndn hashing sort)
      → AllSorted routes
      → AllSorted (change_all_routes ndn hashing sort cs routes)
  changes_sorted [] routes h = h
  changes_sorted (c ∷ cs) routes h = changes_sorted cs _ (change_sorted c routes h)

  -- The next hops of the longest prefix that has an entry, of those with fewer than n components.
  abbrev pub longest_route : ℕ → ndn.Name → Routes ndn hashing sort → Option (List NextHop)
  longest_route zero p routes = none
  longest_route (suc i) p routes = or_else (routes (ndn.get_prefix p i)) (longest_route i p routes)

  longest-IsSorted :
      (n : ℕ) (p : ndn.Name) (routes : Routes ndn hashing sort)
      → AllSorted routes
      → IsSorted (hops_or_nil (longest_route n p routes))
  longest-IsSorted zero p routes h = tt
  longest-IsSorted (suc i) p routes h =
      first (routes (ndn.get_prefix p i)) (h (ndn.get_prefix p i)) (longest-IsSorted i p routes h)
    where
      first :
          (o : Option (List NextHop))
          → SortedIn o
          → IsSorted (hops_or_nil (longest_route i p routes))
          → IsSorted (hops_or_nil (or_else o (longest_route i p routes)))
      first none k rest = rest
      first (some hops) k rest = k

  -- The hops that the changes leave for a name.
  abbrev pub routed : List (Change ndn hashing sort) → ndn.Name → List NextHop
  routed cs name =
      hops_or_nil
        (longest_route (ndn.size name + 1) name (change_all_routes ndn hashing sort cs (λ p. none)))

  found_is_routed :
      (m : ℕ) (n : ℕ) (cs : List (Change ndn hashing sort)) (name : ndn.Name)
      → IsPower n
      → HasRoomForAll ndn hashing sort cs (new_fib ndn hashing n)
      → longest_entry ndn hashing m name (change_all ndn hashing sort cs (new_fib ndn hashing n))
        ≡ longest_route m name (change_all_routes ndn hashing sort cs (λ p. none))
  found_is_routed zero n cs name power room = refl
  found_is_routed (suc i) n cs name power room =
      rw (change_all_refines ndn hashing sort n cs power room (ndn.get_prefix name i))
        (rw (found_is_routed i n cs name power room) refl)

  table_lem :
      (n : ℕ) (cs : List (Change ndn hashing sort)) (name : ndn.Name)
      → IsPower n
      → HasRoomForAll ndn hashing sort cs (new_fib ndn hashing n)
      → IsSpread ndn hashing name
      → find_longest ndn hashing name (change_all ndn hashing sort cs (new_fib ndn hashing n))
        ≡ routed cs name
  table_lem n cs name power room spread =
      find_longest_lem ndn hashing name (change_all ndn hashing sort cs (new_fib ndn hashing n))
        (change_all-IsTree ndn hashing sort cs (new_fib ndn hashing n) room
          (new_name_tree-IsTree ndn hashing n power))
        spread
      ∙ ap hops_or_nil (found_is_routed (ndn.size name + 1) n cs name power room)

  -- A PITless forwarder whose FIB has come from an empty one by any additions of next hops, erasures
  -- and removals of faces: an Interest in scope that misses in the Content Store is sent once, to a
  -- cheapest of the hops to another face that these changes leave for the longest prefix of its name,
  -- and nothing else is sent. This is where there is such a hop, the faces of that prefix have ids,
  -- the prefixes of the name have different hashes, the number of buckets at the start is a power of
  -- two and there is room for each prefix when it is inserted.
  pub interest_by_table :
      (stores : Stores ndn) (f : Face) (s : Forwarder ndn stores) (i : Interest ndn) (n : ℕ)
      (cs : List (Change ndn hashing sort))
      → IsPower n
      → HasRoomForAll ndn hashing sort cs (new_fib ndn hashing n)
      → IsSpread ndn hashing i.name
      → s.fib i.name
        ≡ find_longest ndn hashing i.name (change_all ndn hashing sort cs (new_fib ndn hashing n))
      → (not f.is_local && ndn.is_prefix_of ndn.localhost_name i.name) ≡ false
      → (cs_lookup ndn stores (record i { incoming_face_id = f.id }) s).1 ≡ none
      → any_of (λ g. g.face.id == invalid_faceid) (routed cs i.name) ≡ false
      → any_of (can_forward_to f) (routed cs i.name) ≡ true
      → (hop : NextHop) × IsCheapest ndn stores f (routed cs i.name) hop
        × (packets ndn stores (on_incoming_interest ndn stores f i s).outputs
            ≡ packets ndn stores s.outputs
              ++ send_interest hop.face (record i { incoming_face_id = f.id }) ∷ [])
  interest_by_table stores f s i n cs power room spread by_table scope missed valid some_hop =
      let e : s.fib i.name ≡ routed cs i.name =
        by_table ∙ table_lem n cs i.name power room spread in
      let sorted : IsSorted (routed cs i.name) =
        longest-IsSorted (ndn.size i.name + 1) i.name
          (change_all_routes ndn hashing sort cs (λ p. none))
          (changes_sorted cs (λ p. none) (λ q. tt)) in
      subst
        (λ hs.
          (hop : NextHop) × IsCheapest ndn stores f hs hop
          × (packets ndn stores (on_incoming_interest ndn stores f i s).outputs
              ≡ packets ndn stores s.outputs
                ++ send_interest hop.face (record i { incoming_face_id = f.id }) ∷ []))
        e
        (interest_to_cheapest ndn stores f s i scope missed (subst IsSorted (sym e) sorted)
          (ap (any_of (λ g. g.face.id == invalid_faceid)) e ∙ valid)
          (ap (any_of (can_forward_to f)) e ∙ some_hop))
