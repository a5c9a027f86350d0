-- ===== src/FibTable/Refines.antt =====
-- The FIB of daemon/table/fib.cpp under any changes, beside a function from prefixes to next hops.
use nfd_pitless.Base.{ℕ, ◌≡◌, ◌∙◌, ap, List, [], ◌∷◌, Option, none, some, if◌then◌else◌, find_if}
use nfd_pitless.Ndn.{Ndn}
use nfd_pitless.Face.{Face}
use nfd_pitless.Fib.{NextHop, Sort, add_next_hop, remove_next_hop}
use nfd_pitless.NameTree.{Hashing, Entry, or_else, entry_at, is_named}
use nfd_pitless.NameTree.Buckets.{flatten-replicate}
use nfd_pitless.NameTree.Invariant.{IsPower, IsTree}
use nfd_pitless.NameTree.Started.{new_name_tree-IsTree}
use nfd_pitless.NameTree.Prefixes.{HasRoom}
use nfd_pitless.FibTable.{
  map_some, Fib, new_fib, fib_entry_of, find_fib_entry, erase_prefix, add_to_entry,
  remove_next_hop_from_all_entries,
}
use nfd_pitless.FibTable.Entries.{find_fib_entry_lem}
use nfd_pitless.FibTable.Map.{erase_prefix-IsTree, find_fib_entry-erase_prefix}
use nfd_pitless.FibTable.Routes.{find_fib_entry-add_to_entry, add_to_entry-IsTree}
use nfd_pitless.FibTable.Removal.{
  unless_nil, find_fib_entry-remove_next_hop, remove_next_hop-IsTree,
}

module _ (ndn : Ndn) (hashing : Hashing ndn) (sort : Sort) where
  pub data Change : Type 0 where
    added : ndn.Name → Face → ℕ → Change
    erased : ndn.Name → Change
    face_removed : Face → Change

  abbrev pub Routes : Type 0
  Routes = ndn.Name → Option (List NextHop)

  abbrev pub change_fib : Change → Fib ndn hashing → Fib ndn hashing
  change_fib (added p face cost) fib = add_to_entry ndn hashing sort p face cost fib
  change_fib (erased p) fib = erase_prefix ndn hashing p fib
  change_fib (face_removed face) fib = remove_next_hop_from_all_entries ndn hashing face fib

  abbrev pub change_routes : Change → Routes → Routes
  change_routes (added p face cost) routes q =
      if ndn.name_eq p q
      then map_some (λ hops. add_next_hop sort hops face cost) (or_else (routes q) (some []))
      else routes q
  change_routes (erased p) routes q = if ndn.name_eq p q then none else routes q
  change_routes (face_removed face) routes q =
      unless_nil (map_some (λ hops. remove_next_hop hops face) (routes q))

  abbrev pub change_all : List Change → Fib ndn hashing → Fib ndn hashing
  change_all [] fib = fib
  change_all (c ∷ cs) fib = change_all cs (change_fib c fib)

  abbrev pub change_all_routes : List Change → Routes → Routes
  change_all_routes [] routes = routes
  change_all_routes (c ∷ cs) routes = change_all_routes cs (change_routes c routes)

  -- There is room for each prefix when it is inserted.
  abbrev pub HasRoomFor : Change → Fib ndn hashing → Type 0
  HasRoomFor (added p face cost) fib = HasRoom ndn hashing p fib.name_tree
  HasRoomFor (erased p) fib = Unit
  HasRoomFor (face_removed face) fib = Unit

  abbrev pub HasRoomForAll : List Change → Fib ndn hashing → Type 0
  HasRoomForAll [] fib = Unit
  HasRoomForAll (c ∷ cs) fib = HasRoomFor c fib × HasRoomForAll cs (change_fib c fib)

  change_fib-IsTree :
      (c : Change) (fib : Fib ndn hashing)
      → HasRoomFor c fib
      → IsTree ndn hashing fib.name_tree
      → IsTree ndn hashing (change_fib c fib).name_tree
  change_fib-IsTree (added p face cost) fib room tree =
      add_to_entry-IsTree ndn hashing sort p face cost fib room tree
  change_fib-IsTree (erased p) fib room tree = erase_prefix-IsTree ndn hashing p fib tree
  change_fib-IsTree (face_removed face) fib room tree =
      remove_next_hop-IsTree ndn hashing face fib tree

  pub change_all-IsTree :
      (cs : List Change) (fib : Fib ndn hashing)
      → HasRoomForAll cs fib
      → IsTree ndn hashing fib.name_tree
      → IsTree ndn hashing (change_all cs fib).name_tree
  change_all-IsTree [] fib room tree = tree
  change_all-IsTree (c ∷ cs) fib room tree =
      change_all-IsTree cs (change_fib c fib) room.1 (change_fib-IsTree c fib room.0 tree)

  change_fib_lem :
      (c : Change) (fib : Fib ndn hashing) (routes : Routes)
      → HasRoomFor c fib
      → IsTree ndn hashing fib.name_tree
      → ((q : ndn.Name) → find_fib_entry ndn hashing q fib ≡ routes q)
      → (q : ndn.Name) → find_fib_entry ndn hashing q (change_fib c fib) ≡ change_routes c routes q
  change_fib_lem (added p face cost) fib routes room tree same q =
      find_fib_entry-add_to_entry ndn hashing sort p q face cost fib room tree
      ∙ ap
          (λ o.
            if ndn.name_eq p q
            then map_some (λ hops. add_next_hop sort hops face cost) (or_else o (some []))
            else o)
          (same q)
  change_fib_lem (erased p) fib routes room tree same q =
      find_fib_entry-erase_prefix ndn hashing p q fib tree
      ∙ ap (λ o. if ndn.name_eq p q then none else o) (same q)
  change_fib_lem (face_removed face) fib routes room tree same q =
      find_fib_entry-remove_next_hop ndn hashing face q fib tree
      ∙ ap (λ o. unless_nil (map_some (λ hops. remove_next_hop hops face) o)) (same q)

  change_all_lem :
      (cs : List Change) (fib : Fib ndn hashing) (routes : Routes)
      → HasRoomForAll cs fib
      → IsTree ndn hashing fib.name_tree
      → ((q : ndn.Name) → find_fib_entry ndn hashing q fib ≡ routes q)
      → (q : ndn.Name)
      → find_fib_entry ndn hashing q (change_all cs fib) ≡ change_all_routes cs routes q
  change_all_lem [] fib routes room tree same q = same q
  change_all_lem (c ∷ cs) fib routes room tree same q =
      change_all_lem cs (change_fib c fib) (change_routes c routes) room.1
        (change_fib-IsTree c fib room.0 tree) (change_fib_lem c fib routes room.0 tree same) q

  nothing_yet :
      (n : ℕ)
      → IsPower n
      → (q : ndn.Name) → find_fib_entry ndn hashing q (new_fib ndn hashing n) ≡ none
  unfolding entry_at
  nothing_yet n power q =
      find_fib_entry_lem ndn hashing q (new_fib ndn hashing n)
        (new_name_tree-IsTree ndn hashing n power)
      ∙ ap (λ es. fib_entry_of ndn hashing (find_if (is_named ndn hashing q) es))
          (flatten-replicate {A = Entry ndn hashing} n)

  -- From an empty FIB on, whatever next hops are added, prefixes erased and faces removed: the FIB on
  -- the hash table of the name tree, which grows and shrinks, finds for every prefix what a function
  -- from prefixes to next hops has after the same changes. This is where the number of buckets at the
  -- start is a power of two and there is room for each prefix when it is inserted.
  pub change_all_refines :
      (n : ℕ) (cs : List Change)
      → IsPower n
      → HasRoomForAll cs (new_fib ndn hashing n)
      → (q : ndn.Name)
      → find_fib_entry ndn hashing q (change_all cs (new_fib ndn hashing n))
        ≡ change_all_routes cs (λ p. none) q
  change_all_refines n cs power room q =
      change_all_lem cs (new_fib ndn hashing n) (λ p. none) room
        (new_name_tree-IsTree ndn hashing n power) (nothing_yet n power) q
