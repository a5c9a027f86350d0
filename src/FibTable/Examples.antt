-- ===== src/FibTable/Examples.antt =====
-- The FIB on a few prefixes of Toy.antt.
use nfd_pitless.Base.{◌≡◌, refl, List, [], ◌∷◌, none, some, arith}
use nfd_pitless.Toy.{toy, toy_stores, interest_for, idle, east, west, local_face}
use nfd_pitless.Ndn.{Interest}
use nfd_pitless.Fw.{Forwarder, send_interest, cs_lookup}
use nfd_pitless.Pitless.{on_incoming_interest}
use nfd_pitless.Pitless.Packets.{packets, IsCheapest}
use nfd_pitless.Fib.{NextHop, add_next_hop, find_or_push, set_cost}
use nfd_pitless.Fib.Toy.{by_insertion, insertion_sort, put_in}
use nfd_pitless.NameTree.{find_exact_match, lookup, hash_from}
use nfd_pitless.NameTree.Erasure.{erase_entry_if_empty}
use nfd_pitless.NameTree.Toy.{toy_hashing, spread}
use nfd_pitless.FibTable.{
  Fib, new_fib, find_longest, find_fib_entry, erase_prefix, insert_prefix, add_to_entry,
}
use nfd_pitless.FibTable.Forwarding.{routed, interest_by_table}
use nfd_pitless.FibTable.Refines.{
  Change, added, erased, face_removed, HasRoomForAll, change_all, change_all_routes,
  change_all_refines,
}

-- Two next hops for one prefix, one for another, and the face that both use is removed.
abbrev some_changes : List (Change toy toy_hashing by_insertion)
some_changes =
    added (1 ∷ 2 ∷ []) west 5
    ∷ added (1 ∷ 2 ∷ []) east 3
    ∷ added (1 ∷ 4 ∷ []) west 7
    ∷ erased (1 ∷ [])
    ∷ face_removed west
    ∷ []

room_for_some : HasRoomForAll toy toy_hashing by_insertion some_changes (new_fib toy toy_hashing 4)
unfolding add_to_entry insert_prefix find_exact_match lookup hash_from
room_for_some = (omega arith, (omega arith, (omega arith, (tt, (tt, tt)))))

change_all_refines_example :
    find_fib_entry toy toy_hashing
      (1 ∷ 2 ∷ [])
      (change_all toy toy_hashing by_insertion some_changes (new_fib toy toy_hashing 4))
    ≡ change_all_routes toy toy_hashing by_insertion some_changes (λ p. none) (1 ∷ 2 ∷ [])
change_all_refines_example =
    change_all_refines toy toy_hashing by_insertion 4 some_changes (2, omega arith, refl)
      room_for_some (1 ∷ 2 ∷ [])

-- The count of entries after the erasure of a prefix that has no entry, but is above one that has.
abbrev one_entry : Fib toy toy_hashing
one_entry = (insert_prefix toy toy_hashing (1 ∷ 2 ∷ []) (new_fib toy toy_hashing 4)).0

miscounted : (erase_prefix toy toy_hashing (1 ∷ []) one_entry).n_items ≡ 0
unfolding insert_prefix erase_prefix find_exact_match lookup hash_from
miscounted = refl

still_there :
    find_fib_entry toy toy_hashing (1 ∷ 2 ∷ []) (erase_prefix toy toy_hashing (1 ∷ []) one_entry)
    ≡ some []
unfolding insert_prefix erase_prefix find_fib_entry find_exact_match lookup hash_from
    erase_entry_if_empty
still_there = refl

-- A forwarder on a FIB with two next hops for 1/2, the east's the cheaper, and one for 1.
abbrev routes_added : List (Change toy toy_hashing by_insertion)
routes_added = added (1 ∷ 2 ∷ []) west 5 ∷ added (1 ∷ 2 ∷ []) east 3 ∷ added (1 ∷ []) west 1 ∷ []

abbrev table : Fib toy toy_hashing
table = change_all toy toy_hashing by_insertion routes_added (new_fib toy toy_hashing 4)

abbrev on_table : Forwarder toy toy_stores
on_table = record idle { fib = λ name. find_longest toy toy_hashing name table }

abbrev deep_interest : Interest toy
deep_interest = interest_for (1 ∷ 2 ∷ 4 ∷ []) 31

room_for_routes :
    HasRoomForAll toy toy_hashing by_insertion routes_added (new_fib toy toy_hashing 4)
unfolding add_to_entry insert_prefix find_exact_match lookup hash_from
room_for_routes = (omega arith, (omega arith, (omega arith, tt)))

interest_by_table_example :
    (hop : NextHop) × IsCheapest toy toy_stores local_face
      (routed toy toy_hashing by_insertion routes_added (1 ∷ 2 ∷ 4 ∷ []))
      hop
    × (packets toy toy_stores
          (on_incoming_interest toy toy_stores local_face deep_interest on_table).outputs
        ≡ send_interest hop.face (record deep_interest { incoming_face_id = 256 }) ∷ [])
unfolding cs_lookup add_next_hop find_or_push set_cost insertion_sort put_in
interest_by_table_example =
    interest_by_table toy toy_hashing by_insertion toy_stores local_face on_table deep_interest 4
      routes_added (2, omega arith, refl) room_for_routes spread refl refl refl refl refl
