-- ===== src/Rib/Examples.antt =====
-- The RIB on small tables, with the toy names of Toy.antt.
use nfd_pitless.Base.{
  ℕ, suc, ◌+◌, ◌≡◌, refl, Bool, true, false, List, [], ◌∷◌, Option, none, some, any_of, inl, inr,
  if◌then◌else◌, ltb, arith,
}
use nfd_pitless.Toy.{toy}
use nfd_pitless.Rib.{Route, RibEntry, has_capture, erase_route, insert_route}
use nfd_pitless.Rib.Toy.{toy_order}
use nfd_pitless.Rib.Table.{Rib, find, insert, find_parent, parent_below}
use nfd_pitless.Rib.Changes.{IsValid, routes_at}
use nfd_pitless.Rib.Refines.{Call, insert_call, erase_call, run, replay, empty_rib, run_refines}
use nfd_pitless.Rib.Capture.{capture_miscounted}
use nfd_pitless.Rib.FaceLost.{plain, lone, face_lost}
use nfd_pitless.Rib.NullRoute.{null_route}
use nfd_pitless.Rib.Updater.{
  unregister, create_remove_update, register, Updates, RibUpdate, add_nexthop, traverse,
  ancestor_routes, add_inherited_routes_to,
}
use nfd_pitless.Rib.Updated.{
  compute_updates, tallest, ancestors_of, ancestors_of_name, modify_children,
}
use nfd_pitless.Rib.Separated.{IsSeparated, compute_updates-IsSeparated}
use nfd_pitless.Rib.Deep.{walks_end}
use nfd_pitless.Rib.Sending.{going, Item, Command, Session}
use nfd_pitless.Rib.Queue.{
  applied, done, step, started, stepped, new_session, no_updates, queued, fails_early,
}
use nfd_pitless.Rib.Serial.{IsSerial, IsBusy}
use nfd_pitless.Rib.Started.{commands, count_sent-commands}
use nfd_pitless.Rib.Orderly.{Reached-IsSerial}
use nfd_pitless.Rib.Progress.{Advances, success_progress}

abbrev second_of : List Route → Option Route
second_of (r ∷ s ∷ rest) = some s
second_of _ = none

-- The dearer of two routes, whatever their order.
abbrev cost_second : List Route → Option Route
cost_second (r ∷ s ∷ rest) = if ltb r.cost s.cost then some s else some r
cost_second _ = none

abbrev route_of : ℕ → Bool → Bool → ℕ → Route
route_of face_id child_inherit capture cost = record {
  face_id = face_id;
  origin = 0;
  child_inherit = child_inherit;
  capture = capture;
  other_flags = 0;
  cost = cost;
  expires = 0;
  expiration_event = none;
}

abbrev a_name : List ℕ
a_name = 3 ∷ []

abbrev ab_name : List ℕ
ab_name = 3 ∷ 4 ∷ []

abbrev some_calls : List (Call toy toy_order)
some_calls =
    insert_call ab_name (route_of 256 false false 5)
    ∷ insert_call a_name (route_of 257 true false 7)
    ∷ insert_call ab_name (route_of 256 true false 9)
    ∷ erase_call a_name (route_of 257 false false 0)
    ∷ insert_call [] (route_of 258 true false 1)
    ∷ []

run_refines_example :
    IsValid toy toy_order (run toy toy_order some_calls (empty_rib toy toy_order))
    × ((q : List ℕ)
        → routes_at toy toy_order q (run toy toy_order some_calls (empty_rib toy toy_order))
          ≡ replay toy toy_order some_calls (λ q. []) q)
run_refines_example = run_refines toy toy_order some_calls

abbrev ab_entry : RibEntry toy
ab_entry = record {
  name = ab_name;
  children = [];
  parent = none;
  routes = route_of 256 false false 5 ∷ [];
  inherited_routes = [];
  n_routes_with_capture_set = 0;
}

abbrev ab_rib : Rib toy toy_order
ab_rib = record { table = ab_entry ∷ []; face_map = (256, ab_name ∷ []) ∷ []; n_items = 1 }

capture_miscounted_example :
    (e' : RibEntry toy) × (find toy toy_order ab_name
        (insert toy toy_order ab_name (route_of 256 false true 5) ab_rib).table
      ≡ some e')
    × (any_of (λ r. r.capture) e'.routes ≡ true)
    × (has_capture toy e' ≡ false)
    × (has_capture toy (erase_route toy (route_of 256 false true 5) e') ≡ true)
capture_miscounted_example =
    capture_miscounted toy toy_order ab_name (route_of 256 false true 5) ab_rib ab_entry
      (route_of 256 false false 5) refl refl refl refl

-- A route for a name above that of the entry, which children inherit.
abbrev above : RibUpdate toy toy_order
above = record { action = register; name = a_name; route = route_of 257 true false 7 }

abbrev above_updates : Updates toy toy_order
above_updates = record {
  batch_face_id = 257;
  for_batch_face_id =
      record { name = a_name; face_id = 257; cost = 7; action = add_nexthop }
      ∷ record { name = ab_name; face_id = 257; cost = 7; action = add_nexthop }
      ∷ [];
  for_non_batch_face_id = [];
  inherited_routes =
      record { action = register; name = ab_name; route = route_of 257 true false 7 } ∷ [];
}

computed_above : compute_updates toy toy_order second_of (ab_entry ∷ []) above ≡ some above_updates
unfolding compute_updates parent_below add_inherited_routes_to
computed_above = refl

compute_updates-IsSeparated_example :
    (above_updates.batch_face_id ≡ above.route.face_id) × IsSeparated toy toy_order above_updates
compute_updates-IsSeparated_example =
    compute_updates-IsSeparated toy toy_order second_of (ab_entry ∷ []) above above_updates
      computed_above

-- The update is queued, sent, and its commands are answered.
abbrev above_item : Item toy toy_order
above_item = record { update = above; manager = some 1 }

abbrev two_sent : Session toy toy_order
two_sent = record {
  rib = ab_rib;
  update_batches = [];
  is_update_in_progress = true;
  updates = above_updates;
  sent = commands toy toy_order above_item above_updates.for_batch_face_id;
  answers = [];
}

abbrev one_sent : Session toy toy_order
one_sent = record {
  rib = ab_rib;
  update_batches = [];
  is_update_in_progress = true;
  updates = record above_updates {
    for_batch_face_id =
        record { name = a_name; face_id = 257; cost = 7; action = add_nexthop } ∷ [];
  };
  sent =
      commands toy toy_order above_item
        (record { name = a_name; face_id = 257; cost = 7; action = add_nexthop } ∷ []);
  answers = [];
}

step_applied :
    step toy toy_order second_of 10060 (applied above 1) (new_session toy toy_order ab_rib)
    ≡ going two_sent
unfolding step add_inherited_routes_to
step_applied = refl

step_done : step toy toy_order second_of 10060 (done 1) two_sent ≡ going one_sent
unfolding step
step_done = refl

Reached-IsSerial_example : IsSerial toy toy_order one_sent (above_item ∷ [])
unfolding queued fails_early
Reached-IsSerial_example =
    Reached-IsSerial toy toy_order second_of 10060 one_sent (above_item ∷ []) true
      (stepped two_sent one_sent (above_item ∷ []) true (done 1)
        (stepped (new_session toy toy_order ab_rib) two_sent [] true (applied above 1)
          (started ab_rib) step_applied)
        step_done)
      refl

two_sent-IsBusy : IsBusy toy toy_order two_sent (above_item ∷ [])
two_sent-IsBusy = record {
  item = above_item;
  in_progress = refl;
  of_item = (refl, (refl, tt));
  waiting = refl;
  separated =
      (compute_updates-IsSeparated toy toy_order second_of (ab_entry ∷ []) above above_updates
        computed_above).1;
  matching = λ f. count_sent-commands toy toy_order f above_item above_updates.for_batch_face_id;
  in_order = refl;
}

success_progress_example :
    Advances toy toy_order second_of two_sent-IsBusy.item two_sent
      (step toy toy_order second_of 10060 (done 0) two_sent)
success_progress_example =
    success_progress toy toy_order second_of 10060 two_sent (above_item ∷ []) 0
      (record {
        update = record { name = a_name; face_id = 257; cost = 7; action = add_nexthop };
        verb = add_nexthop;
        n_timeouts = 0;
        item = above_item;
      })
      refl two_sent-IsBusy

abbrev add_for : List ℕ → Command toy toy_order
add_for name = record {
  update = record { name = name; face_id = 257; cost = 7; action = add_nexthop };
  verb = add_nexthop;
  n_timeouts = 0;
  item = above_item;
}

-- Two routes of face 256 with different origins.
abbrev twice_entry : RibEntry toy
twice_entry = record ab_entry { routes = plain 256 0 5 ∷ plain 256 128 6 ∷ [] }

null_route_example :
    compute_updates toy toy_order second_of
      (twice_entry ∷ [])
      (record { action = register; name = ab_name; route = plain 256 0 8 })
    ≡ none
null_route_example =
    null_route toy toy_order second_of (twice_entry ∷ []) ab_name twice_entry 256 0 128 5 6 8 refl
      (inl refl) refl (omega arith) (omega arith)

abbrev two_calls : List (Call toy toy_order)
two_calls =
    insert_call a_name (route_of 257 true false 7)
    ∷ insert_call ab_name (route_of 256 false false 5)
    ∷ []

ab_found :
    find toy toy_order ab_name (run toy toy_order two_calls (empty_rib toy toy_order)).table
    ≡ some (record ab_entry { parent = some a_name })
unfolding run insert insert_route
ab_found = refl

walks_end_example :
    (ancestor_routes toy toy_order
        (2 + 3)
        (run toy toy_order two_calls (empty_rib toy toy_order)).table
        (some a_name)
        []
      ≡ ancestors_of toy toy_order second_of
          (run toy toy_order two_calls (empty_rib toy toy_order)).table
          (record ab_entry { parent = some a_name }))
    × (ancestor_routes toy toy_order
          (2 + 3)
          (run toy toy_order two_calls (empty_rib toy toy_order)).table
          (find_parent toy toy_order ab_name
            (run toy toy_order two_calls (empty_rib toy toy_order)).table)
          []
        ≡ ancestors_of_name toy toy_order second_of
            (run toy toy_order two_calls (empty_rib toy toy_order)).table
            ab_name)
    × (traverse toy toy_order
          (suc (
              tallest toy toy_order second_of
                (run toy toy_order two_calls (empty_rib toy toy_order)).table)
            + 3)
          (run toy toy_order two_calls (empty_rib toy toy_order)).table
          (route_of 258 true false 1 ∷ [])
          []
          (a_name ∷ [])
          (no_updates toy toy_order)
        ≡ modify_children toy toy_order second_of
            (run toy toy_order two_calls (empty_rib toy toy_order)).table
            (a_name ∷ [])
            (route_of 258 true false 1 ∷ [])
            []
            (no_updates toy toy_order))
walks_end_example =
    walks_end toy toy_order second_of two_calls 3 ab_name (record ab_entry { parent = some a_name })
      ab_found (route_of 258 true false 1 ∷ []) [] (a_name ∷ []) (no_updates toy toy_order)

abbrev two_plain : List Route
two_plain = plain 256 128 8 ∷ plain 256 0 5 ∷ []

face_lost_example :
    compute_updates toy toy_order cost_second
      (ab_entry ∷ lone toy toy_order cost_second a_name two_plain ∷ [])
      (record { action = unregister; name = a_name; route = plain 256 128 8 })
    ≡ some (record {
      batch_face_id = 256;
      for_batch_face_id = create_remove_update toy toy_order a_name 256 ∷ [];
      for_non_batch_face_id = [];
      inherited_routes = [];
    })
face_lost_example =
    face_lost toy toy_order cost_second
      (ab_entry ∷ lone toy toy_order cost_second a_name two_plain ∷ []) a_name two_plain 256 0 128 5
      8 refl (inr refl) refl refl refl
