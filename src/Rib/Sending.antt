-- ===== src/Rib/Sending.antt =====
-- How rib/rib.cpp and rib/fib-updater.cpp apply RIB updates: the queue of updates, the commands sent
-- to the forwarder, and their answers. A command that is started has the item of the queue that its
-- callbacks are bound to; the callbacks of the RIB manager, which only log, are a list of answers.
use nfd_pitless.Base.{
  ℕ, ◌+◌, Bool, true, false, not, ◌&&◌, List, [], ◌∷◌, ◌++◌, Option, none, some, if◌then◌else◌, ltb,
  ◌==◌, copy_if,
}
use nfd_pitless.Ndn.{Ndn}
use nfd_pitless.Rib.{Route, add_inherited_route, remove_inherited_route}
use nfd_pitless.Rib.Names.{NameOrder}
use nfd_pitless.Rib.Table.{Rib, modify, insert, erase, find_routes_with_face_id}
use nfd_pitless.Rib.Updater.{
  Action, add_nexthop, remove_nexthop, register, unregister, remove_face, FibUpdate, RibUpdate,
  Updates,
}
use nfd_pitless.Rib.Updated.{compute_updates}

abbrev pub max_num_timeouts : ℕ
max_num_timeouts = 10

abbrev pub error_face_not_found : ℕ
error_face_not_found = 410

-- The end of a call: a state, an exception with its error code, or a null pointer that is followed.
pub data Outcome (A : Type 0) : Type 0 where
  going : A → Outcome A
  thrown : ℕ → Outcome A
  crashed : Outcome A

abbrev pub same_action : Action → Action → Bool
same_action add_nexthop add_nexthop = true
same_action remove_nexthop remove_nexthop = true
same_action _ _ = false

module _ (ndn : Ndn) (order : NameOrder ndn) where
  -- UpdateQueueItem: its batch has one update. `manager` tells the callbacks, where it has any.
  pub record Item : Type 0 where
    pub update : RibUpdate ndn order
    pub manager : Option ℕ

  -- A command started by the controller, with what its callbacks are bound to.
  pub record Command : Type 0 where
    pub update : FibUpdate ndn order
    pub verb : Action
    pub n_timeouts : ℕ
    pub item : Item

  pub data Answer : Type 0 where
    succeeded : Item → Answer
    failed : Item → ℕ → Answer

  pub record Session : Type 0 where
    pub rib : Rib ndn order
    pub update_batches : List Item
    pub is_update_in_progress : Bool
    pub updates : Updates ndn order
    pub sent : List Command
    pub answers : List Answer

  -- FibUpdate::operator== and std::list::remove
  abbrev pub same_update : FibUpdate ndn order → FibUpdate ndn order → Bool
  same_update f g =
      ndn.name_eq f.name g.name
      && (f.face_id == g.face_id && (f.cost == g.cost && same_action f.action g.action))

  abbrev pub remove_update :
      FibUpdate ndn order → List (FibUpdate ndn order) → List (FibUpdate ndn order)
  remove_update f us = copy_if (λ g. not (same_update g f)) us

  -- Rib::modifyInheritedRoutes. An assertion says that each name is there.
  unfoldable pub modify_inherited_routes :
      List (RibUpdate ndn order) → Rib ndn order → Rib ndn order
  unfolding modify
  modify_inherited_routes [] rib = rib
  modify_inherited_routes (u ∷ us) rib = modify_inherited_routes us (elim u.action [
    | register ↦ record rib {
      table = modify ndn order u.name (add_inherited_route ndn u.route) rib.table;
    }
    | unregister ↦ record rib {
      table = modify ndn order u.name (remove_inherited_route ndn u.route) rib.table;
    }
    | remove_face ↦ rib
  ])

  -- The update of a batch, applied to the RIB.
  unfoldable pub apply_update : RibUpdate ndn order → Rib ndn order → Rib ndn order
  unfolding insert erase
  apply_update u rib = elim u.action [
    | register ↦ insert ndn order u.name u.route rib
    | unregister ↦ erase ndn order u.name u.route rib
    | remove_face ↦ erase ndn order u.name u.route rib
  ]

  -- Rib::onFibUpdateSuccess and Rib::onFibUpdateFailure, up to the next batch.
  unfoldable pub succeed : Item → Session → Session
  unfolding apply_update modify_inherited_routes
  succeed item s = record s {
    rib = modify_inherited_routes s.updates.inherited_routes (apply_update item.update s.rib);
    is_update_in_progress = false;
    answers = s.answers ++ succeeded item ∷ [];
  }

  unfoldable pub fail : Item → ℕ → Session → Session
  fail item code s = record s {
    is_update_in_progress = false;
    answers = s.answers ++ failed item code ∷ [];
  }

  -- sendAddNextHopUpdate and sendRemoveNextHopUpdate; sendUpdates.
  abbrev pub send : Command → Session → Session
  send c s = record s { sent = s.sent ++ c ∷ [] }

  abbrev pub send_add_next_hop_update : FibUpdate ndn order → Item → ℕ → Session → Session
  send_add_next_hop_update f item n s =
      send (record { update = f; verb = add_nexthop; n_timeouts = n; item = item }) s

  abbrev pub send_remove_next_hop_update : FibUpdate ndn order → Item → ℕ → Session → Session
  send_remove_next_hop_update f item n s =
      send (record { update = f; verb = remove_nexthop; n_timeouts = n; item = item }) s

  unfoldable pub send_updates : List (FibUpdate ndn order) → Item → Session → Session
  send_updates [] item s = s
  send_updates (f ∷ fs) item s = send_updates fs item (elim f.action [
    | add_nexthop ↦ send_add_next_hop_update f item 0 s
    | remove_nexthop ↦ send_remove_next_hop_update f item 0 s
  ])

  module _ (second_lowest : List Route → Option Route) where
    -- Rib::sendBatchFromQueue for the batches given, with computeAndSendFibUpdates: a batch without
    -- FIB updates succeeds at once, and the next one is sent.
    unfoldable pub send_batches : List Item → Session → Outcome Session
    unfolding succeed send_updates compute_updates
    send_batches [] s = going (record s { update_batches = [] })
    send_batches (item ∷ items) s =
        let computed : Outcome Session =
          elim (compute_updates ndn order second_lowest s.rib.table item.update) [
            | none ↦ crashed
            | some u ↦
                let started : Session = record s {
                  is_update_in_progress = true;
                  updates = u;
                  update_batches = items;
                } in
                let next = send_batches items (succeed item started) in
                elim u.for_batch_face_id [
                  | f ∷ fs ↦ going (send_updates (f ∷ fs) item started)
                  | [] ↦ elim u.for_non_batch_face_id [
                    | f ∷ fs ↦ going (send_updates (f ∷ fs) item started)
                    | [] ↦ next
                  ]
                ]
          ] in
        if s.is_update_in_progress
        then going (record s { update_batches = item ∷ items })
        else computed

    abbrev pub send_batch_from_queue : Session → Outcome Session
    send_batch_from_queue s = send_batches s.update_batches s

    -- sendUpdatesForNonBatchFaceId, with the callback onFibUpdateSuccess.
    unfoldable pub send_updates_for_non_batch_face_id : Item → Session → Outcome Session
    unfolding send_updates succeed send_batches
    send_updates_for_non_batch_face_id item s = elim s.updates.for_non_batch_face_id [
      | f ∷ fs ↦ going (send_updates (f ∷ fs) item s)
      | [] ↦ send_batch_from_queue (succeed item s)
    ]

    -- The removal of an answered update that is not of the batch's face.
    abbrev pub answer_non_batch : Command → Session → Outcome Session
    answer_non_batch c s =
        let left = remove_update c.update s.updates.for_non_batch_face_id in
        let s' : Session = record s {
          updates = record s.updates { for_non_batch_face_id = left };
        } in
        elim left [ [] ↦ send_batch_from_queue (succeed c.item s') | _ ↦ going s' ]

    -- onUpdateSuccess
    unfoldable pub on_update_success : Command → Session → Outcome Session
    unfolding send_updates_for_non_batch_face_id
    on_update_success c s =
        let left = remove_update c.update s.updates.for_batch_face_id in
        let s' : Session = record s { updates = record s.updates { for_batch_face_id = left } } in
        if c.update.face_id == s.updates.batch_face_id
        then elim left [ [] ↦ send_updates_for_non_batch_face_id c.item s' | _ ↦ going s' ]
        else answer_non_batch c s

    -- onUpdateError; `error_timeout` is ndn-cxx's ERROR_TIMEOUT.
    unfoldable pub on_update_error : ℕ → Command → ℕ → Session → Outcome Session
    unfolding fail send_batches
    on_update_error error_timeout c code s =
        if code == error_timeout && ltb c.n_timeouts max_num_timeouts
        then going (send_add_next_hop_update c.update c.item (c.n_timeouts + 1) s)
        else if code == error_face_not_found
        then (if c.update.face_id == s.updates.batch_face_id
            then send_batch_from_queue (fail c.item code s)
            else answer_non_batch c s)
        else thrown code

    -- beginApplyUpdate and onRouteExpiration, with addUpdateToQueue.
    abbrev pub add_update_to_queue : RibUpdate ndn order → Option ℕ → Session → Session
    add_update_to_queue u manager s = record s {
      update_batches = s.update_batches ++ record { update = u; manager = manager } ∷ [];
    }

    unfoldable pub begin_apply_update : RibUpdate ndn order → Option ℕ → Session → Outcome Session
    unfolding send_batches
    begin_apply_update u manager s = send_batch_from_queue (add_update_to_queue u manager s)

    unfoldable pub on_route_expiration : ndn.Name → Route → Session → Outcome Session
    unfolding begin_apply_update
    on_route_expiration name route s =
        begin_apply_update (record { action = unregister; name = name; route = route }) none s

    -- beginRemoveFace
    unfoldable pub add_removals : List (ndn.Name × Route) → Session → Session
    add_removals [] s = s
    add_removals ((name, route) ∷ rest) s =
        add_removals rest
          (add_update_to_queue (record { action = remove_face; name = name; route = route }) none s)

    unfoldable pub begin_remove_face : ℕ → Session → Outcome Session
    unfolding find_routes_with_face_id add_removals send_batches
    begin_remove_face face_id s =
        send_batch_from_queue (add_removals (find_routes_with_face_id ndn order face_id s.rib) s)
