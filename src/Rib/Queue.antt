-- ===== src/Rib/Queue.antt =====
-- What happens to rib/rib.cpp from the outside: updates that the RIB manager asks for, routes that
-- expire, faces that go, and answers to the commands sent, in any order.
use nfd_pitless.Base.{
  ℕ, zero, suc, ◌≡◌, Bool, true, false, not, ◌&&◌, List, [], ◌∷◌, ◌++◌, Option, none, some, ◌==◌,
  length, get_elem?,
}
use nfd_pitless.Ndn.{Ndn}
use nfd_pitless.Rib.{Route}
use nfd_pitless.Rib.Names.{NameOrder}
use nfd_pitless.Rib.Table.{Rib, find_routes_with_face_id}
use nfd_pitless.Rib.Updater.{unregister, remove_face, RibUpdate, Updates}
use nfd_pitless.Rib.Sending.{
  Outcome, going, Item, Session, error_face_not_found, begin_apply_update, on_route_expiration,
  begin_remove_face, on_update_success, on_update_error,
}

abbrev pub erase_at : {A : Type 0} → ℕ → List A → List A
erase_at i [] = []
erase_at zero (x ∷ xs) = xs
erase_at (suc i) (x ∷ xs) = x ∷ erase_at i xs

module _ (ndn : Ndn) (order : NameOrder ndn) where
  pub data Event : Type 0 where
    applied : RibUpdate ndn order → ℕ → Event
    expired : ndn.Name → Route → Event
    face_removed : ℕ → Event
    -- the answer to a command, by its place among those that wait for one
    done : ℕ → Event
    refused : ℕ → ℕ → Event

  -- The items that an event puts into the queue.
  abbrev pub removals : List (ndn.Name × Route) → List (Item ndn order)
  removals [] = []
  removals ((name, route) ∷ rest) =
      record {
        update = record { action = remove_face; name = name; route = route };
        manager = none;
      }
      ∷ removals rest

  unfoldable pub queued : Event → Session ndn order → List (Item ndn order)
  unfolding find_routes_with_face_id
  queued (applied u manager) s = record { update = u; manager = some manager } ∷ []
  queued (expired name route) s =
      record { update = record { action = unregister; name = name; route = route }; manager = none }
      ∷ []
  queued (face_removed face_id) s = removals (find_routes_with_face_id ndn order face_id s.rib)
  queued (done i) s = []
  queued (refused i code) s = []

  -- The answer is that there is no such face, to a command for the batch's face, while other commands
  -- wait for an answer.
  unfoldable pub fails_early : Event → Session ndn order → Bool
  fails_early (refused i code) s = elim (get_elem? s.sent i) [
    | none ↦ false
    | some c ↦
        c.update.face_id == s.updates.batch_face_id
        && (code == error_face_not_found && not (length s.sent == 1))
  ]
  fails_early _ s = false

  module _ (second_lowest : List Route → Option Route) (error_timeout : ℕ) where
    unfoldable pub step : Event → Session ndn order → Outcome (Session ndn order)
    unfolding begin_apply_update on_route_expiration begin_remove_face on_update_success
        on_update_error
    step (applied u manager) s = begin_apply_update ndn order second_lowest u (some manager) s
    step (expired name route) s = on_route_expiration ndn order second_lowest name route s
    step (face_removed face_id) s = begin_remove_face ndn order second_lowest face_id s
    step (done i) s = elim (get_elem? s.sent i) [
      | none ↦ going s
      | some c ↦ on_update_success ndn order second_lowest c (record s { sent = erase_at i s.sent })
    ]
    step (refused i code) s = elim (get_elem? s.sent i) [
      | none ↦ going s
      | some c ↦
          on_update_error ndn order second_lowest error_timeout c code
            (record s { sent = erase_at i s.sent })
    ]

  abbrev pub no_updates : Updates ndn order
  no_updates = record {
    batch_face_id = 0;
    for_batch_face_id = [];
    for_non_batch_face_id = [];
    inherited_routes = [];
  }

  abbrev pub new_session : Rib ndn order → Session ndn order
  new_session rib = record {
    rib = rib;
    update_batches = [];
    is_update_in_progress = false;
    updates = no_updates;
    sent = [];
    answers = [];
  }

  -- The states that any events lead to, with all items that were ever queued, in order, and whether
  -- no event so far has been one that `fails_early`.
  pub data Reached (second_lowest : List Route → Option Route) (error_timeout : ℕ)
      : Session ndn order → List (Item ndn order) → Bool → Type 0 where
    started : (rib : Rib ndn order) → Reached second_lowest error_timeout (new_session rib) [] true
    stepped :
        (s s' : Session ndn order) (items : List (Item ndn order)) (in_turn : Bool) (e : Event)
        → Reached second_lowest error_timeout s items in_turn
        → step second_lowest error_timeout e s ≡ going s'
        → Reached second_lowest error_timeout s'
            (items ++ queued e s)
            (in_turn && not (fails_early e s))
