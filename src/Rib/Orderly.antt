-- ===== src/Rib/Orderly.antt =====
-- The queue of rib/rib.cpp up to the first failure of the batch's face while other commands wait.
use nfd_pitless.Base.{
  ℕ, ◌≡◌, ◌∙◌, refl, sym, ap, subst, Bool, true, false, not, ◌&&◌, List, [], ◌∷◌, ◌++◌, Option,
  none, some, get_elem?, inl, inr, Option-cases, arith, ◌==◌, length,
}
use mathlib.Core.List.{append_assoc, append-nil}
use nfd_pitless.Ndn.{Ndn}
use nfd_pitless.Rib.{Route}
use nfd_pitless.Rib.Names.{NameOrder}
use nfd_pitless.Rib.Table.{find_routes_with_face_id}
use nfd_pitless.Rib.Sending.{
  going, error_face_not_found, Item, Command, Session, send_batches, begin_apply_update,
  on_route_expiration, begin_remove_face, add_removals,
}
use nfd_pitless.Rib.Queue.{
  Event, applied, expired, face_removed, done, refused, removals, queued, fails_early, step,
  Reached, started, stepped,
}
use nfd_pitless.Rib.Serial.{answered, IsBusy, IsSerial, Serial, send_batches-IsSerial}
use nfd_pitless.Rib.Answered.{success-IsSerial, error-IsSerial}

module _ (ndn : Ndn) (order : NameOrder ndn) (second_lowest : List Route → Option Route) where
  waits :
      (queue : List (Item ndn order)) (s : Session ndn order)
      → s.is_update_in_progress ≡ true
      → send_batches ndn order second_lowest queue s ≡ going (record s { update_batches = queue })
  unfolding send_batches
  waits [] s busy = refl
  waits (item ∷ queue) s busy = rw (busy, send_batches) refl

  -- Items put at the end of the queue.
  put-IsSerial :
      (more : List (Item ndn order)) (s : Session ndn order) (items : List (Item ndn order))
      → IsSerial ndn order s items
      → Serial ndn order
          (send_batches ndn order second_lowest
            (s.update_batches ++ more)
            (record s { update_batches = s.update_batches ++ more }))
          (items ++ more)
  put-IsSerial more s items (inl idle) = rw (idle.nothing_queued) (
      subst
        (λ l.
          Serial ndn order
            (send_batches ndn order second_lowest more (record s { update_batches = more }))
            (l ++ more))
        idle.all_answered
        (send_batches-IsSerial ndn order second_lowest more (record s { update_batches = more })
          idle.nothing_sent idle.not_in_progress))
  put-IsSerial more s items (inr b) =
      subst (λ o. Serial ndn order o (items ++ more))
        (sym (
          waits (s.update_batches ++ more) (record s { update_batches = s.update_batches ++ more })
            b.in_progress))
        (inr (record {
          item = b.item;
          in_progress = b.in_progress;
          of_item = b.of_item;
          waiting = b.waiting;
          separated = b.separated;
          matching = b.matching;
          in_order =
              sym (append_assoc (answered ndn order s.answers) (b.item ∷ s.update_batches) more)
              ∙ ap (λ l. l ++ more) b.in_order;
        }))

  add_removals_eq :
      (pairs : List (ndn.Name × Route)) (s : Session ndn order)
      → add_removals ndn order second_lowest pairs s
        ≡ record s { update_batches = s.update_batches ++ removals ndn order pairs }
  unfolding add_removals
  add_removals_eq [] s =
      ap (λ q. record s { update_batches = q }) (sym (append-nil s.update_batches))
  add_removals_eq ((name, route) ∷ rest) s =
      add_removals_eq rest _
      ∙ ap (λ q. record s { update_batches = q }) (append_assoc s.update_batches _ _)

  busy_where :
      (s : Session ndn order) (items : List (Item ndn order)) (i : ℕ) (c : Command ndn order)
      → get_elem? s.sent i ≡ some c
      → IsSerial ndn order s items
      → IsBusy ndn order s items
  busy_where s items i c found (inr b) = b
  busy_where s items i c found (inl idle) =
      let nothing : get_elem? s.sent i ≡ none = rw (idle.nothing_sent) refl in absurd (cc)

  alone :
      (s : Session ndn order) (i code : ℕ) (c : Command ndn order)
      → get_elem? s.sent i ≡ some c
      → fails_early ndn order (refused i code) s ≡ false
      → (c.update.face_id == s.updates.batch_face_id) ≡ true
      → code ≡ error_face_not_found
      → length s.sent ≡ 1
  unfolding fails_early
  alone s i code c found in_turn own gone =
      let others : (c.update.face_id == s.updates.batch_face_id
            && (code == error_face_not_found && not (length s.sent == 1)))
          ≡ false =
        sym (rw (found, fails_early) refl) ∙ in_turn in
      ground arith

  step-IsSerial :
      (error_timeout : ℕ) (e : Event ndn order) (s : Session ndn order)
      (items : List (Item ndn order))
      → IsSerial ndn order s items
      → fails_early ndn order e s ≡ false
      → Serial ndn order
          (step ndn order second_lowest error_timeout e s)
          (items ++ queued ndn order e s)
  unfolding step queued begin_apply_update on_route_expiration begin_remove_face
  step-IsSerial error_timeout (applied u manager) s items h in_turn = put-IsSerial _ s items h
  step-IsSerial error_timeout (expired name route) s items h in_turn = put-IsSerial _ s items h
  step-IsSerial error_timeout (face_removed face_id) s items h in_turn =
      rw (add_removals_eq (find_routes_with_face_id ndn order face_id s.rib) s)
        (put-IsSerial _ s items h)
  step-IsSerial error_timeout (done i) s items h in_turn =
      rw (append-nil items) (elim (Option-cases (get_elem? s.sent i)) [
        | inl gone ↦ rw (gone, step) h
        | inr (c, found) ↦
            rw (found, step)
              (success-IsSerial ndn order second_lowest s items i c found
                (busy_where s items i c found h))
      ])
  step-IsSerial error_timeout (refused i code) s items h in_turn =
      rw (append-nil items) (elim (Option-cases (get_elem? s.sent i)) [
        | inl gone ↦ rw (gone, step) h
        | inr (c, found) ↦
            rw (found, step)
              (error-IsSerial ndn order second_lowest s items i c found
                (busy_where s items i c found h) error_timeout code
                (alone s i code c found in_turn))
      ])

  -- Of every state that any updates, expirations, removals of faces and answers lead to, with the
  -- items ever queued, as long as the controller has not once said that there is no such face to a
  -- command for the face of the batch while other commands waited for their answers: either no
  -- update is in progress, no command waits, the queue is empty and all items have been answered in
  -- the order in which they were queued; or one item is in progress, at least one command waits, all
  -- that wait belong to that item and are those of the updates due, and the items answered, that
  -- item and the queue are all items in order.
  pub Reached-IsSerial :
      (error_timeout : ℕ) (s : Session ndn order) (items : List (Item ndn order)) (in_turn : Bool)
      → Reached ndn order second_lowest error_timeout s items in_turn
      → in_turn ≡ true
      → IsSerial ndn order s items
  Reached-IsSerial error_timeout s items in_turn (started rib) _ = inl (record {
    not_in_progress = refl;
    nothing_sent = refl;
    nothing_queued = refl;
    all_answered = refl;
  })
  Reached-IsSerial error_timeout s items in_turn (stepped s0 s' before so_far e reached steps) h =
      let both : (so_far ≡ true) × (fails_early ndn order e s0 ≡ false) = ground arith in
      subst (λ o. Serial ndn order o (before ++ queued ndn order e s0)) steps
        (step-IsSerial error_timeout e s0 before
          (Reached-IsSerial error_timeout s0 before so_far reached both.0) both.1)
