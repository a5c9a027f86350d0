-- ===== src/Rib/Progress.antt =====
-- What a success answers to a command of rib/fib-updater.cpp leads to.
use nfd_pitless.Base.{
  ℕ, ◌+◌, ◌<◌, ◌≡◌, refl, ap, true, false, List, [], ◌∷◌, ◌++◌, Option, some, arith, ◌==◌, length,
  get_elem?, ◌⊎◌, inl, inr, Bool-cases,
}
use nfd_pitless.Ndn.{Ndn}
use nfd_pitless.Rib.{Route}
use nfd_pitless.Rib.Names.{NameOrder}
use nfd_pitless.Rib.Updater.{FibUpdate}
use nfd_pitless.Rib.Sending.{
  Outcome, going, Item, Command, Session, succeed, send_updates, send_batches,
  send_updates_for_non_batch_face_id, answer_non_batch, on_update_success, remove_update,
}
use nfd_pitless.Rib.Queue.{done, erase_at, step}
use nfd_pitless.Rib.Counts.{answered_is_due, rest_gone, length-remove_update_lt}
use nfd_pitless.Rib.Started.{commands, send_updates_eq}
use nfd_pitless.Rib.Serial.{due, IsBusy}
use nfd_pitless.Rib.Answered.{its_item, no_batch_left, batch_left, due_others, matching_list}

module _ (ndn : Ndn) (order : NameOrder ndn) (second_lowest : List Route → Option Route) where
  -- The FIB updates of the batch that are not answered.
  abbrev pub unanswered : Session ndn order → ℕ
  unanswered s = length s.updates.for_batch_face_id + length s.updates.for_non_batch_face_id

  -- Fewer updates are unanswered, or the item has been applied and the next ones are sent.
  abbrev pub Advances : Item ndn order → Session ndn order → Outcome (Session ndn order) → Type 0
  Advances item s o =
      ((s' : Session ndn order) × (o ≡ going s')
        × (s'.answers ≡ s.answers)
        × (unanswered s' < unanswered s))
      ⊎ ((s' : Session ndn order) × (o
            ≡ send_batches ndn order second_lowest s.update_batches (succeed ndn order item s'))
          × (s'.rib ≡ s.rib)
          × (s'.answers ≡ s.answers)
          × (s'.sent ≡ []))

  module _ (s : Session ndn order) (items : List (Item ndn order)) (i : ℕ) (c : Command ndn order)
      (found : get_elem? s.sent i ≡ some c) (b : IsBusy ndn order s items) where
    others-Advances :
        (c.update.face_id == s.updates.batch_face_id) ≡ false
        → Advances b.item s
            (answer_non_batch ndn order second_lowest c (record s { sent = erase_at i s.sent }))
    unfolding succeed
    others-Advances other = taken left refl
      where
        left : List (FibUpdate ndn order)
        left = remove_update ndn order c.update s.updates.for_non_batch_face_id

        dues : due ndn order s.updates ≡ s.updates.for_non_batch_face_id
        dues =
            due_others ndn order second_lowest s items i c found b
              (no_batch_left ndn order second_lowest s items i c found b other)

        after : Session ndn order
        after = record s {
          sent = erase_at i s.sent;
          updates = record s.updates { for_non_batch_face_id = left };
        }

        taken :
            (l : List (FibUpdate ndn order))
            → left ≡ l
            → Advances b.item s (elim l as (λ _. Outcome (Session ndn order)) [
              | [] ↦
                  send_batches ndn order second_lowest after.update_batches
                    (succeed ndn order c.item after)
              | _ ↦ going after
            ])
        taken [] gone = inr (
          after,
          ap
              (λ k.
                send_batches ndn order second_lowest s.update_batches (succeed ndn order k after))
              (its_item ndn order second_lowest s items i c found b),
          refl,
          refl,
          rest_gone ndn order s.updates.for_non_batch_face_id s.sent i c found
              (matching_list ndn order second_lowest s items i c found b _ dues)
              b.separated.once_others gone,
        )
        taken (x ∷ xs) more =
            let shorter =
              length-remove_update_lt ndn order c.update s.updates.for_non_batch_face_id (
                answered_is_due ndn order s.updates.for_non_batch_face_id s.sent i c found
                  (matching_list ndn order second_lowest s items i c found b _ dues)) in
            inl (after, refl, refl, omega (arith, shorter))

    batch-Advances :
        (c.update.face_id == s.updates.batch_face_id) ≡ true
        → Advances b.item s
            (on_update_success ndn order second_lowest c (record s { sent = erase_at i s.sent }))
    unfolding on_update_success send_updates_for_non_batch_face_id succeed
    batch-Advances own = rw (own, on_update_success) (taken left refl)
      where
        left : List (FibUpdate ndn order)
        left = remove_update ndn order c.update s.updates.for_batch_face_id

        dues : due ndn order s.updates ≡ s.updates.for_batch_face_id
        dues = batch_left ndn order second_lowest s items i c found b own

        after : Session ndn order
        after = record s {
          sent = erase_at i s.sent;
          updates = record s.updates { for_batch_face_id = left };
        }

        shorter : length left < length s.updates.for_batch_face_id
        shorter = length-remove_update_lt ndn order c.update s.updates.for_batch_face_id (
            answered_is_due ndn order s.updates.for_batch_face_id s.sent i c found
              (matching_list ndn order second_lowest s items i c found b _ dues))

        others :
            left ≡ []
            → (l : List (FibUpdate ndn order))
            → Advances b.item s (elim l as (λ _. Outcome (Session ndn order)) [
              | f ∷ fs ↦ going (send_updates ndn order (f ∷ fs) c.item after)
              | [] ↦
                  send_batches ndn order second_lowest after.update_batches
                    (succeed ndn order c.item after)
            ])
        others gone [] = inr (
          after,
          ap
              (λ k.
                send_batches ndn order second_lowest s.update_batches (succeed ndn order k after))
              (its_item ndn order second_lowest s items i c found b),
          refl,
          refl,
          rest_gone ndn order s.updates.for_batch_face_id s.sent i c found
              (matching_list ndn order second_lowest s items i c found b _ dues)
              b.separated.once_batch gone,
        )
        others gone (f ∷ fs) = inl (
          record after { sent = after.sent ++ commands ndn order c.item (f ∷ fs) },
          ap going (send_updates_eq ndn order (f ∷ fs) c.item after),
          refl,
          omega (arith, shorter),
        )

        taken :
            (l : List (FibUpdate ndn order))
            → left ≡ l
            → Advances b.item s (elim l as (λ _. Outcome (Session ndn order)) [
              | [] ↦ send_updates_for_non_batch_face_id ndn order second_lowest c.item after
              | _ ↦ going after
            ])
        taken [] gone = others gone s.updates.for_non_batch_face_id
        taken (x ∷ xs) more = inl (after, refl, refl, omega (arith, shorter))

    success-Advances :
        Advances b.item s
          (on_update_success ndn order second_lowest c (record s { sent = erase_at i s.sent }))
    unfolding on_update_success
    success-Advances = elim (Bool-cases (c.update.face_id == s.updates.batch_face_id)) [
      | inl own ↦ batch-Advances own
      | inr other ↦ rw (other, on_update_success) (others-Advances other)
    ]

  -- Where an item is in progress, a command that waits is answered with a success: either no item
  -- is answered and fewer FIB updates wait, or the item is applied to the RIB as it is, no command
  -- waits, and the next items are sent.
  pub success_progress :
      (error_timeout : ℕ) (s : Session ndn order) (items : List (Item ndn order)) (i : ℕ)
      (c : Command ndn order)
      → get_elem? s.sent i ≡ some c
      → (b : IsBusy ndn order s items)
      → Advances b.item s (step ndn order second_lowest error_timeout (done i) s)
  unfolding step
  success_progress error_timeout s items i c found b =
      rw (found, step) (success-Advances s items i c found b)
