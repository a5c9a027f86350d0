-- ===== src/Rib/Answered.antt =====
-- An answer to a command of rib/fib-updater.cpp.
use nfd_pitless.Base.{
  ℕ, zero, suc, ◌≡◌, ◌∙◌, refl, sym, ap, subst, true, false, ◌&&◌, List, [], ◌∷◌, ◌++◌, Option,
  some, arith, All-append, ltb, ◌==◌, length, length-append, get_elem?, inl, inr, Bool-cases,
  List-cases,
}
use nfd_pitless.Ndn.{Ndn}
use nfd_pitless.Rib.{Route}
use nfd_pitless.Rib.Names.{NameOrder}
use nfd_pitless.Rib.Updater.{FibUpdate, Updates}
use nfd_pitless.Rib.Separated.{IsSeparated, Once}
use nfd_pitless.Rib.Sending.{
  Outcome, going, Item, Command, Session, succeed, send_updates, send_batches,
  send_updates_for_non_batch_face_id, answer_non_batch, on_update_success, on_update_error,
  remove_update, same_update, max_num_timeouts, error_face_not_found,
}
use nfd_pitless.Rib.Queue.{erase_at}
use nfd_pitless.Rib.Counts.{
  count, count_sent, All-erase_at, All-get_elem?, count_sent-erase_at, count_sent-append,
  All-remove_update, Once-remove_update, answered_has, rest_matches, rest_gone, rest_waits,
}
use nfd_pitless.Rib.Serial.{
  answered, due, IsBusy, Serial, sent-IsBusy, succeed-IsSerial, fail-IsSerial,
}

erase_one :
    {A : Type 0} (i : ℕ) (xs : List A) {x : A}
    → length xs ≡ 1
    → get_elem? xs i ≡ some x
    → erase_at i xs ≡ []
erase_one i [] one found = refl
erase_one zero (y ∷ []) one found = refl
erase_one (suc i) (y ∷ []) one found = absurd (cc)
erase_one i (y ∷ z ∷ zs) one found = absurd (omega (arith, one))

module _ (ndn : Ndn) (order : NameOrder ndn) (second_lowest : List Route → Option Route)
    (s : Session ndn order) (items : List (Item ndn order)) (i : ℕ) (c : Command ndn order)
    (found : get_elem? s.sent i ≡ some c) (b : IsBusy ndn order s items) where
  pub its_item : c.item ≡ b.item
  its_item = All-get_elem? (λ (d : Command ndn order). d.item ≡ b.item) i s.sent c b.of_item found

  ordered : answered ndn order s.answers ++ c.item ∷ s.update_batches ≡ items
  ordered = ap (λ k. answered ndn order s.answers ++ k ∷ s.update_batches) its_item ∙ b.in_order

  -- The command is of the face of the list that the commands were sent for.
  due_batch :
      (f : FibUpdate ndn order) (fs : List (FibUpdate ndn order))
      → s.updates.for_batch_face_id ≡ f ∷ fs
      → due ndn order s.updates ≡ s.updates.for_batch_face_id
  due_batch f fs h = rw h refl

  pub due_others :
      s.updates.for_batch_face_id ≡ [] → due ndn order s.updates ≡ s.updates.for_non_batch_face_id
  due_others h = rw h refl

  pub matching_list :
      (us : List (FibUpdate ndn order))
      → due ndn order s.updates ≡ us
      → (f : FibUpdate ndn order) → count_sent ndn order f s.sent ≡ count ndn order f us
  matching_list us dues f = b.matching f ∙ ap (count ndn order f) dues

  pub no_batch_left :
      (c.update.face_id == s.updates.batch_face_id) ≡ false → s.updates.for_batch_face_id ≡ []
  no_batch_left other = elim (List-cases s.updates.for_batch_face_id) [
    | inl gone ↦ gone
    | inr (f, fs, batch) ↦
        let of_batch : (c.update.face_id == s.updates.batch_face_id) ≡ true =
          answered_has ndn order s.updates.for_batch_face_id s.sent i c found
            (matching_list _ (due_batch f fs batch))
            (λ g. (g.face_id == s.updates.batch_face_id) ≡ true) b.separated.of_batch in
        absurd (cc)
  ]

  pub batch_left :
      (c.update.face_id == s.updates.batch_face_id) ≡ true
      → due ndn order s.updates ≡ s.updates.for_batch_face_id
  batch_left own = elim (List-cases s.updates.for_batch_face_id) [
    | inr (f, fs, batch) ↦ due_batch f fs batch
    | inl gone ↦
        let of_others : (c.update.face_id == s.updates.batch_face_id) ≡ false =
          answered_has ndn order s.updates.for_non_batch_face_id s.sent i c found
            (matching_list _ (due_others gone))
            (λ g. (g.face_id == s.updates.batch_face_id) ≡ false) b.separated.of_others in
        absurd (cc)
  ]

  -- Some of the list's updates are left.
  busy_still :
      (u' : Updates ndn order) (x : FibUpdate ndn order) (xs : List (FibUpdate ndn order))
      → IsSeparated ndn order u'
      → due ndn order u' ≡ remove_update ndn order c.update (due ndn order s.updates)
      → Once ndn order (due ndn order s.updates)
      → due ndn order u' ≡ x ∷ xs
      → IsBusy ndn order (record s { sent = erase_at i s.sent; updates = u' }) items
  busy_still u' x xs separated taken once left = record {
    item = b.item;
    in_progress = b.in_progress;
    of_item = All-erase_at (λ (d : Command ndn order). d.item ≡ b.item) i s.sent b.of_item;
    waiting =
        rest_waits ndn order (due ndn order s.updates) s.sent i c found b.matching once x xs
          (sym taken ∙ left);
    separated = separated;
    matching = λ f.
        rest_matches ndn order (due ndn order s.updates) s.sent i c found b.matching f once
        ∙ ap (count ndn order f) (sym taken);
    in_order = b.in_order;
  }

  others_answered :
      (c.update.face_id == s.updates.batch_face_id) ≡ false
      → Serial ndn order
          (answer_non_batch ndn order second_lowest c (record s { sent = erase_at i s.sent }))
          items
  unfolding succeed
  others_answered other = taken left refl
    where
      left : List (FibUpdate ndn order)
      left = remove_update ndn order c.update s.updates.for_non_batch_face_id

      dues : due ndn order s.updates ≡ s.updates.for_non_batch_face_id
      dues = due_others (no_batch_left other)

      once : Once ndn order (due ndn order s.updates)
      once = subst (Once ndn order) (sym dues) b.separated.once_others

      after : Session ndn order
      after = record s {
        sent = erase_at i s.sent;
        updates = record s.updates { for_non_batch_face_id = left };
      }

      sep : IsSeparated ndn order after.updates
      sep = record {
        of_batch = b.separated.of_batch;
        once_batch = b.separated.once_batch;
        of_others =
            All-remove_update ndn order (λ g. (g.face_id == s.updates.batch_face_id) ≡ false)
              c.update s.updates.for_non_batch_face_id b.separated.of_others;
        once_others =
            Once-remove_update ndn order c.update s.updates.for_non_batch_face_id
              b.separated.once_others;
      }

      now_due : due ndn order after.updates ≡ left
      now_due = rw (no_batch_left other) refl

      taken :
          (l : List (FibUpdate ndn order))
          → left ≡ l
          → Serial ndn order
              (elim l as (λ _. Outcome (Session ndn order)) [
                | [] ↦
                    send_batches ndn order second_lowest after.update_batches
                      (succeed ndn order c.item after)
                | _ ↦ going after
              ])
              items
      taken [] gone =
          succeed-IsSerial ndn order second_lowest c.item after items
            (rest_gone ndn order s.updates.for_non_batch_face_id s.sent i c found
              (matching_list _ dues) b.separated.once_others gone)
            ordered
      taken (x ∷ xs) more = inr (
          busy_still after.updates x xs sep
            (now_due ∙ ap (remove_update ndn order c.update) (sym dues)) once (now_due ∙ more))

  batch_answered :
      (c.update.face_id == s.updates.batch_face_id) ≡ true
      → Serial ndn order
          (on_update_success ndn order second_lowest c (record s { sent = erase_at i s.sent }))
          items
  unfolding on_update_success send_updates_for_non_batch_face_id
  batch_answered own = rw (own, on_update_success) (taken left refl)
    where
      left : List (FibUpdate ndn order)
      left = remove_update ndn order c.update s.updates.for_batch_face_id

      dues : due ndn order s.updates ≡ s.updates.for_batch_face_id
      dues = batch_left own

      once : Once ndn order (due ndn order s.updates)
      once = subst (Once ndn order) (sym dues) b.separated.once_batch

      after : Session ndn order
      after = record s {
        sent = erase_at i s.sent;
        updates = record s.updates { for_batch_face_id = left };
      }

      sep : IsSeparated ndn order after.updates
      sep = record {
        of_batch =
            All-remove_update ndn order (λ g. (g.face_id == s.updates.batch_face_id) ≡ true)
              c.update s.updates.for_batch_face_id b.separated.of_batch;
        once_batch =
            Once-remove_update ndn order c.update s.updates.for_batch_face_id
              b.separated.once_batch;
        of_others = b.separated.of_others;
        once_others = b.separated.once_others;
      }

      all_gone : left ≡ [] → after.sent ≡ []
      all_gone gone =
          rest_gone ndn order s.updates.for_batch_face_id s.sent i c found (matching_list _ dues)
            b.separated.once_batch gone

      others :
          left ≡ []
          → (l : List (FibUpdate ndn order)) → s.updates.for_non_batch_face_id ≡ l
          → Serial ndn order
              (elim l as (λ _. Outcome (Session ndn order)) [
                | f ∷ fs ↦ going (send_updates ndn order (f ∷ fs) c.item after)
                | [] ↦
                    send_batches ndn order second_lowest after.update_batches
                      (succeed ndn order c.item after)
              ])
              items
      others gone [] none_other =
          succeed-IsSerial ndn order second_lowest c.item after items (all_gone gone) ordered
      others gone (f ∷ fs) more = inr (
          sent-IsBusy ndn order second_lowest c.item after items f fs (all_gone gone) b.in_progress
            sep (rw gone more) ordered)

      taken :
          (l : List (FibUpdate ndn order))
          → left ≡ l
          → Serial ndn order
              (elim l as (λ _. Outcome (Session ndn order)) [
                | [] ↦ send_updates_for_non_batch_face_id ndn order second_lowest c.item after
                | _ ↦ going after
              ])
              items
      taken [] gone = others gone s.updates.for_non_batch_face_id refl
      taken (x ∷ xs) more =
          let now_due : due ndn order after.updates ≡ left = rw more refl in
          inr (
            busy_still after.updates x xs sep
              (now_due ∙ ap (remove_update ndn order c.update) (sym dues)) once (now_due ∙ more))

  -- Both kinds of answers.
  pub success-IsSerial :
      Serial ndn order
        (on_update_success ndn order second_lowest c (record s { sent = erase_at i s.sent }))
        items
  unfolding on_update_success
  success-IsSerial = elim (Bool-cases (c.update.face_id == s.updates.batch_face_id)) [
    | inl own ↦ batch_answered own
    | inr other ↦ rw (other, on_update_success) (others_answered other)
  ]

  resent-IsBusy :
      (d : Command ndn order)
      → d.update ≡ c.update
      → d.item ≡ c.item
      → IsBusy ndn order (record s { sent = erase_at i s.sent ++ d ∷ [] }) items
  resent-IsBusy d same_as same_item = record {
    item = b.item;
    in_progress = b.in_progress;
    of_item =
        All-append _ (erase_at i s.sent) (d ∷ [])
          (All-erase_at (λ (d : Command ndn order). d.item ≡ b.item) i s.sent b.of_item)
          (same_item ∙ its_item, tt);
    waiting = ground (arith, length-append (erase_at i s.sent) (d ∷ []));
    separated = b.separated;
    matching = λ f.
        let same = ap (same_update ndn order f) same_as in
        let now = count_sent-append ndn order f (erase_at i s.sent) (d ∷ []) in
        let before = count_sent-erase_at ndn order f i s.sent c found in
        ground (arith, b.matching f);
    in_order = b.in_order;
  }

  -- A failure of the batch's face, where no other command waits, lets the item fail.
  pub error-IsSerial :
      (error_timeout code : ℕ)
      → ((c.update.face_id == s.updates.batch_face_id) ≡ true
          → code ≡ error_face_not_found
          → length s.sent ≡ 1)
      → Serial ndn order
          (on_update_error ndn order second_lowest error_timeout c code
            (record s { sent = erase_at i s.sent }))
          items
  unfolding on_update_error
  error-IsSerial error_timeout code alone =
      elim (Bool-cases (code == error_timeout && ltb c.n_timeouts max_num_timeouts)) [
        | inl again ↦ rw (again, on_update_error) (inr (resent-IsBusy _ refl refl))
        | inr final ↦
            rw (final, on_update_error)
              (elim (Bool-cases (code == error_face_not_found)) [
                | inr other ↦ rw other tt
                | inl gone ↦
                    rw gone (elim (Bool-cases (c.update.face_id == s.updates.batch_face_id)) [
                      | inr elsewhere ↦ rw elsewhere (others_answered elsewhere)
                      | inl own ↦ rw own (
                          fail-IsSerial ndn order second_lowest c.item code
                            (record s { sent = erase_at i s.sent }) items
                            (erase_one i s.sent (alone own (ground arith)) found) ordered)
                    ])
              ])
      ]
