-- ===== src/Rib/Serial.antt =====
-- One RIB update at a time: the queue and the commands of rib/rib.cpp and rib/fib-updater.cpp.
use nfd_pitless.Base.{
  ℕ, ◌≡◌, ◌∙◌, refl, sym, ap, subst, true, false, List, [], ◌∷◌, ◌++◌, Option, arith, All, ltb,
  length, ◌⊎◌, inl, inr, Option-cases, List-cases,
}
use mathlib.Core.List.{append_assoc, append-nil}
use nfd_pitless.Ndn.{Ndn}
use nfd_pitless.Rib.{Route}
use nfd_pitless.Rib.Names.{NameOrder}
use nfd_pitless.Rib.Updater.{FibUpdate, Updates}
use nfd_pitless.Rib.Updated.{compute_updates}
use nfd_pitless.Rib.Separated.{IsSeparated, compute_updates-IsSeparated}
use nfd_pitless.Rib.Sending.{
  Outcome, going, Item, Answer, succeeded, failed, Session, succeed, fail, send_updates,
  send_batches,
}
use nfd_pitless.Rib.Counts.{count, count_sent}
use nfd_pitless.Rib.Started.{commands, send_updates_eq, commands-item, count_sent-commands}

module _ (ndn : Ndn) (order : NameOrder ndn) where
  -- The items answered, in order.
  abbrev pub answered : List (Answer ndn order) → List (Item ndn order)
  answered [] = []
  answered (succeeded item ∷ rest) = item ∷ answered rest
  answered (failed item code ∷ rest) = item ∷ answered rest

  -- The updates whose commands are sent: first those of the batch's face.
  abbrev pub due : Updates ndn order → List (FibUpdate ndn order)
  due u = elim u.for_batch_face_id [ [] ↦ u.for_non_batch_face_id | f ∷ fs ↦ f ∷ fs ]

  pub record IsIdle (s : Session ndn order) (items : List (Item ndn order)) : Type 0 where
    pub not_in_progress : s.is_update_in_progress ≡ false
    pub nothing_sent : s.sent ≡ []
    pub nothing_queued : s.update_batches ≡ []
    pub all_answered : answered s.answers ≡ items

  pub record IsBusy (s : Session ndn order) (items : List (Item ndn order)) : Type 0 where
    pub item : Item ndn order
    pub in_progress : s.is_update_in_progress ≡ true
    pub of_item : All (λ c. c.item ≡ item) s.sent
    pub waiting : ltb 0 (length s.sent) ≡ true
    pub separated : IsSeparated ndn order s.updates
    pub matching :
        (f : FibUpdate ndn order)
        → count_sent ndn order f s.sent ≡ count ndn order f (due s.updates)
    pub in_order : answered s.answers ++ item ∷ s.update_batches ≡ items

  -- Nothing is left to do, or one item's commands are waited for; the items are answered in order.
  abbrev pub IsSerial : Session ndn order → List (Item ndn order) → Type 0
  IsSerial s items = IsIdle s items ⊎ IsBusy s items

  -- Of a call that ends in a state.
  abbrev pub Serial : Outcome (Session ndn order) → List (Item ndn order) → Type 0
  Serial (going s) items = IsSerial s items
  Serial _ items = Unit {0}

  answered-append :
      (xs ys : List (Answer ndn order)) → answered (xs ++ ys) ≡ answered xs ++ answered ys
  answered-append [] ys = refl
  answered-append (succeeded item ∷ xs) ys = ap (◌∷◌ item) (answered-append xs ys)
  answered-append (failed item code ∷ xs) ys = ap (◌∷◌ item) (answered-append xs ys)

  -- The items answered and those that come next, after one more answer.
  in_turn :
      (a : Answer ndn order) (item : Item ndn order) (items : List (Item ndn order))
      (past : List (Answer ndn order))
      → answered (a ∷ []) ≡ item ∷ []
      → answered (past ++ a ∷ []) ++ items ≡ answered past ++ item ∷ items
  in_turn a item items past one =
      ap (λ l. l ++ items) (answered-append past (a ∷ []) ∙ ap (answered past ++◌) one)
      ∙ append_assoc (answered past) (item ∷ []) items

  module _ (second_lowest : List Route → Option Route) where
    -- The commands of an item, sent when no others are.
    pub sent-IsBusy :
        (item : Item ndn order) (s : Session ndn order) (items : List (Item ndn order))
        (f : FibUpdate ndn order) (fs : List (FibUpdate ndn order))
        → s.sent ≡ []
        → s.is_update_in_progress ≡ true
        → IsSeparated ndn order s.updates
        → due s.updates ≡ f ∷ fs
        → answered s.answers ++ item ∷ s.update_batches ≡ items
        → IsBusy (send_updates ndn order (f ∷ fs) item s) items
    sent-IsBusy item s items f fs nothing busy separated dues ordered =
        subst (λ t. IsBusy t items)
          (sym (
            send_updates_eq ndn order (f ∷ fs) item s
            ∙ ap (λ cs. record s { sent = cs ++ commands ndn order item (f ∷ fs) }) nothing))
          (record {
            item = item;
            in_progress = busy;
            of_item = commands-item ndn order item (f ∷ fs);
            waiting = ground arith;
            separated = separated;
            matching = λ g.
                count_sent-commands ndn order g item (f ∷ fs) ∙ ap (count ndn order g) (sym dues);
            in_order = ordered;
          })

    pub send_batches-IsSerial :
        (items : List (Item ndn order)) (s : Session ndn order)
        → s.sent ≡ []
        → s.is_update_in_progress ≡ false
        → Serial (send_batches ndn order second_lowest items s) (answered s.answers ++ items)
    unfolding send_batches succeed
    send_batches-IsSerial [] s nothing idle = inl (record {
      not_in_progress = idle;
      nothing_sent = nothing;
      nothing_queued = refl;
      all_answered = sym (append-nil (answered s.answers));
    })
    send_batches-IsSerial (item ∷ items) s nothing idle =
        rw (idle, send_batches)
          (elim (Option-cases (compute_updates ndn order second_lowest s.rib.table item.update)) [
            | inl crash ↦ rw crash tt
            | inr (u, computed) ↦
                let separated =
                  (compute_updates-IsSeparated ndn order second_lowest s.rib.table item.update u
                    computed).1 in
                rw computed (elim (List-cases u.for_batch_face_id) [
                  | inr (f, fs, batch) ↦
                      rw batch (
                        inr (sent-IsBusy item _ _ f fs nothing refl separated (rw batch refl) refl))
                  | inl no_batch ↦ rw no_batch (elim (List-cases u.for_non_batch_face_id) [
                    | inr (f, fs, others) ↦ rw others (
                        inr (
                          sent-IsBusy item _ _ f fs nothing refl separated (rw no_batch others)
                            refl))
                    | inl none_other ↦ rw none_other (
                        subst
                          (Serial (
                            send_batches ndn order second_lowest items (
                              succeed ndn order item (record s {
                                update_batches = items;
                                is_update_in_progress = true;
                                updates = u;
                              }))))
                          (in_turn (succeeded item) item items s.answers refl)
                          (send_batches-IsSerial items _ nothing refl))
                  ])
                ])
          ])

    pub succeed-IsSerial :
        (item : Item ndn order) (s : Session ndn order) (items : List (Item ndn order))
        → s.sent ≡ []
        → answered s.answers ++ item ∷ s.update_batches ≡ items
        → Serial
            (send_batches ndn order second_lowest s.update_batches (succeed ndn order item s))
            items
    unfolding succeed
    succeed-IsSerial item s items nothing ordered =
        subst
          (Serial
            (send_batches ndn order second_lowest s.update_batches (succeed ndn order item s)))
          (in_turn (succeeded item) item s.update_batches s.answers refl ∙ ordered)
          (send_batches-IsSerial s.update_batches (succeed ndn order item s) nothing refl)

    pub fail-IsSerial :
        (item : Item ndn order) (code : ℕ) (s : Session ndn order) (items : List (Item ndn order))
        → s.sent ≡ []
        → answered s.answers ++ item ∷ s.update_batches ≡ items
        → Serial
            (send_batches ndn order second_lowest s.update_batches (fail ndn order item code s))
            items
    unfolding fail
    fail-IsSerial item code s items nothing ordered =
        subst
          (Serial
            (send_batches ndn order second_lowest s.update_batches (fail ndn order item code s)))
          (in_turn (failed item code) item s.update_batches s.answers refl ∙ ordered)
          (send_batches-IsSerial s.update_batches (fail ndn order item code s) nothing refl)
