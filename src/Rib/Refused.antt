-- ===== src/Rib/Refused.antt =====
-- Commands that fail, in rib/fib-updater.cpp.
use nfd_pitless.Base.{
  ℕ, ◌+◌, ◌≡◌, refl, true, false, List, [], ◌∷◌, ◌++◌, Option, some, ltb, ◌==◌, ==-refl, get_elem?,
}
use mathlib.Core.List.{append_assoc}
use nfd_pitless.Ndn.{Ndn}
use nfd_pitless.Rib.{Route}
use nfd_pitless.Rib.Names.{NameOrder}
use nfd_pitless.Rib.Updater.{add_nexthop, remove_nexthop}
use nfd_pitless.Rib.Sending.{
  going, Command, failed, Session, fail, send_batches, on_update_error, max_num_timeouts,
  error_face_not_found,
}
use nfd_pitless.Rib.Queue.{refused, erase_at, step}

module _ (ndn : Ndn) (order : NameOrder ndn) (second_lowest : List Route → Option Route)
    (error_timeout : ℕ) where
  -- Where two commands of one item wait that are for the batch's face, and the forwarder says to
  -- both that there is no such face: the item is answered twice.
  pub failed_twice :
      (s : Session ndn order) (c d : Command ndn order)
      → (error_face_not_found == error_timeout) ≡ false
      → s.sent ≡ c ∷ d ∷ []
      → s.update_batches ≡ []
      → d.item ≡ c.item
      → (c.update.face_id == s.updates.batch_face_id) ≡ true
      → (d.update.face_id == s.updates.batch_face_id) ≡ true
      → (s1 s2 : Session ndn order) × (step ndn order second_lowest error_timeout
            (refused 0 error_face_not_found)
            s
          ≡ going s1)
        × (step ndn order second_lowest error_timeout (refused 0 error_face_not_found) s1
            ≡ going s2)
        × (s2.answers
            ≡ s.answers
              ++ failed c.item error_face_not_found ∷ failed c.item error_face_not_found ∷ [])
  unfolding step on_update_error fail send_batches
  failed_twice s c d apart two empty same own own' =
      let s1 : Session ndn order = record s {
        sent = d ∷ [];
        update_batches = [];
        is_update_in_progress = false;
        answers = s.answers ++ failed c.item error_face_not_found ∷ [];
      } in
      let s2 : Session ndn order = record s {
        sent = [];
        update_batches = [];
        is_update_in_progress = false;
        answers =
            (s.answers ++ failed c.item error_face_not_found ∷ [])
            ++ failed d.item error_face_not_found ∷ [];
      } in
      (
        s1,
        s2,
        rw (two, step) (rw (apart, on_update_error) (rw own (rw empty (rw two refl)))),
        rw (apart, step, on_update_error) (rw own' refl),
        rw same (append_assoc s.answers _ _),
      )

  -- A command to remove a next hop that times out, and has not done so ten times, is sent again as a
  -- command to add that next hop.
  pub retried_as_add :
      (s : Session ndn order) (i : ℕ) (c : Command ndn order)
      → get_elem? s.sent i ≡ some c
      → c.verb ≡ remove_nexthop
      → ltb c.n_timeouts max_num_timeouts ≡ true
      → (again : Command ndn order) × (step ndn order second_lowest error_timeout
            (refused i error_timeout)
            s
          ≡ going (record s { sent = erase_at i s.sent ++ again ∷ [] }))
        × (again.update ≡ c.update)
        × (again.verb ≡ add_nexthop)
  unfolding step on_update_error
  retried_as_add s i c found verb few = (
    record { update = c.update; verb = add_nexthop; n_timeouts = c.n_timeouts + 1; item = c.item },
    rw (found, step) (rw (==-refl error_timeout, on_update_error) (rw few refl)),
    refl,
    refl,
  )
