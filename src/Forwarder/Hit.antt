-- ===== src/Forwarder/Hit.antt =====
-- A Content Store hit at the base forwarder, daemon/fw/forwarder.cpp.
use nfd_pitless.Base.{
  ℕ, ◌+◌, ◌≡◌, ◌∙◌, refl, true, false, not, ◌&&◌, List, Option, none, some, arith,
}
use nfd_pitless.Ndn.{Ndn, Interest, Data}
use nfd_pitless.Face.{Face}
use nfd_pitless.DeadNonce.{has}
use nfd_pitless.Pit.{new_entry}
use nfd_pitless.Pit.Table.{find_entry, insert, modify}
use nfd_pitless.Pit.Lookup.{new_found, find-modify}
use nfd_pitless.Fw.{Stores, Forwarder, cs_lookup}
use nfd_pitless.Fib.{NextHop}
use nfd_pitless.Forwarder.{straggler_time, set_straggler_timer, cancel_timers, modify_entry}
use nfd_pitless.Forwarder.Pipelines.{on_incoming_interest, after_lookup, on_content_store_hit}
use nfd_pitless.Forwarder.Arrivals.{
  delay-pit, outgoing_data-pit, fresh_entry, not_known, not_pending, lookup-pit, lookup-found,
}

module _ (ndn : Ndn) (stores : Stores ndn) (city_hash : ndn.Name → ℕ → ℕ)
    (trigger : Face
      → Interest ndn
      → List NextHop
      → Forwarder ndn stores
      → Forwarder ndn stores) where
  hit-pit :
      (now : ℕ) (f : Face) (i : Interest ndn) (d : Data ndn)
      (found : Forwarder ndn stores × Option (Data ndn))
      → found.1 ≡ some d
      → (after_lookup ndn stores city_hash trigger now f i found).pit
        ≡ modify ndn i (set_straggler_timer ndn now true d.freshness_period) found.0.pit
  unfolding after_lookup on_content_store_hit
  hit-pit now f i d (s, none) h = absurd (cc)
  hit-pit now f i d (s, some p) h = outgoing_data-pit ndn stores city_hash _ f _ ∙ ground (arith, h)

  -- An Interest in scope that is new to the PIT and the Dead Nonce List and is found in the Content
  -- Store leaves a PIT entry with no in-record, whose straggler timer fires 100 milliseconds later
  -- and tells that the Interest was satisfied, with the freshness period of the Data.
  pub hit_lem :
      (now : ℕ) (f : Face) (i : Interest ndn) (s : Forwarder ndn stores) (d : Data ndn)
      → (not f.is_local && ndn.is_prefix_of ndn.localhost_name i.name) ≡ false
      → find_entry ndn (record i { incoming_face_id = f.id }) s.pit ≡ none
      → has city_hash s.dead_nonces i.name i.nonce ≡ false
      → (cs_lookup ndn stores (record i { incoming_face_id = f.id }) s).1 ≡ some d
      → find_entry ndn
          (record i { incoming_face_id = f.id })
          (on_incoming_interest ndn stores city_hash trigger now f i s).pit
        ≡ some (record (new_entry ndn (record i { incoming_face_id = f.id })) {
          straggler_timer = some (record {
            due = now + straggler_time;
            is_satisfied = true;
            freshness_period = d.freshness_period;
          });
        })
  unfolding on_incoming_interest set_straggler_timer
  hit_lem now f i s d scope missing alive found =
      let received : Interest ndn = record i { incoming_face_id = f.id } in
      let counted : Forwarder ndn stores = record s { n_in_interests = s.n_in_interests + 1 } in
      let inserted : Forwarder ndn stores = record counted {
        pit = (insert ndn received s.pit).0;
      } in
      let stopped = modify_entry ndn stores city_hash received (cancel_timers ndn) inserted in
      let there = fresh_entry ndn stores city_hash received s missing in
      let hit =
        lookup-found ndn stores city_hash received (s.n_in_interests + 1) stopped.pit s ∙ found in
      rw (delay-pit ndn stores city_hash _) (
        rw scope (
          rw
            (not_known ndn stores city_hash f received inserted
              (new_found ndn received s.pit missing) alive)
            (rw (not_pending ndn stores city_hash received stopped there) (
              rw (hit-pit now f received d (cs_lookup ndn stores received stopped) hit) (
                rw (lookup-pit ndn stores city_hash received stopped) (
                  find-modify ndn received (set_straggler_timer ndn now true d.freshness_period)
                    stopped.pit (λ e. refl) (new_entry ndn received) there))))))
