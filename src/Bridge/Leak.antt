-- ===== src/Bridge/Leak.antt =====
-- A Content Store hit at the bridge, daemon/fw/bridge-forwarder.cpp.
use nfd_pitless.Base.{ℕ, ◌+◌, ◌≡◌, ◌∙◌, false, not, ◌&&◌, Option, none, some}
use nfd_pitless.Ndn.{Ndn, Interest, Data}
use nfd_pitless.Face.{Face}
use nfd_pitless.DeadNonce.{has}
use nfd_pitless.Pit.{new_entry}
use nfd_pitless.Pit.Table.{find_entry, insert}
use nfd_pitless.Pit.Lookup.{new_found}
use nfd_pitless.Fw.{Stores, Forwarder, cs_lookup}
use nfd_pitless.Forwarder.{cancel_timers, modify_entry}
use nfd_pitless.Bridge.{on_incoming_interest, after_lookup, on_content_store_hit}
use nfd_pitless.Forwarder.Arrivals.{
  delay-pit, outgoing_data-pit, fresh_entry, not_known, not_pending, lookup-pit, lookup-found,
}

module _ (ndn : Ndn) (stores : Stores ndn) (city_hash : ndn.Name → ℕ → ℕ)
    (own_name : ndn.Name) where
  hit-pit :
      (now : ℕ) (f : Face) (i : Interest ndn) (d : Data ndn)
      (found : Forwarder ndn stores × Option (Data ndn))
      → found.1 ≡ some d
      → (after_lookup ndn stores city_hash own_name now f i found).pit ≡ found.0.pit
  unfolding after_lookup on_content_store_hit
  hit-pit now f i d (s, none) h = absurd (cc)
  hit-pit now f i d (s, some p) h = outgoing_data-pit ndn stores city_hash _ f s

  -- An Interest in scope that is new to the PIT and the Dead Nonce List and is found in the Content
  -- Store leaves behind a PIT entry as it was created, with no in-record and no timer.
  pub hit_leaves_entry :
      (now : ℕ) (f : Face) (i : Interest ndn) (s : Forwarder ndn stores) (d : Data ndn)
      → (not f.is_local && ndn.is_prefix_of ndn.localhost_name i.name) ≡ false
      → find_entry ndn (record i { incoming_face_id = f.id }) s.pit ≡ none
      → has city_hash s.dead_nonces i.name i.nonce ≡ false
      → (cs_lookup ndn stores (record i { incoming_face_id = f.id }) s).1 ≡ some d
      → find_entry ndn
          (record i { incoming_face_id = f.id })
          (on_incoming_interest ndn stores city_hash own_name now f i s).pit
        ≡ some (new_entry ndn (record i { incoming_face_id = f.id }))
  unfolding on_incoming_interest
  hit_leaves_entry now f i s d scope missing alive found =
      let received : Interest ndn = record i { incoming_face_id = f.id } in
      let counted : Forwarder ndn stores = record s { n_in_interests = s.n_in_interests + 1 } in
      let inserted : Forwarder ndn stores = record counted {
        pit = (insert ndn received s.pit).0;
      } in
      let stopped = modify_entry ndn stores city_hash received (cancel_timers ndn) inserted in
      let there = fresh_entry ndn stores city_hash received s missing in
      let hit =
        lookup-found ndn stores city_hash received (s.n_in_interests + 1) stopped.pit s ∙ found in
      rw (delay-pit ndn stores city_hash _) (
        rw scope (
          rw
            (not_known ndn stores city_hash f received inserted
              (new_found ndn received s.pit missing) alive)
            (rw (not_pending ndn stores city_hash received stopped there) (
              rw (hit-pit now f received d (cs_lookup ndn stores received stopped) hit)
                (rw (lookup-pit ndn stores city_hash received stopped) there)))))
