-- ===== src/Forwarder/Pipelines.antt =====
-- The incoming pipelines of daemon/fw/forwarder.cpp. The effective strategy's afterReceiveInterest
-- is the parameter `trigger`: it is handed the incoming face, the Interest, the FIB entry's next
-- hops and the PIT entry's key. The triggers before an Interest is satisfied only log.
use nfd_pitless.Base.{
  ℕ, ◌+◌, Bool, true, false, not, ◌&&◌, ◌||◌, List, [], ◌∷◌, Option, none, some, if◌then◌else◌,
}
use nfd_pitless.Ndn.{Ndn, Interest, Data}
use nfd_pitless.Face.{Face, same, faceid_content_store}
use nfd_pitless.DeadNonce.{has}
use nfd_pitless.Fib.{NextHop}
use nfd_pitless.Pit.{
  Entry, insert_or_update_in_record, delete_in_records, delete_out_record, find_nonce, is_duplicate,
}
use nfd_pitless.Pit.Table.{find_entry, insert, find_all_data_matches}
use nfd_pitless.Fw.{
  Stores, Forwarder, report_interest_delay, report_content_delay, cs_lookup, cs_add,
  on_outgoing_data,
}
use nfd_pitless.Forwarder.{
  cancel_timers, set_unsatisfy_timer, set_straggler_timer, pending_downstreams, modify_entry,
  insert_dead_nonce_list, on_data_unsolicited,
}

module _ (ndn : Ndn) (stores : Stores ndn) (city_hash : ndn.Name → ℕ → ℕ) where
  open ndn use {is_prefix_of, localhost_name}

  -- Whether the PIT entry or the Dead Nonce List knows the Interest's nonce.
  unfoldable pub has_duplicate_nonce : Face → Interest ndn → Forwarder ndn stores → Bool
  has_duplicate_nonce in_face interest s =
      let known : Bool = elim (find_entry ndn interest s.pit) [
        | none ↦ false
        | some e ↦ is_duplicate (find_nonce ndn interest.nonce in_face e)
      ] in
      known || has city_hash s.dead_nonces interest.name interest.nonce

  -- Whether the PIT entry has in-records.
  unfoldable pub is_pending : Interest ndn → Forwarder ndn stores → Bool
  is_pending interest s = elim (find_entry ndn interest s.pit) [
    | none ↦ false
    | some e ↦ elim e.in_records [ [] ↦ false | r ∷ rs ↦ true ]
  ]

  -- Data for one PIT entry: the timers stop, the dead nonce of the out-record on the incoming face
  -- is recorded, the in-records and that out-record go, and the straggler timer starts.
  unfoldable pub satisfy :
      ℕ → Face → Data ndn → Entry ndn → Forwarder ndn stores → Forwarder ndn stores
  satisfy now in_face packet e s =
      let recorded : Forwarder ndn stores = record s {
        dead_nonces =
            insert_dead_nonce_list ndn stores city_hash e true packet.freshness_period
              (some in_face) s.dead_nonces;
      } in
      modify_entry ndn stores city_hash e.interest
        (λ e.
          set_straggler_timer ndn now true packet.freshness_period
            (delete_out_record ndn in_face (delete_in_records ndn (cancel_timers ndn e))))
        recorded

  unfoldable pub satisfy_all :
      ℕ → Face → Data ndn → List (Entry ndn) → Forwarder ndn stores → Forwarder ndn stores
  unfolding satisfy
  satisfy_all now in_face packet [] s = s
  satisfy_all now in_face packet (e ∷ es) s =
      satisfy_all now in_face packet es (satisfy now in_face packet e s)

  unfoldable pub send_downstream :
      Face → Data ndn → List Face → Forwarder ndn stores → Forwarder ndn stores
  send_downstream in_face packet [] s = s
  send_downstream in_face packet (g ∷ gs) s =
      send_downstream in_face packet gs
        (if same g in_face then s else on_outgoing_data ndn stores packet g s)

  -- From the PIT matches on, the pipelines of the base class and of the bridge are alike.
  unfoldable pub satisfy_matches :
      ℕ → Face → Data ndn → List (Entry ndn) → Forwarder ndn stores → Forwarder ndn stores
  unfolding satisfy_all send_downstream
  satisfy_matches now in_face packet matches s =
      let cached = cs_add ndn stores packet false s in
      report_content_delay ndn stores (
        send_downstream in_face packet (pending_downstreams ndn now matches [])
          (satisfy_all now in_face packet matches cached))

  unfoldable pub on_incoming_data :
      ℕ → Face → Data ndn → Forwarder ndn stores → Forwarder ndn stores
  unfolding satisfy_matches on_data_unsolicited
  on_incoming_data now in_face packet s =
      let received : Data ndn = record packet { incoming_face_id = in_face.id } in
      let counted : Forwarder ndn stores = record s { n_in_datas = s.n_in_datas + 1 } in
      let matches = find_all_data_matches ndn received s.pit in
      let matched = satisfy_matches now in_face received matches counted in
      let unsolicited = on_data_unsolicited ndn stores city_hash in_face received counted in
      if not in_face.is_local && is_prefix_of localhost_name packet.name
      then report_interest_delay ndn stores counted
      else elim matches [ [] ↦ report_interest_delay ndn stores unsolicited | e ∷ es ↦ matched ]

  module _
      (trigger : Face
        → Interest ndn
        → List NextHop
        → Forwarder ndn stores
        → Forwarder ndn stores) where
    unfoldable pub on_content_store_miss :
        ℕ → Face → Interest ndn → Forwarder ndn stores → Forwarder ndn stores
    on_content_store_miss now in_face interest s =
        let waiting =
          modify_entry ndn stores city_hash interest
            (λ e. set_unsatisfy_timer ndn (insert_or_update_in_record ndn now in_face interest e))
            s in
        trigger in_face interest (s.fib interest.name) waiting

    unfoldable pub on_content_store_hit :
        ℕ → Face → Interest ndn → Data ndn → Forwarder ndn stores → Forwarder ndn stores
    on_content_store_hit now in_face interest packet s =
        let found : Data ndn = record packet { incoming_face_id = faceid_content_store } in
        let straggling =
          modify_entry ndn stores city_hash interest
            (set_straggler_timer ndn now true packet.freshness_period) s in
        on_outgoing_data ndn stores found in_face straggling

    unfoldable pub after_lookup :
        ℕ → Face → Interest ndn → Forwarder ndn stores × Option (Data ndn) → Forwarder ndn stores
    unfolding on_content_store_miss on_content_store_hit
    after_lookup now in_face interest (s, none) = on_content_store_miss now in_face interest s
    after_lookup now in_face interest (s, some packet) =
        on_content_store_hit now in_face interest packet s

    unfoldable pub on_incoming_interest :
        ℕ → Face → Interest ndn → Forwarder ndn stores → Forwarder ndn stores
    unfolding after_lookup has_duplicate_nonce is_pending
    on_incoming_interest now in_face interest s =
        let received : Interest ndn = record interest { incoming_face_id = in_face.id } in
        let counted : Forwarder ndn stores = record s { n_in_interests = s.n_in_interests + 1 } in
        let inserted : Forwarder ndn stores = record counted {
          pit = (insert ndn received s.pit).0;
        } in
        let stopped = modify_entry ndn stores city_hash received (cancel_timers ndn) inserted in
        let missed = on_content_store_miss now in_face received stopped in
        let looked_up = after_lookup now in_face received (cs_lookup ndn stores received stopped) in
        report_interest_delay ndn stores (
          if not in_face.is_local && is_prefix_of localhost_name interest.name
          then counted
          else if has_duplicate_nonce in_face received inserted
          then inserted
          else if is_pending received stopped
          then missed
          else looked_up)
