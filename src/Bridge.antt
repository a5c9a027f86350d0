-- ===== src/Bridge.antt =====
-- The bridge forwarder, daemon/fw/bridge-forwarder.cpp, between consumers that use the PIT and a
-- PITless network, with bridge-best-route-strategy.cpp. `own_name` is the supporting name that the
-- constructor takes. The Content Store pipelines ask for the strategy that is installed under the
-- best-route strategy's name, which is that strategy. The in-record holds the Interest object that
-- is given its supporting name; the PIT entry's own Interest, whose supporting name nothing reads,
-- keeps the old one.
pub mod Naming
pub mod Invariant
pub mod Leak
pub mod NoOutRecords
mod Examples
use nfd_pitless.Base.{
  ℕ, ◌+◌, Bool, true, false, not, ◌&&◌, List, [], ◌∷◌, Option, none, some, if◌then◌else◌, ◌==◌,
  find_if,
}
use nfd_pitless.Ndn.{Ndn, Interest, Data}
use nfd_pitless.Face.{Face, invalid_faceid, faceid_content_store}
use nfd_pitless.Fib.{NextHop}
use nfd_pitless.Pit.{Entry, insert_or_update_in_record}
use nfd_pitless.Pit.Table.{insert, find_all_data_matches_by_name}
use nfd_pitless.Fw.{
  Stores, Forwarder, send_interest, put, report_interest_delay, cs_lookup, on_outgoing_data,
}
use nfd_pitless.Forwarder.{cancel_timers, set_unsatisfy_timer, modify_entry, on_data_unsolicited}
use nfd_pitless.Forwarder.Pipelines.{has_duplicate_nonce, is_pending, satisfy_matches}

-- predicate_canForwardTo_NextHop
abbrev pub can_forward_to : Face → NextHop → Bool
can_forward_to in_face hop = not (in_face.id == hop.face.id)

module _ (ndn : Ndn) (stores : Stores ndn) (city_hash : ndn.Name → ℕ → ℕ)
    (own_name : ndn.Name) where
  open ndn use {is_prefix_of, localhost_name}

  unfoldable pub on_outgoing_interest_bridge :
      Interest ndn → Face → Forwarder ndn stores → Forwarder ndn stores
  on_outgoing_interest_bridge interest out_face s =
      if out_face.id == invalid_faceid
      then s
      else put ndn stores (send_interest out_face interest) s

  -- BridgeBestRouteStrategy::afterReceiveInterestBridge
  unfoldable pub best_route :
      Face → Interest ndn → List NextHop → Forwarder ndn stores → Forwarder ndn stores
  unfolding on_outgoing_interest_bridge
  best_route in_face interest hops s = elim (find_if (can_forward_to in_face) hops) [
    | none ↦ s
    | some hop ↦ on_outgoing_interest_bridge interest hop.face s
  ]

  unfoldable pub on_content_store_miss :
      ℕ → Face → Interest ndn → Forwarder ndn stores → Forwarder ndn stores
  unfolding best_route
  on_content_store_miss now in_face interest s =
      let named : Interest ndn = record interest { supporting_name = own_name } in
      let waiting =
        modify_entry ndn stores city_hash interest
          (λ e. set_unsatisfy_timer ndn (insert_or_update_in_record ndn now in_face named e)) s in
      best_route in_face named (s.fib interest.name) waiting

  unfoldable pub on_content_store_hit :
      Face → Interest ndn → Data ndn → Forwarder ndn stores → Forwarder ndn stores
  on_content_store_hit in_face interest packet s =
      let found : Data ndn = record packet { incoming_face_id = faceid_content_store } in
      on_outgoing_data ndn stores found in_face s

  unfoldable pub after_lookup :
      ℕ → Face → Interest ndn → Forwarder ndn stores × Option (Data ndn) → Forwarder ndn stores
  unfolding on_content_store_miss on_content_store_hit
  after_lookup now in_face interest (s, none) = on_content_store_miss now in_face interest s
  after_lookup now in_face interest (s, some packet) =
      on_content_store_hit in_face interest packet s

  unfoldable pub on_incoming_interest :
      ℕ → Face → Interest ndn → Forwarder ndn stores → Forwarder ndn stores
  unfolding after_lookup
  on_incoming_interest now in_face interest s =
      let received : Interest ndn = record interest { incoming_face_id = in_face.id } in
      let counted : Forwarder ndn stores = record s { n_in_interests = s.n_in_interests + 1 } in
      let inserted : Forwarder ndn stores = record counted {
        pit = (insert ndn received s.pit).0;
      } in
      let stopped = modify_entry ndn stores city_hash received (cancel_timers ndn) inserted in
      let missed = on_content_store_miss now in_face received stopped in
      let looked_up = after_lookup now in_face received (cs_lookup ndn stores received stopped) in
      report_interest_delay ndn stores (
        if not in_face.is_local && is_prefix_of localhost_name interest.name
        then counted
        else if has_duplicate_nonce ndn stores city_hash in_face received inserted
        then inserted
        else if is_pending ndn stores city_hash received stopped
        then missed
        else looked_up)

  -- Data goes downstream under its supporting name, the name of the consumer's Interest.
  unfoldable pub on_incoming_data :
      ℕ → Face → Data ndn → Forwarder ndn stores → Forwarder ndn stores
  on_incoming_data now in_face packet s =
      let received : Data ndn = record packet { incoming_face_id = in_face.id } in
      let counted : Forwarder ndn stores = record s { n_in_datas = s.n_in_datas + 1 } in
      let matches = find_all_data_matches_by_name ndn packet.supporting_name s.pit in
      let renamed : Data ndn = record received { name = packet.supporting_name } in
      let matched = satisfy_matches ndn stores city_hash now in_face renamed matches counted in
      let unsolicited = on_data_unsolicited ndn stores city_hash in_face received counted in
      if not in_face.is_local && is_prefix_of localhost_name packet.supporting_name
      then report_interest_delay ndn stores counted
      else elim matches [ [] ↦ report_interest_delay ndn stores unsolicited | e ∷ es ↦ matched ]
