-- ===== src/Pitless.antt =====
-- The PITless forwarder: daemon/fw/pitless-forwarder.cpp, with its strategies
-- pitless-best-route-strategy.cpp and pitless-multicast-strategy.cpp.
-- The Content Store pipelines ask for the strategy that is installed under the best-route
-- strategy's name, which is that strategy. Strategy::beforeSatisfyInterest only logs.
pub mod Answers
pub mod Multicast
pub mod Packets
pub mod Routing
pub mod Stateless
pub mod Scope
mod Examples
use nfd_pitless.Base.{
  ℕ, ◌+◌, Bool, true, false, not, ◌&&◌, List, [], ◌∷◌, ◌++◌, Option, none, some, if◌then◌else◌,
  ◌==◌, find_if,
}
use nfd_pitless.Ndn.{Ndn, Interest, Data}
use nfd_pitless.Face.{Face, same, invalid_faceid, faceid_content_store}
use nfd_pitless.Fib.{NextHop}
use nfd_pitless.Fw.{
  Stores, Forwarder, Output, send_interest, put, report_interest_delay, report_content_delay,
  cs_lookup, cs_add, on_outgoing_data,
}

-- predicate_canForwardTo_NextHop
abbrev pub can_forward_to : Face → NextHop → Bool
can_forward_to in_face hop = not (in_face.id == hop.face.id)

module _ (ndn : Ndn) (stores : Stores ndn) where
  open ndn use {is_prefix_of, localhost_name}

  unfoldable pub on_outgoing_interest_pitless :
      Interest ndn → Face → Forwarder ndn stores → Forwarder ndn stores
  on_outgoing_interest_pitless interest out_face s =
      if out_face.id == invalid_faceid
      then s
      else put ndn stores (send_interest out_face interest) s

  -- PITlessBestRouteStrategy::afterReceiveInterestPITless
  unfoldable pub best_route :
      Face → Interest ndn → List NextHop → Forwarder ndn stores → Forwarder ndn stores
  unfolding on_outgoing_interest_pitless
  best_route in_face interest hops s = elim (find_if (can_forward_to in_face) hops) [
    | none ↦ s
    | some hop ↦ on_outgoing_interest_pitless interest hop.face s
  ]

  -- PITlessMulticastStrategy::afterReceiveInterestPITless
  unfoldable pub multicast :
      Face → Interest ndn → List NextHop → Forwarder ndn stores → Forwarder ndn stores
  unfolding on_outgoing_interest_pitless
  multicast in_face interest [] s = s
  multicast in_face interest (hop ∷ hops) s =
      multicast in_face interest hops
        (if can_forward_to in_face hop then on_outgoing_interest_pitless interest hop.face s else s)

  unfoldable pub on_content_store_miss :
      Face → Interest ndn → Forwarder ndn stores → Forwarder ndn stores
  unfolding best_route
  on_content_store_miss in_face interest s = best_route in_face interest (s.fib interest.name) s

  unfoldable pub on_content_store_hit :
      Face → Interest ndn → Data ndn → Forwarder ndn stores → Forwarder ndn stores
  unfolding on_outgoing_data
  on_content_store_hit in_face interest packet s =
      let found : Data ndn = record packet { incoming_face_id = faceid_content_store } in
      on_outgoing_data ndn stores found in_face s

  -- The branch that the Content Store takes.
  unfoldable pub after_lookup :
      Face → Interest ndn → Forwarder ndn stores × Option (Data ndn) → Forwarder ndn stores
  unfolding on_content_store_miss on_content_store_hit
  after_lookup in_face interest (s, none) = on_content_store_miss in_face interest s
  after_lookup in_face interest (s, some packet) = on_content_store_hit in_face interest packet s

  unfoldable pub on_incoming_interest :
      Face → Interest ndn → Forwarder ndn stores → Forwarder ndn stores
  unfolding after_lookup cs_lookup
  on_incoming_interest in_face interest s =
      let received : Interest ndn = record interest { incoming_face_id = in_face.id } in
      let counted : Forwarder ndn stores = record s { n_in_interests = s.n_in_interests + 1 } in
      if not in_face.is_local && is_prefix_of localhost_name interest.name
      then report_interest_delay ndn stores counted
      else report_interest_delay ndn stores
          (after_lookup in_face received (cs_lookup ndn stores received counted))

  -- Data goes on by the FIB entry of its Name, to the first hop that is not where it came from.
  unfoldable pub forward_data :
      Face → Data ndn → List NextHop → Forwarder ndn stores → Forwarder ndn stores
  unfolding on_outgoing_data
  forward_data in_face packet hops s = elim (find_if (can_forward_to in_face) hops) [
    | none ↦ s
    | some hop ↦ if same hop.face in_face then s else on_outgoing_data ndn stores packet hop.face s
  ]

  unfoldable pub on_incoming_data : Face → Data ndn → Forwarder ndn stores → Forwarder ndn stores
  unfolding forward_data cs_add
  on_incoming_data in_face packet s =
      let received : Data ndn = record packet { incoming_face_id = in_face.id } in
      let counted : Forwarder ndn stores = record s { n_in_datas = s.n_in_datas + 1 } in
      if not in_face.is_local && is_prefix_of localhost_name packet.supporting_name
      then report_interest_delay ndn stores counted
      else let cached = cs_add ndn stores received false counted in
        report_content_delay ndn stores
          (forward_data in_face received (cached.fib packet.name) cached)
