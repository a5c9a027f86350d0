-- ===== src/Strategy.antt =====
-- Strategies of the base forwarder, as triggers of its incoming Interest pipeline:
-- daemon/fw/best-route-strategy.cpp, best-route-strategy2.cpp and multicast-strategy.cpp, with the
-- retransmission suppression in Retx. They send without a new nonce. The PIT entry is found again
-- in the table at each step, as the code follows its pointer.
pub mod Retx
pub mod Intervals
pub mod Eligible
mod Examples
use nfd_pitless.Base.{
  ℕ, ◌+◌, Bool, true, false, not, ◌&&◌, List, [], ◌∷◌, Option, none, some, find_if, ltb, ◌==◌,
  if◌then◌else◌,
}
use nfd_pitless.Ndn.{Ndn, Interest}
use nfd_pitless.Face.{Face}
use nfd_pitless.Fib.{NextHop}
use nfd_pitless.Pit.{
  Entry, violates_scope, has_unexpired_out_records, can_forward_to, get_out_record,
}
use nfd_pitless.Pit.Table.{find_entry}
use nfd_pitless.Fw.{Stores, Forwarder}
use nfd_pitless.Forwarder.{modify_entry, on_outgoing_interest, on_interest_reject}
use nfd_pitless.Strategy.Retx.{Result, new, forward, suppress, Exponential, decide_exponential}

module _ (ndn : Ndn) where
  -- predicate_NextHop_eligible; `unused` is the time where an unused next hop is wanted.
  unfoldable pub is_eligible : Entry ndn → ℕ → Option ℕ → NextHop → Bool
  is_eligible e downstream unused hop =
      if hop.face.id == downstream
      then false
      else if violates_scope ndn e hop.face
      then false
      else elim unused [
        | none ↦ true
        | some now ↦ elim (get_out_record ndn hop.face e) [
          | none ↦ true
          | some r ↦ not (ltb now r.expiry)
        ]
      ]

  -- findEligibleNextHopWithEarliestOutRecord; a next hop without an out-record, which an assertion
  -- excludes, is passed over. No time stands for TimePoint::max().
  unfoldable pub earliest :
      Entry ndn → ℕ → List NextHop → Option (ℕ × NextHop) → Option (ℕ × NextHop)
  unfolding is_eligible
  earliest e downstream [] found = found
  earliest e downstream (hop ∷ hops) found =
      let sooner : ℕ → Bool = λ renewed. elim found [ none ↦ true | some (t, g) ↦ ltb renewed t ] in
      let better : Option (ℕ × NextHop) = elim (get_out_record ndn hop.face e) [
        | none ↦ found
        | some r ↦ if sooner r.last_renewed then some (r.last_renewed, hop) else found
      ] in
      earliest e downstream hops (if is_eligible e downstream none hop then better else found)

module _ (ndn : Ndn) (stores : Stores ndn) (city_hash : ndn.Name → ℕ → ℕ) (now : ℕ) where
  abbrev pub send_to : Interest ndn → Face → Forwarder ndn stores → Forwarder ndn stores
  send_to key face s = on_outgoing_interest ndn stores city_hash now key face none s

  -- BestRouteStrategy::afterReceiveInterest
  unfoldable pub best_route :
      Face → Interest ndn → List NextHop → Forwarder ndn stores → Forwarder ndn stores
  best_route in_face key hops s = elim (find_entry ndn key s.pit) [
    | none ↦ s
    | some e ↦
        if has_unexpired_out_records ndn now e
        then s
        else elim (find_if (λ hop. can_forward_to ndn now e hop.face) hops) [
          | none ↦ on_interest_reject ndn stores city_hash now key s
          | some hop ↦ send_to key hop.face s
        ]
  ]

  -- The loop of MulticastStrategy::afterReceiveInterest.
  unfoldable pub send_all :
      Interest ndn → List NextHop → Forwarder ndn stores → Forwarder ndn stores
  send_all key [] s = s
  send_all key (hop ∷ hops) s =
      let allowed : Bool = elim (find_entry ndn key s.pit) [
        | none ↦ false
        | some e ↦ can_forward_to ndn now e hop.face
      ] in
      send_all key hops (if allowed then send_to key hop.face s else s)

  unfoldable pub multicast :
      Face → Interest ndn → List NextHop → Forwarder ndn stores → Forwarder ndn stores
  unfolding send_all
  multicast in_face key hops s =
      let sent = send_all key hops s in
      elim (find_entry ndn key sent.pit) [
        | none ↦ sent
        | some e ↦
            if has_unexpired_out_records ndn now e
            then sent
            else on_interest_reject ndn stores city_hash now key sent
      ]

  module _ (retx : Exponential) where
    -- The branch of BestRouteStrategy2::afterReceiveInterest for a new PIT entry.
    unfoldable pub send_new :
        Face → Interest ndn → List NextHop → Entry ndn → Forwarder ndn stores → Forwarder ndn stores
    send_new in_face key hops e s = elim (find_if (is_eligible ndn e in_face.id none) hops) [
      | none ↦ on_interest_reject ndn stores city_hash now key s
      | some hop ↦ send_to key hop.face s
    ]

    -- The branch for a retransmission that is to be forwarded.
    unfoldable pub send_again :
        Face → Interest ndn → List NextHop → Entry ndn → Forwarder ndn stores → Forwarder ndn stores
    unfolding earliest
    send_again in_face key hops e s =
        elim (find_if (is_eligible ndn e in_face.id (some now)) hops) [
          | some hop ↦ send_to key hop.face s
          | none ↦ elim (earliest ndn e in_face.id hops none) [
            | none ↦ s
            | some (t, hop) ↦ send_to key hop.face s
          ]
        ]

    unfoldable pub after_decision :
        Result
        → Face
        → Interest ndn
        → List NextHop
        → Entry ndn
        → Forwarder ndn stores
        → Forwarder ndn stores
    unfolding send_new send_again
    after_decision new in_face key hops e s = send_new in_face key hops e s
    after_decision suppress in_face key hops e s = s
    after_decision forward in_face key hops e s = send_again in_face key hops e s

    -- BestRouteStrategy2::afterReceiveInterest. The decision may create or lengthen the entry's
    -- suppression interval.
    unfoldable pub best_route2 :
        Face → Interest ndn → List NextHop → Forwarder ndn stores → Forwarder ndn stores
    unfolding after_decision
    best_route2 in_face key hops s = elim (find_entry ndn key s.pit) [
      | none ↦ s
      | some e ↦
          let (result, decided) = decide_exponential ndn retx now e in
          after_decision result in_face key hops decided
            (modify_entry ndn stores city_hash key (λ e. (decide_exponential ndn retx now e).1) s)
    ]
