-- ===== src/Pitless/Routing.antt =====
-- Where the PITless forwarder, daemon/fw/pitless-forwarder.cpp, sends a packet.
use nfd_pitless.Base.{
  ap, any_of, ◌+◌, ◌≡◌, ◌∙◌, true, false, not, ◌&&◌, [], ◌∷◌, ◌++◌, none, some, arith, ◌==◌,
}
use nfd_pitless.Ndn.{Ndn, Interest, Data}
use nfd_pitless.Face.{Face, same, invalid_faceid, faceid_content_store}
use nfd_pitless.Fib.{NextHop, IsSorted}
use nfd_pitless.Fw.{Stores, Forwarder, send_interest, send_data, cs_lookup, cs_add}
use nfd_pitless.Pitless.{
  on_incoming_interest, on_incoming_data, after_lookup, forward_data, can_forward_to,
}
use nfd_pitless.Pitless.Packets.{
  packets, IsCheapest, IsCheapest-of, find_some, valid_hop, other_address, miss_sends, hit_sends,
  forward_sends, packets-interest_delay, packets-content_delay, cs_lookup-counted, cs_lookup-fixed,
  cs_add-fixed,
}

module _ (ndn : Ndn) (stores : Stores ndn) where
  module _ (f : Face) (s : Forwarder ndn stores) where
    -- An Interest that passes the scope test and misses in the Content Store, at a FIB entry that
    -- is sorted, whose faces have ids, and that has a hop to another face: exactly one packet is
    -- sent, the Interest, to a cheapest hop that is not the face it came from.
    pub interest_to_cheapest :
        (i : Interest ndn)
        → (not f.is_local && ndn.is_prefix_of ndn.localhost_name i.name) ≡ false
        → (cs_lookup ndn stores (record i { incoming_face_id = f.id }) s).1 ≡ none
        → IsSorted (s.fib i.name)
        → any_of (λ g. g.face.id == invalid_faceid) (s.fib i.name) ≡ false
        → any_of (can_forward_to f) (s.fib i.name) ≡ true
        → (hop : NextHop) × IsCheapest ndn stores f (s.fib i.name) hop
          × (packets ndn stores (on_incoming_interest ndn stores f i s).outputs
              ≡ packets ndn stores s.outputs
                ++ send_interest hop.face (record i { incoming_face_id = f.id }) ∷ [])
    unfolding on_incoming_interest
    interest_to_cheapest i scope missed sorted valid some_hop =
        let received : Interest ndn = record i { incoming_face_id = f.id } in
        let counted : Forwarder ndn stores = record s { n_in_interests = s.n_in_interests + 1 } in
        let looked = cs_lookup ndn stores received counted in
        let (hop, e) = find_some ndn stores f (s.fib i.name) some_hop in
        let fixed = cs_lookup-fixed ndn stores received counted in
        let sends =
          miss_sends ndn stores f received hop looked.0 looked.1
            (cs_lookup-counted ndn stores received _ s ∙ missed) (rw (fixed.1) e)
            (valid_hop ndn stores (can_forward_to f) (s.fib i.name) hop e valid) in
        (
          hop,
          IsCheapest-of ndn stores f (s.fib i.name) hop sorted e,
          rw scope (
              packets-interest_delay ndn stores (after_lookup ndn stores f received looked)
              ∙ sends
              ∙ ap (λ l. packets ndn stores l ++ send_interest hop.face received ∷ []) fixed.0),
        )

    -- An Interest that passes the scope test and is found in the Content Store, on a face with an
    -- id, where the Data may go by its scope: exactly one packet is sent, the Data, to that face.
    pub interest_hit :
        (i : Interest ndn) (d : Data ndn)
        → (not f.is_local && ndn.is_prefix_of ndn.localhost_name i.name) ≡ false
        → (cs_lookup ndn stores (record i { incoming_face_id = f.id }) s).1 ≡ some d
        → (f.id == invalid_faceid) ≡ false
        → (not f.is_local && ndn.is_prefix_of ndn.localhost_name d.name) ≡ false
        → packets ndn stores (on_incoming_interest ndn stores f i s).outputs
          ≡ packets ndn stores s.outputs
            ++ send_data f (record d { incoming_face_id = faceid_content_store }) ∷ []
    unfolding on_incoming_interest
    interest_hit i d scope hit valid local =
        let received : Interest ndn = record i { incoming_face_id = f.id } in
        let counted : Forwarder ndn stores = record s { n_in_interests = s.n_in_interests + 1 } in
        let looked = cs_lookup ndn stores received counted in
        let sends =
          hit_sends ndn stores f received d looked.0 looked.1
            (cs_lookup-counted ndn stores received _ s ∙ hit) valid local in
        rw scope (
          packets-interest_delay ndn stores (after_lookup ndn stores f received looked)
          ∙ sends
          ∙ ap
              (λ l.
                packets ndn stores l
                ++ send_data f (record d { incoming_face_id = faceid_content_store }) ∷ [])
              (cs_lookup-fixed ndn stores received counted).0)

    -- Data whose supporting name passes the scope test, at a FIB entry of its name that is sorted,
    -- whose faces have ids and are not the incoming face under another id, with a hop to another
    -- face, and where the Data may go to any of them by its scope: exactly one packet is sent, the
    -- Data, to a cheapest hop that is not the face it came from.
    pub data_to_cheapest :
        (d : Data ndn)
        → (not f.is_local && ndn.is_prefix_of ndn.localhost_name d.supporting_name) ≡ false
        → IsSorted (s.fib d.name)
        → any_of (λ g. g.face.id == invalid_faceid) (s.fib d.name) ≡ false
        → any_of (λ g. can_forward_to f g && same g.face f) (s.fib d.name) ≡ false
        → ndn.is_prefix_of ndn.localhost_name d.name ≡ false
        → any_of (can_forward_to f) (s.fib d.name) ≡ true
        → (hop : NextHop) × IsCheapest ndn stores f (s.fib d.name) hop
          × (packets ndn stores (on_incoming_data ndn stores f d s).outputs
              ≡ packets ndn stores s.outputs
                ++ send_data hop.face (record d { incoming_face_id = f.id }) ∷ [])
    unfolding on_incoming_data
    data_to_cheapest d scope sorted valid ids public some_hop =
        let received : Data ndn = record d { incoming_face_id = f.id } in
        let counted : Forwarder ndn stores = record s { n_in_datas = s.n_in_datas + 1 } in
        let cached = cs_add ndn stores received false counted in
        let fixed = cs_add-fixed ndn stores received false counted in
        let (hop, e) = find_some ndn stores f (s.fib d.name) some_hop in
        let sends =
          forward_sends ndn stores f received hop (cached.fib d.name) cached (rw (fixed.1) e)
            (other_address ndn stores f _ hop e ids)
            (valid_hop ndn stores (can_forward_to f) (s.fib d.name) hop e valid)
            (rw public (ground arith)) in
        (
          hop,
          IsCheapest-of ndn stores f (s.fib d.name) hop sorted e,
          rw scope (
              packets-content_delay ndn stores
                (forward_data ndn stores f received (cached.fib d.name) cached)
              ∙ sends
              ∙ ap (λ l. packets ndn stores l ++ send_data hop.face received ∷ []) fixed.0),
        )
