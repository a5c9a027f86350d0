-- ===== src/Pitless/Stateless.antt =====
-- How the state of the PITless forwarder (daemon/fw/pitless-forwarder.cpp) changes over a run.
use nfd_pitless.Base.{
  ℕ, ◌+◌, ◌≤◌, ◌≡◌, ◌∙◌, refl, Bool, true, false, not, ◌&&◌, List, [], ◌∷◌, ◌++◌, Option, none,
  some, arith, count_if, length, Option-cases, Bool-cases, inl, inr, find_if,
}
use nfd_pitless.Ndn.{Ndn, Interest, Data}
use nfd_pitless.Face.{Face, same}
use nfd_pitless.Fib.{NextHop}
use nfd_pitless.Fw.{
  Stores, Forwarder, Output, send_interest, send_data, interest_delay, content_delay,
  on_outgoing_data, cs_lookup, cs_add, report_interest_delay, report_content_delay,
}
use nfd_pitless.Pitless.{
  on_incoming_interest, on_incoming_data, after_lookup, best_route, on_content_store_miss,
  on_content_store_hit, forward_data, can_forward_to, on_outgoing_interest_pitless,
}

-- A packet that reaches the forwarder.
pub data Arrival (ndn : Ndn) : Type 0 where
  interest_arrives : Face → Interest ndn → Arrival ndn
  data_arrives : Face → Data ndn → Arrival ndn

module _ (ndn : Ndn) (stores : Stores ndn) where
  abbrev pub is_packet : Output ndn → Bool
  is_packet (send_interest face interest) = true
  is_packet (send_data face packet) = true
  is_packet interest_delay = false
  is_packet content_delay = false

  unfoldable pub receive : Arrival ndn → Forwarder ndn stores → Forwarder ndn stores
  receive (interest_arrives face interest) s = on_incoming_interest ndn stores face interest s
  receive (data_arrives face packet) s = on_incoming_data ndn stores face packet s

  unfoldable pub run : List (Arrival ndn) → Forwarder ndn stores → Forwarder ndn stores
  run [] s = s
  run (a ∷ as') s = run as' (receive a s)

  -- How a state changes while packets are handled, `n` of them at most having been sent.
  pub record Within (n : ℕ) (s t : Forwarder ndn stores) : Type 0 where
    pub same_pit : t.pit ≡ s.pit
    pub same_dead_nonces : t.dead_nonces ≡ s.dead_nonces
    pub same_fib : t.fib ≡ s.fib
    pub sent : count_if is_packet t.outputs ≤ count_if is_packet s.outputs + n

  count-append :
      (xs ys : List (Output ndn))
      → count_if is_packet (xs ++ ys) ≡ count_if is_packet xs + count_if is_packet ys
  count-append [] ys = omega arith
  count-append (send_interest f i ∷ xs) ys = omega (arith, count-append xs ys)
  count-append (send_data f d ∷ xs) ys = omega (arith, count-append xs ys)
  count-append (interest_delay ∷ xs) ys = omega (arith, count-append xs ys)
  count-append (content_delay ∷ xs) ys = omega (arith, count-append xs ys)

  Within-trans :
      {m n : ℕ} {s t u : Forwarder ndn stores} → Within m s t → Within n t u → Within (m + n) s u
  Within-trans a b = record {
    same_pit = b.same_pit ∙ a.same_pit;
    same_dead_nonces = b.same_dead_nonces ∙ a.same_dead_nonces;
    same_fib = b.same_fib ∙ a.same_fib;
    sent = omega arith;
  }

  report_interest_delay-Within :
      (s : Forwarder ndn stores) → Within 0 s (report_interest_delay ndn stores s)
  report_interest_delay-Within s = ground (arith, count-append s.outputs (interest_delay ∷ []))

  report_content_delay-Within :
      (s : Forwarder ndn stores) → Within 0 s (report_content_delay ndn stores s)
  report_content_delay-Within s = ground (arith, count-append s.outputs (content_delay ∷ []))

  outgoing_data-Within :
      (packet : Data ndn) (face : Face) (s : Forwarder ndn stores)
      → Within 1 s (on_outgoing_data ndn stores packet face s)
  unfolding on_outgoing_data
  outgoing_data-Within packet face s =
      ground (arith, count-append s.outputs (send_data face packet ∷ []))

  outgoing_interest-Within :
      (interest : Interest ndn) (face : Face) (s : Forwarder ndn stores)
      → Within 1 s (on_outgoing_interest_pitless ndn stores interest face s)
  unfolding on_outgoing_interest_pitless
  outgoing_interest-Within interest face s =
      ground (arith, count-append s.outputs (send_interest face interest ∷ []))

  best_route-Within :
      (face : Face) (interest : Interest ndn) (s : Forwarder ndn stores)
      → Within 1 s (best_route ndn stores face interest (s.fib interest.name) s)
  unfolding best_route
  best_route-Within face interest s =
      elim (Option-cases (find_if (can_forward_to face) (s.fib interest.name))) [
        | inl e ↦
            rw (e, best_route)
              (record {
                same_pit = refl;
                same_dead_nonces = refl;
                same_fib = refl;
                sent = omega arith;
              })
        | inr (hop, e) ↦ rw (e, best_route) (outgoing_interest-Within interest hop.face s)
      ]

  cs_lookup-Within :
      (interest : Interest ndn) (s : Forwarder ndn stores)
      → Within 0 s (cs_lookup ndn stores interest s).0
  unfolding cs_lookup
  cs_lookup-Within interest s = ground arith

  cs_add-Within :
      (packet : Data ndn) (b : Bool) (s : Forwarder ndn stores)
      → Within 0 s (cs_add ndn stores packet b s)
  unfolding cs_add
  cs_add-Within packet b s = ground arith

  after_lookup-Within :
      (face : Face) (interest : Interest ndn) (s : Forwarder ndn stores) (found : Option (Data ndn))
      → Within 1 s (after_lookup ndn stores face interest (s, found))
  unfolding after_lookup on_content_store_miss on_content_store_hit
  after_lookup-Within face interest s none = best_route-Within face interest s
  after_lookup-Within face interest s (some packet) = outgoing_data-Within _ face s

  Within-weaken : {s t : Forwarder ndn stores} → Within 0 s t → Within 1 s t
  Within-weaken w = record {
    same_pit = w.same_pit;
    same_dead_nonces = w.same_dead_nonces;
    same_fib = w.same_fib;
    sent = omega arith;
  }

  interest-Within :
      (face : Face) (interest : Interest ndn) (s : Forwarder ndn stores)
      → Within 1 s (on_incoming_interest ndn stores face interest s)
  unfolding on_incoming_interest
  interest-Within face interest s =
      let received : Interest ndn = record interest { incoming_face_id = face.id } in
      let counted : Forwarder ndn stores = record s { n_in_interests = s.n_in_interests + 1 } in
      let looked = cs_lookup ndn stores received counted in
      let start : Within 0 s counted = record {
        same_pit = refl;
        same_dead_nonces = refl;
        same_fib = refl;
        sent = omega arith;
      } in
      elim (Bool-cases (not face.is_local && ndn.is_prefix_of ndn.localhost_name interest.name)) [
        | inl drop ↦
            rw drop (Within-weaken (Within-trans start (report_interest_delay-Within counted)))
        | inr pass ↦ rw pass (
            Within-trans start (
              Within-trans (cs_lookup-Within received counted) (
                Within-trans (after_lookup-Within face received looked.0 looked.1)
                  (report_interest_delay-Within _))))
      ]

  forward_data-Within :
      (face : Face) (packet : Data ndn) (hops : List NextHop) (s : Forwarder ndn stores)
      → Within 1 s (forward_data ndn stores face packet hops s)
  unfolding forward_data
  forward_data-Within face packet hops s =
      elim (Option-cases (find_if (can_forward_to face) hops)) [
        | inl e ↦
            rw (e, forward_data)
              (record {
                same_pit = refl;
                same_dead_nonces = refl;
                same_fib = refl;
                sent = omega arith;
              })
        | inr (hop, e) ↦ elim (Bool-cases (same hop.face face)) [
          | inl back ↦
              rw (e, forward_data)
                (rw back (record {
                  same_pit = refl;
                  same_dead_nonces = refl;
                  same_fib = refl;
                  sent = omega arith;
                }))
          | inr on ↦ rw (e, forward_data) (rw on (outgoing_data-Within packet hop.face s))
        ]
      ]

  data-Within :
      (face : Face) (packet : Data ndn) (s : Forwarder ndn stores)
      → Within 1 s (on_incoming_data ndn stores face packet s)
  unfolding on_incoming_data
  data-Within face packet s =
      let received : Data ndn = record packet { incoming_face_id = face.id } in
      let counted : Forwarder ndn stores = record s { n_in_datas = s.n_in_datas + 1 } in
      let cached = cs_add ndn stores received false counted in
      let start : Within 0 s counted = record {
        same_pit = refl;
        same_dead_nonces = refl;
        same_fib = refl;
        sent = omega arith;
      } in
      elim (Bool-cases
        (not face.is_local && ndn.is_prefix_of ndn.localhost_name packet.supporting_name)) [
          | inl drop ↦
              rw drop (Within-weaken (Within-trans start (report_interest_delay-Within counted)))
          | inr pass ↦ rw pass (
              Within-trans start (
                Within-trans (cs_add-Within received false counted) (
                  Within-trans (forward_data-Within face received (cached.fib packet.name) cached)
                    (report_content_delay-Within _))))
        ]

  receive-Within : (a : Arrival ndn) (s : Forwarder ndn stores) → Within 1 s (receive a s)
  unfolding receive
  receive-Within (interest_arrives face interest) s = interest-Within face interest s
  receive-Within (data_arrives face packet) s = data-Within face packet s

  -- Whatever packets arrive in whatever order, the PIT, the Dead Nonce List and the FIB are as they
  -- were, and no more packets have been sent than have arrived.
  pub run-Within :
      (arrivals : List (Arrival ndn)) (s : Forwarder ndn stores)
      → Within (length arrivals) s (run arrivals s)
  unfolding run
  run-Within [] s = record {
    same_pit = refl;
    same_dead_nonces = refl;
    same_fib = refl;
    sent = omega arith;
  }
  run-Within (a ∷ arrivals) s =
      let w = Within-trans (receive-Within a s) (run-Within arrivals (receive a s)) in
      record {
        same_pit = w.same_pit;
        same_dead_nonces = w.same_dead_nonces;
        same_fib = w.same_fib;
        sent = omega (arith, w.sent);
      }
