-- ===== src/Pitless/Multicast.antt =====
-- The PITless multicast strategy, daemon/fw/pitless-multicast-strategy.cpp.
use nfd_pitless.Base.{◌≡◌, Bool, not, ◌&&◌, List, [], ◌∷◌, ◌++◌, map, arith, copy_if, ◌==◌, sym}
use mathlib.Core.List.{append_assoc, append-nil}
use nfd_pitless.Ndn.{Ndn, Interest}
use nfd_pitless.Face.{Face, invalid_faceid}
use nfd_pitless.Fib.{NextHop}
use nfd_pitless.Fw.{Stores, Forwarder, send_interest, put}
use nfd_pitless.Pitless.{multicast, can_forward_to, on_outgoing_interest_pitless}

module _ (ndn : Ndn) (stores : Stores ndn) (f : Face) (i : Interest ndn) where
  -- A hop to another face than the incoming one, to a face with an id.
  abbrev pub is_target : NextHop → Bool
  is_target hop = can_forward_to f hop && not (hop.face.id == invalid_faceid)

  -- The multicast strategy sends the Interest once for each hop of the entry that leads to another
  -- face with an id, in the order of the entry, and sends nothing else.
  pub multicast_lem :
      (hops : List NextHop) (s : Forwarder ndn stores)
      → (multicast ndn stores f i hops s).outputs
        ≡ s.outputs ++ map (λ hop. send_interest hop.face i) (copy_if is_target hops)
  unfolding multicast on_outgoing_interest_pitless
  multicast_lem [] s = sym (append-nil s.outputs)
  multicast_lem (hop ∷ hops) s =
      let sent : Forwarder ndn stores = put ndn stores (send_interest hop.face i) s in
      ground (
        arith,
        multicast_lem hops s,
        multicast_lem hops sent,
        append_assoc s.outputs (send_interest hop.face i ∷ [])
            (map (λ hop. send_interest hop.face i) (copy_if is_target hops)),
      )
