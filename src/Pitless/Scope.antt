-- ===== src/Pitless/Scope.antt =====
-- The /localhost scope in the PITless forwarder, daemon/fw/pitless-forwarder.cpp.
use nfd_pitless.Base.{
  ◌≡◌, true, false, not, ◌&&◌, List, [], ◌∷◌, ◌++◌, none, arith, All, All-append, any_of, ◌==◌,
  subst,
}
use nfd_pitless.Ndn.{Ndn, Interest}
use nfd_pitless.Face.{Face, invalid_faceid}
use nfd_pitless.Fib.{NextHop, IsSorted}
use nfd_pitless.Fw.{
  Stores, Forwarder, Output, send_interest, send_data, interest_delay, content_delay, cs_lookup,
}
use nfd_pitless.Pitless.{on_incoming_interest, can_forward_to}
use nfd_pitless.Pitless.Stateless.{Arrival, interest_arrives, data_arrives, receive, run}
use nfd_pitless.Pitless.Answers.{Answers, receive-Emits}
use nfd_pitless.Pitless.Packets.{packets}
use nfd_pitless.Pitless.Routing.{interest_to_cheapest}

module _ (ndn : Ndn) (stores : Stores ndn) where
  -- Data under /localhost goes to local faces only.
  abbrev pub KeepsData : Output ndn → Type 0
  KeepsData (send_data g d) = (not g.is_local && ndn.is_prefix_of ndn.localhost_name d.name) ≡ false
  KeepsData (send_interest g i) = Unit {0}
  KeepsData interest_delay = Unit {0}
  KeepsData content_delay = Unit {0}

  keeps : (a : Arrival ndn) (o : Output ndn) → Answers ndn stores a o → KeepsData o
  keeps (interest_arrives f i) (send_interest g j) h = tt
  keeps (interest_arrives f i) (send_data g d) h = h.2
  keeps (interest_arrives f i) interest_delay h = tt
  keeps (interest_arrives f i) content_delay h = tt
  keeps (data_arrives f d) (send_interest g j) h = tt
  keeps (data_arrives f d) (send_data g e) h = rw (h.3) h.2
  keeps (data_arrives f d) interest_delay h = tt
  keeps (data_arrives f d) content_delay h = tt

  keeps_All :
      (a : Arrival ndn) (os : List (Output ndn)) → All (Answers ndn stores a) os → All KeepsData os
  keeps_All a [] h = tt
  keeps_All a (o ∷ os) h = (keeps a o h.0, keeps_All a os h.1)

  -- Whatever packets arrive, if the Data sent so far kept to the /localhost scope, so does all the
  -- Data sent in answer.
  pub run-KeepsData :
      (arrivals : List (Arrival ndn)) (s : Forwarder ndn stores)
      → All KeepsData s.outputs
      → All KeepsData (run ndn stores arrivals s).outputs
  unfolding run
  run-KeepsData [] s h = h
  run-KeepsData (a ∷ arrivals) s h =
      let e = receive-Emits ndn stores a s in
      run-KeepsData arrivals (receive ndn stores a s)
        (rw (e.split) (All-append KeepsData s.outputs e.new h (keeps_All a e.new e.answers)))

  none_local :
      (before after : List NextHop) (hop : NextHop)
      → any_of (λ g. g.face.is_local) (before ++ hop ∷ after) ≡ false
      → hop.face.is_local ≡ false
  none_local [] after hop h = ground arith
  none_local (g ∷ gs) after hop h = ground (arith, none_local gs after hop)

  -- An Interest from a local face that is under /localhost and misses in the Content Store, at a
  -- sorted FIB entry whose faces have ids and are none of them local, with a hop to another face:
  -- the Interest is sent to a face that is not local.
  pub localhost_escapes :
      (f : Face) (s : Forwarder ndn stores) (i : Interest ndn)
      → f.is_local ≡ true
      → ndn.is_prefix_of ndn.localhost_name i.name ≡ true
      → (cs_lookup ndn stores (record i { incoming_face_id = f.id }) s).1 ≡ none
      → IsSorted (s.fib i.name)
      → any_of (λ g. g.face.id == invalid_faceid) (s.fib i.name) ≡ false
      → any_of (λ g. g.face.is_local) (s.fib i.name) ≡ false
      → any_of (can_forward_to f) (s.fib i.name) ≡ true
      → (g : Face) × (g.is_local ≡ false)
        × (packets ndn stores (on_incoming_interest ndn stores f i s).outputs
            ≡ packets ndn stores s.outputs
              ++ send_interest g (record i { incoming_face_id = f.id }) ∷ [])
  localhost_escapes f s i local under missed sorted valid remote some_hop =
      let (hop, c, e) =
        interest_to_cheapest ndn stores f s i (rw local) missed sorted valid some_hop in
      (
        hop.face,
        none_local c.before c.after hop
            (subst (λ l. any_of (λ g. g.face.is_local) l ≡ false) c.listed remote),
        e,
      )
