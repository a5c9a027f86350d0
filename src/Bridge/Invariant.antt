-- ===== src/Bridge/Invariant.antt =====
-- What a state of the bridge keeps, and the steps of daemon/fw/bridge-forwarder.cpp that the
-- pipelines are made of.
use nfd_pitless.Base.{
  ℕ, ◌≡◌, Bool, not, ◌&&◌, List, [], ◌∷◌, find_if, if_keeps, ◌==◌, All, All-append, Bool-cases,
  Option-cases, inl, inr,
}
use nfd_pitless.Ndn.{Ndn, Interest, Data}
use nfd_pitless.Face.{Face, invalid_faceid}
use nfd_pitless.Fib.{NextHop}
use nfd_pitless.DeadNonce.{DeadNonceList}
use nfd_pitless.Pit.{Entry}
use nfd_pitless.Pit.Everywhere.{Everywhere, modify-Everywhere}
use nfd_pitless.Fw.{
  Stores, Forwarder, Output, send_interest, send_data, interest_delay, content_delay, cs_lookup,
  cs_add, on_outgoing_data, put, report_interest_delay, report_content_delay,
}
use nfd_pitless.Forwarder.{modify_entry}
use nfd_pitless.Bridge.{best_route, on_outgoing_interest_bridge, can_forward_to}

module _ (ndn : Ndn) (stores : Stores ndn) (city_hash : ndn.Name → ℕ → ℕ)
    (own_name : ndn.Name) where
  abbrev pub HasNoOut : Entry ndn → Type 0
  HasNoOut e = e.out_records ≡ []

  -- An Interest that is sent carries the bridge's name as its supporting name.
  abbrev pub IsNamed : Output ndn → Type 0
  IsNamed (send_interest g i) = i.supporting_name ≡ own_name
  IsNamed (send_data g d) = Unit {0}
  IsNamed interest_delay = Unit {0}
  IsNamed content_delay = Unit {0}

  pub record IsBridged (d : DeadNonceList) (s : Forwarder ndn stores) : Type 0 where
    pub no_out : Everywhere ndn HasNoOut s.pit
    pub same_dead_nonces : s.dead_nonces ≡ d
    pub named : All IsNamed s.outputs

  module _ (d : DeadNonceList) where
    pub put-IsBridged :
        (o : Output ndn) (s : Forwarder ndn stores)
        → IsNamed o
        → IsBridged d s
        → IsBridged d (put ndn stores o s)
    put-IsBridged o s n h = record {
      no_out = h.no_out;
      same_dead_nonces = h.same_dead_nonces;
      named = All-append IsNamed s.outputs (o ∷ []) h.named (n, tt);
    }

    pub modify_entry-IsBridged :
        (key : Interest ndn) (f : Entry ndn → Entry ndn) (s : Forwarder ndn stores)
        → ((e : Entry ndn) → HasNoOut e → HasNoOut (f e))
        → IsBridged d s
        → IsBridged d (modify_entry ndn stores city_hash key f s)
    modify_entry-IsBridged key f s keeps h = record {
      no_out = modify-Everywhere ndn HasNoOut key f s.pit keeps h.no_out;
      same_dead_nonces = h.same_dead_nonces;
      named = h.named;
    }

    pub interest_delay-IsBridged :
        (s : Forwarder ndn stores)
        → IsBridged d s
        → IsBridged d (report_interest_delay ndn stores s)
    interest_delay-IsBridged s h =
        if_keeps (IsBridged d) s.has_interest_callback (put ndn stores interest_delay s) s
          (put-IsBridged interest_delay s tt h) h

    pub content_delay-IsBridged :
        (s : Forwarder ndn stores) → IsBridged d s → IsBridged d (report_content_delay ndn stores s)
    content_delay-IsBridged s h =
        if_keeps (IsBridged d) s.has_content_callback (put ndn stores content_delay s) s
          (put-IsBridged content_delay s tt h) h

    pub outgoing_data-IsBridged :
        (packet : Data ndn) (g : Face) (s : Forwarder ndn stores)
        → IsBridged d s
        → IsBridged d (on_outgoing_data ndn stores packet g s)
    unfolding on_outgoing_data
    outgoing_data-IsBridged packet g s h = elim (Bool-cases (g.id == invalid_faceid)) [
      | inl bad ↦ rw (bad, on_outgoing_data) h
      | inr good ↦
          elim (Bool-cases (not g.is_local && ndn.is_prefix_of ndn.localhost_name packet.name)) [
            | inl out ↦ rw (good, on_outgoing_data) (rw out h)
            | inr fine ↦
                rw (good, on_outgoing_data)
                  (rw fine (record {
                    no_out = h.no_out;
                    same_dead_nonces = h.same_dead_nonces;
                    named = All-append IsNamed s.outputs (send_data g packet ∷ []) h.named (tt, tt);
                  }))
          ]
    ]

    pub cs_add-IsBridged :
        (packet : Data ndn) (b : Bool) (s : Forwarder ndn stores)
        → IsBridged d s
        → IsBridged d (cs_add ndn stores packet b s)
    unfolding cs_add
    cs_add-IsBridged packet b s h = elim (Option-cases s.cs_from_ndn_sim) [
      | inl own ↦
          rw (own, cs_add)
            (record { no_out = h.no_out; same_dead_nonces = h.same_dead_nonces; named = h.named })
      | inr (sim, set) ↦
          rw (set, cs_add)
            (record { no_out = h.no_out; same_dead_nonces = h.same_dead_nonces; named = h.named })
    ]

    pub cs_lookup-IsBridged :
        (i : Interest ndn) (s : Forwarder ndn stores)
        → IsBridged d s
        → IsBridged d (cs_lookup ndn stores i s).0
    unfolding cs_lookup
    cs_lookup-IsBridged i s h = elim (Option-cases s.cs_from_ndn_sim) [
      | inl own ↦
          rw (own, cs_lookup)
            (record { no_out = h.no_out; same_dead_nonces = h.same_dead_nonces; named = h.named })
      | inr (sim, set) ↦
          rw (set, cs_lookup)
            (record { no_out = h.no_out; same_dead_nonces = h.same_dead_nonces; named = h.named })
    ]

    pub best_route-IsBridged :
        (f : Face) (i : Interest ndn) (hops : List NextHop) (s : Forwarder ndn stores)
        → i.supporting_name ≡ own_name
        → IsBridged d s
        → IsBridged d (best_route ndn stores city_hash own_name f i hops s)
    unfolding best_route
    best_route-IsBridged f i hops s n h = elim (Option-cases (find_if (can_forward_to f) hops)) [
      | inl nowhere ↦ rw (nowhere, best_route) h
      | inr (hop, found) ↦ rw (found, best_route) (sent hop)
    ]
      where
        sent :
            (hop : NextHop)
            → IsBridged d (on_outgoing_interest_bridge ndn stores city_hash own_name i hop.face s)
        sent hop = elim (Bool-cases (hop.face.id == invalid_faceid)) [
          | inl bad ↦ rw (bad, on_outgoing_interest_bridge) h
          | inr good ↦
              rw (good, on_outgoing_interest_bridge)
                (put-IsBridged (send_interest hop.face i) s n h)
        ]
