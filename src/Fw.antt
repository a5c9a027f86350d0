-- ===== src/Fw.antt =====
-- What the three forwarders share (daemon/fw/forwarder.cpp and its subclasses): their state, what
-- they put out, and the outgoing Data pipeline.
use nfd_pitless.Base.{
  ℕ, ◌+◌, Bool, not, ◌&&◌, List, [], ◌∷◌, ◌++◌, Option, none, some, if◌then◌else◌, ◌==◌,
}
use nfd_pitless.Ndn.{Ndn, Interest, Data}
use nfd_pitless.Face.{Face, invalid_faceid}
use nfd_pitless.Fib.{NextHop}
use nfd_pitless.Pit.Table.{Pit}
use nfd_pitless.DeadNonce.{DeadNonceList}

-- The two Content Stores that a forwarder may have: its own, m_cs, and that of ndnSIM, which
-- replaces it when set. A lookup may reorder the store, and finds Data or none.
pub record Stores (ndn : Ndn) : Type 1 where
  pub Cs : Type 0
  pub cs_find : Cs → Interest ndn → Cs × Option (Data ndn)
  pub cs_insert : Cs → Data ndn → Bool → Cs
  pub SimCs : Type 0
  pub sim_lookup : SimCs → Interest ndn → SimCs × Option (Data ndn)
  pub sim_add : SimCs → Data ndn → SimCs

-- What leaves a forwarder: packets, and readings for the two delay callbacks.
pub data Output (ndn : Ndn) : Type 0 where
  send_interest : Face → Interest ndn → Output ndn
  send_data : Face → Data ndn → Output ndn
  interest_delay content_delay : Output ndn

-- `fib` is findLongestPrefixMatch: the next hops of the entry that it returns. A callback that is
-- not set is `false`. `outputs` has the oldest first.
pub record Forwarder (ndn : Ndn) (stores : Stores ndn) : Type 0 where
  pub fib : ndn.Name → List NextHop
  pub pit : Pit ndn
  pub dead_nonces : DeadNonceList
  pub cs : stores.Cs
  pub cs_from_ndn_sim : Option stores.SimCs
  pub n_in_interests : ℕ
  pub n_out_interests : ℕ
  pub n_in_datas : ℕ
  pub n_out_datas : ℕ
  pub has_interest_callback : Bool
  pub has_content_callback : Bool
  pub outputs : List (Output ndn)

module _ (ndn : Ndn) (stores : Stores ndn) where
  open ndn use {is_prefix_of, localhost_name}
  open stores use {cs_find, cs_insert, sim_lookup, sim_add}

  abbrev pub put : Output ndn → Forwarder ndn stores → Forwarder ndn stores
  put o s = record s { outputs = s.outputs ++ o ∷ [] }

  -- `if (m_interestDelayCallback != 0) m_interestDelayCallback(…)`
  abbrev pub report_interest_delay : Forwarder ndn stores → Forwarder ndn stores
  report_interest_delay s = if s.has_interest_callback then put interest_delay s else s

  abbrev pub report_content_delay : Forwarder ndn stores → Forwarder ndn stores
  report_content_delay s = if s.has_content_callback then put content_delay s else s

  -- A lookup in the store that is in use.
  unfoldable pub cs_lookup :
      Interest ndn → Forwarder ndn stores → Forwarder ndn stores × Option (Data ndn)
  cs_lookup interest s = elim s.cs_from_ndn_sim [
    | none ↦ let (cs', found) = cs_find s.cs interest in (record s { cs = cs' }, found)
    | some sim ↦
        let (sim', found) = sim_lookup sim interest in
        (record s { cs_from_ndn_sim = some sim' }, found)
  ]

  unfoldable pub cs_add : Data ndn → Bool → Forwarder ndn stores → Forwarder ndn stores
  cs_add packet is_unsolicited s = elim s.cs_from_ndn_sim [
    | none ↦ record s { cs = cs_insert s.cs packet is_unsolicited }
    | some sim ↦ record s { cs_from_ndn_sim = some (sim_add sim packet) }
  ]

  -- Forwarder::onOutgoingData
  unfoldable pub on_outgoing_data : Data ndn → Face → Forwarder ndn stores → Forwarder ndn stores
  on_outgoing_data packet out_face s =
      if out_face.id == invalid_faceid
      then s
      else if not out_face.is_local && is_prefix_of localhost_name packet.name
      then s
      else record (put (send_data out_face packet) s) { n_out_datas = s.n_out_datas + 1 }
