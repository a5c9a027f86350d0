-- ===== src/Forwarder/Arrivals.antt =====
-- What an Interest that is new to the PIT and to the Dead Nonce List meets on its way through
-- onIncomingInterest of daemon/fw/forwarder.cpp and daemon/fw/bridge-forwarder.cpp.
use nfd_pitless.Base.{ℕ, ◌≡◌, refl, false, none, some, arith, Option-cases, inl, inr}
use nfd_pitless.Ndn.{Ndn, Interest, Data}
use nfd_pitless.Face.{Face}
use nfd_pitless.DeadNonce.{has}
use nfd_pitless.Pit.{new_entry, find_nonce}
use nfd_pitless.Pit.Table.{Pit, find_entry, insert, modify}
use nfd_pitless.Pit.Lookup.{new_found, find-modify}
use nfd_pitless.Fw.{Stores, Forwarder, cs_lookup, on_outgoing_data, report_interest_delay}
use nfd_pitless.Forwarder.{cancel_timers}
use nfd_pitless.Forwarder.Pipelines.{has_duplicate_nonce, is_pending}

module _ (ndn : Ndn) (stores : Stores ndn) (city_hash : ndn.Name → ℕ → ℕ) where
  pub delay-pit : (s : Forwarder ndn stores) → (report_interest_delay ndn stores s).pit ≡ s.pit
  delay-pit s = ground arith

  pub outgoing_data-pit :
      (p : Data ndn) (g : Face) (s : Forwarder ndn stores)
      → (on_outgoing_data ndn stores p g s).pit ≡ s.pit
  unfolding on_outgoing_data
  outgoing_data-pit p g s = ground arith

  pub fresh_entry :
      (i : Interest ndn) (s : Forwarder ndn stores)
      → find_entry ndn i s.pit ≡ none
      → find_entry ndn i (modify ndn i (cancel_timers ndn) (insert ndn i s.pit).0)
        ≡ some (new_entry ndn i)
  unfolding cancel_timers new_entry
  fresh_entry i s missing =
      find-modify ndn i (cancel_timers ndn) (insert ndn i s.pit).0 (λ e. refl) (new_entry ndn i)
        (new_found ndn i s.pit missing)

  pub not_known :
      (f : Face) (i : Interest ndn) (s : Forwarder ndn stores)
      → find_entry ndn i s.pit ≡ some (new_entry ndn i)
      → has city_hash s.dead_nonces i.name i.nonce ≡ false
      → has_duplicate_nonce ndn stores city_hash f i s ≡ false
  unfolding has_duplicate_nonce find_nonce new_entry
  not_known f i s found alive = rw (found, has_duplicate_nonce) (rw alive refl)

  pub not_pending :
      (i : Interest ndn) (s : Forwarder ndn stores)
      → find_entry ndn i s.pit ≡ some (new_entry ndn i)
      → is_pending ndn stores city_hash i s ≡ false
  unfolding is_pending new_entry
  not_pending i s found = rw (found, is_pending) refl

  pub lookup-pit :
      (i : Interest ndn) (s : Forwarder ndn stores) → (cs_lookup ndn stores i s).0.pit ≡ s.pit
  unfolding cs_lookup
  lookup-pit i s = elim (Option-cases s.cs_from_ndn_sim) [
    | inl own ↦ rw (own, cs_lookup) refl
    | inr (sim, set) ↦ rw (set, cs_lookup) refl
  ]

  -- A lookup does not read the PIT or the counters.
  pub lookup-found :
      (i : Interest ndn) (n : ℕ) (p : Pit ndn) (s : Forwarder ndn stores)
      → (cs_lookup ndn stores i (record s { n_in_interests = n; pit = p })).1
        ≡ (cs_lookup ndn stores i s).1
  unfolding cs_lookup
  lookup-found i n p s = elim (Option-cases s.cs_from_ndn_sim) [
    | inl own ↦ rw (own, cs_lookup) refl
    | inr (sim, set) ↦ rw (set, cs_lookup) refl
  ]
