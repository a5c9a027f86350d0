-- ===== src/Bridge/Examples.antt =====
-- The bridge at concrete inputs.
use nfd_pitless.Base.{ℕ, ◌≡◌, refl, List, [], ◌∷◌, none, some}
use nfd_pitless.Toy.{toy, toy_stores, interest_for, data_for, west, east, local_face, idle}
use nfd_pitless.Ndn.{Interest}
use nfd_pitless.DeadNonce.{has}
use nfd_pitless.Pit.{Entry, new_entry}
use nfd_pitless.Pit.Table.{find_entry}
use nfd_pitless.Fw.{Forwarder, cs_lookup}
use nfd_pitless.Bridge.{on_incoming_interest}
use nfd_pitless.Bridge.Leak.{hit_leaves_entry}
use nfd_pitless.Bridge.Invariant.{IsBridged}
use nfd_pitless.Bridge.NoOutRecords.{
  Event, run, run-IsBridged, interest_arrives, data_arrives, unsatisfy_fires, mark_fires, tick_all,
}

abbrev flat_hash : List ℕ → ℕ → ℕ
flat_hash name seed = seed

abbrev ask : Interest toy
ask = interest_for (7 ∷ []) 31

-- The west waits for `ask` until 90.
abbrev waiting : Entry toy
waiting = record {
  interest = ask;
  in_records =
      record {
        base = record { face = west; last_nonce = 31; last_renewed = 20; expiry = 90 };
        interest = some ask;
      }
      ∷ [];
  out_records = [];
  unsatisfy_timer = some 90;
  straggler_timer = none;
  suppression_interval = none;
}

abbrev busy : Forwarder toy toy_stores
busy = record idle {
  pit = record { nodes = record { name = 7 ∷ []; entries = waiting ∷ [] } ∷ []; n_items = 1 };
}

abbrev stocked : Forwarder toy toy_stores
stocked = record idle { cs = data_for (7 ∷ 8 ∷ []) [] ∷ [] }

hit_leaves_entry_example :
    find_entry toy
      (record ask { incoming_face_id = 257 })
      (on_incoming_interest toy toy_stores flat_hash (5 ∷ []) 60 west ask stocked).pit
    ≡ some (new_entry toy (record ask { incoming_face_id = 257 }))
unfolding find_entry has cs_lookup
hit_leaves_entry_example =
    hit_leaves_entry toy toy_stores flat_hash (5 ∷ []) 60 west ask stocked
      (data_for (7 ∷ 8 ∷ []) []) refl refl refl refl

-- A mark goes to the list, but no nonce.
abbrev events : List (Event toy)
events =
    interest_arrives 30 local_face ask
    ∷ mark_fires
    ∷ data_arrives 60 east (data_for (9 ∷ []) (7 ∷ []))
    ∷ unsatisfy_fires ask
    ∷ []

run-IsBridged_example :
    IsBridged toy toy_stores flat_hash
      (5 ∷ [])
      (tick_all toy toy_stores flat_hash (5 ∷ []) events busy.dead_nonces)
      (run toy toy_stores flat_hash (5 ∷ []) events busy)
run-IsBridged_example =
    run-IsBridged toy toy_stores flat_hash (5 ∷ []) events busy ((refl, tt), tt) tt
