-- ===== src/Strategy/Examples.antt =====
-- Strategies at concrete inputs.
use nfd_pitless.Base.{ℕ, ◌≡◌, ◌*◌, ◌^◌, refl, min, List, [], ◌∷◌, none, some, arith}
use nfd_pitless.Toy.{toy, toy_stores, interest_for, west, east, local_face, two_ways, idle}
use nfd_pitless.Face.{Face}
use nfd_pitless.Ndn.{Interest}
use nfd_pitless.Pit.{Entry, FaceRecord}
use nfd_pitless.Pit.Table.{find_entry}
use nfd_pitless.Fw.{Forwarder}
use nfd_pitless.Strategy.{best_route2}
use nfd_pitless.Strategy.Retx.{default_exponential, interval_of, decide_exponential}
use nfd_pitless.Strategy.Intervals.{Round, decide_all, count_forwards, decide_all_lem}
use nfd_pitless.Strategy.Eligible.{SendsAway, best_route2_lem}

abbrev flat_hash : List ℕ → ℕ → ℕ
flat_hash name seed = seed

abbrev ask : Interest toy
ask = interest_for (7 ∷ []) 31

abbrev record_at : Face → ℕ → FaceRecord
record_at face renewed = record {
  face = face;
  last_nonce = 31;
  last_renewed = renewed;
  expiry = 9_000_000_000;
}

-- The west and a local face wait; the Interest went to the east at 0.
abbrev waiting : Entry toy
waiting = record {
  interest = ask;
  in_records =
      record { base = record_at west 1; interest = some ask }
      ∷ record { base = record_at local_face 2; interest = some ask }
      ∷ [];
  out_records = record_at east 0 ∷ [];
  unsatisfy_timer = none;
  straggler_timer = none;
  suppression_interval = none;
}

abbrev busy : Forwarder toy toy_stores
busy = record idle {
  pit = record { nodes = record { name = 7 ∷ []; entries = waiting ∷ [] } ∷ []; n_items = 1 };
}

-- A retransmission after two milliseconds.
best_route2_lem_example :
    SendsAway toy toy_stores flat_hash 2_000_000 local_face
      (decide_exponential toy default_exponential 2_000_000 waiting).1
      busy
      (best_route2 toy toy_stores flat_hash 2_000_000 default_exponential local_face ask two_ways
        busy)
unfolding find_entry
best_route2_lem_example =
    best_route2_lem toy toy_stores flat_hash 2_000_000 default_exponential local_face ask two_ways
      busy waiting refl

-- Two retransmissions, of which the second is too soon.
abbrev rounds : List Round
rounds =
    record { now = 2_000_000; out_records = record_at east 0 ∷ [] }
    ∷ record { now = 3_000_000; out_records = record_at east 2_000_000 ∷ [] }
    ∷ []

decide_all_lem_example :
    interval_of toy default_exponential (decide_all toy default_exponential rounds waiting)
    ≡ min 250_000 (1000 * 2 ^ count_forwards toy default_exponential rounds waiting)
decide_all_lem_example =
    decide_all_lem toy default_exponential rounds waiting (λ n _. refl) (omega arith) (omega arith)
      refl
