-- ===== src/Cs/Examples.antt =====
-- The Content Store on a few Data, with the toy names of Toy.antt.
use nfd_pitless.Base.{ℕ, true, false, List, [], ◌∷◌}
use nfd_pitless.Ndn.{Data}
use nfd_pitless.Toy.{toy, data_for}
use nfd_pitless.Rib.Toy.{toy_order}
use nfd_pitless.Cs.{new_cs}
use nfd_pitless.Cs.Cached.{IsCached}
use nfd_pitless.Cs.Runs.{Event, inserted, used, limited, run, run-IsCached}

abbrev toy_digest : Data toy → ℕ
toy_digest d = d.content

abbrev some_events : List (Event toy toy_order toy_digest)
some_events =
    inserted 10 (data_for (3 ∷ []) []) false
    ∷ inserted 20 (data_for (4 ∷ []) []) true
    ∷ used (3 ∷ [], 42)
    ∷ inserted 30 (data_for (5 ∷ []) []) false
    ∷ limited 1
    ∷ []

run-IsCached_example :
    IsCached toy toy_order toy_digest
      (run toy toy_order toy_digest some_events (new_cs toy toy_order toy_digest 2))
run-IsCached_example = run-IsCached toy toy_order toy_digest 2 some_events

one_kept : IsCached toy toy_order toy_digest (
    run toy toy_order toy_digest
      (inserted 10 (data_for (3 ∷ []) []) false ∷ [])
      (new_cs toy toy_order toy_digest 1))
one_kept = run-IsCached toy toy_order toy_digest 1 (inserted 10 (data_for (3 ∷ []) []) false ∷ [])
