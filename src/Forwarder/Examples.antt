-- ===== src/Forwarder/Examples.antt =====
-- The base forwarder at concrete inputs.
use nfd_pitless.Base.{ℕ, ◌≡◌, refl, true, ◌&&◌, List, [], ◌∷◌, none, some, count_if, ltb}
use nfd_pitless.Toy.{toy, toy_stores, interest_for, data_for, west, local_face, idle}
use nfd_pitless.Ndn.{Interest}
use nfd_pitless.Face.{Face}
use nfd_pitless.Pit.{Entry, InRecord}
use nfd_pitless.Pit.Table.{find_entry}
use nfd_pitless.Fw.{Forwarder}
use nfd_pitless.Forwarder.{max_element}
use nfd_pitless.Forwarder.Picking.{max_element_lem, elsewhere}
use nfd_pitless.Forwarder.Loop.{loop_leaves_entry}
use nfd_pitless.DeadNonce.{has}
use nfd_pitless.Pit.{new_entry}
use nfd_pitless.Fib.{NextHop}
use nfd_pitless.Forwarder.Pipelines.{on_incoming_interest}

abbrev flat_hash : List ℕ → ℕ → ℕ
flat_hash name seed = seed

abbrev ask : Interest toy
ask = interest_for (7 ∷ []) 31

abbrev in_record : Face → ℕ → ℕ → InRecord toy
in_record face renewed expiry = record {
  base = record { face = face; last_nonce = 31; last_renewed = renewed; expiry = expiry };
  interest = some ask;
}

-- The west and a local face wait, the latter's record over at 50.
abbrev waiting : Entry toy
waiting = record {
  interest = ask;
  in_records = in_record west 20 90 ∷ in_record local_face 10 50 ∷ [];
  out_records = [];
  unsatisfy_timer = some 90;
  straggler_timer = none;
  suppression_interval = none;
}

abbrev busy : Forwarder toy toy_stores
busy = record idle {
  pit = record { nodes = record { name = 7 ∷ []; entries = waiting ∷ [] } ∷ []; n_items = 1 };
}

max_element_lem_example :
    (elsewhere toy west
        (max_element toy west (in_record west 20 90) (in_record local_face 10 50 ∷ []))
      ≡ true)
    × (count_if
          (λ r.
            elsewhere toy west r
            && ltb r.base.last_renewed
                (max_element toy west
                  (in_record west 20 90)
                  (in_record local_face 10 50 ∷ [])).base.last_renewed)
          (in_record west 20 90 ∷ in_record local_face 10 50 ∷ [])
        ≡ 0)
max_element_lem_example =
    max_element_lem toy west (in_record west 20 90) (in_record local_face 10 50 ∷ []) refl

abbrev no_trigger :
    Face → Interest toy → List NextHop → Forwarder toy toy_stores → Forwarder toy toy_stores
no_trigger face interest hops s = s

abbrev arrived : Interest toy
arrived = record ask { incoming_face_id = 257 }

-- The nonce 31 of `ask` is on the Dead Nonce List.
abbrev wary : Forwarder toy toy_stores
wary = record idle { dead_nonces = record idle.dead_nonces { queue = 31 ∷ [] } }

loop_leaves_entry_example :
    find_entry toy arrived
      (on_incoming_interest toy toy_stores flat_hash no_trigger 60 west ask wary).pit
    ≡ some (new_entry toy arrived)
unfolding find_entry has
loop_leaves_entry_example =
    loop_leaves_entry toy toy_stores flat_hash no_trigger 60 west ask wary refl refl refl

abbrev stocked : Forwarder toy toy_stores
stocked = record idle { cs = data_for (7 ∷ 8 ∷ []) [] ∷ [] }
