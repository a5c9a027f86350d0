-- ===== src/Pitless/Examples.antt =====
-- The PITless forwarder at concrete inputs.
use nfd_pitless.Base.{◌≡◌, refl, false, [], ◌∷◌, arith, All}
use nfd_pitless.Toy.{
  toy, toy_stores, interest_for, data_for, local_face, west, east, two_ways, idle,
}
use nfd_pitless.Ndn.{Interest, Data}
use nfd_pitless.Face.{Face, faceid_content_store}
use nfd_pitless.Fib.{NextHop}
use nfd_pitless.Fw.{Forwarder, send_interest, send_data, interest_delay, cs_lookup}
use nfd_pitless.Pitless.{on_incoming_interest, on_incoming_data}
use nfd_pitless.Pitless.Stateless.{interest_arrives, data_arrives, receive, run, Within, run-Within}
use nfd_pitless.Pitless.Answers.{Emits, receive-Emits}
use nfd_pitless.Pitless.Packets.{packets, IsCheapest}
use nfd_pitless.Pitless.Routing.{interest_to_cheapest, interest_hit, data_to_cheapest}
use nfd_pitless.Pitless.Scope.{KeepsData, run-KeepsData, localhost_escapes}

abbrev ask : Interest toy
ask = interest_for (7 ∷ []) 31

abbrev reply : Data toy
reply = data_for (7 ∷ 8 ∷ []) (9 ∷ [])

-- From the west an Interest goes to the east, where the first hop leads.
ask_goes_east :
    (on_incoming_interest toy toy_stores west ask idle).outputs
    ≡ send_interest east (record ask { incoming_face_id = 257 }) ∷ interest_delay ∷ []
unfolding on_incoming_interest
ask_goes_east = refl

abbrev stocked : Forwarder toy toy_stores
stocked = record idle { cs = reply ∷ [] }

run-Within_example :
    Within toy toy_stores 2 idle
      (run toy toy_stores (interest_arrives west ask ∷ data_arrives east reply ∷ []) idle)
run-Within_example =
    run-Within toy toy_stores (interest_arrives west ask ∷ data_arrives east reply ∷ []) idle

receive-Emits_example :
    Emits toy toy_stores
      (interest_arrives west ask)
      idle
      (receive toy toy_stores (interest_arrives west ask) idle)
receive-Emits_example = receive-Emits toy toy_stores (interest_arrives west ask) idle

interest_to_cheapest_example :
    (hop : NextHop) × IsCheapest toy toy_stores west two_ways hop
    × (packets toy toy_stores (on_incoming_interest toy toy_stores west ask idle).outputs
        ≡ send_interest hop.face (record ask { incoming_face_id = 257 }) ∷ [])
unfolding cs_lookup
interest_to_cheapest_example =
    interest_to_cheapest toy toy_stores west idle ask refl refl (omega arith) refl refl

interest_hit_example :
    packets toy toy_stores (on_incoming_interest toy toy_stores west ask stocked).outputs
    ≡ send_data west (record reply { incoming_face_id = faceid_content_store }) ∷ []
unfolding cs_lookup
interest_hit_example = interest_hit toy toy_stores west stocked ask reply refl refl refl refl

data_to_cheapest_example :
    (hop : NextHop) × IsCheapest toy toy_stores east two_ways hop
    × (packets toy toy_stores (on_incoming_data toy toy_stores east reply idle).outputs
        ≡ send_data hop.face (record reply { incoming_face_id = 258 }) ∷ [])
data_to_cheapest_example =
    data_to_cheapest toy toy_stores east idle reply refl (omega arith) refl refl refl refl

run-KeepsData_example :
    All
      (KeepsData toy toy_stores)
      (run toy toy_stores (data_arrives local_face (data_for (1 ∷ []) []) ∷ []) idle).outputs
run-KeepsData_example =
    run-KeepsData toy toy_stores (data_arrives local_face (data_for (1 ∷ []) []) ∷ []) idle tt

localhost_escapes_example :
    (g : Face) × (g.is_local ≡ false)
    × (packets toy toy_stores
          (on_incoming_interest toy toy_stores local_face (interest_for (1 ∷ []) 31) idle).outputs
        ≡ send_interest g (record (interest_for (1 ∷ []) 31) { incoming_face_id = 256 }) ∷ [])
unfolding cs_lookup
localhost_escapes_example =
    localhost_escapes toy toy_stores local_face idle (interest_for (1 ∷ []) 31) refl refl refl
      (omega arith) refl refl refl
