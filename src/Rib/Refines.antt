-- ===== src/Rib/Refines.antt =====
-- The RIB of rib/rib.cpp against a map from names to lists of routes, over any sequence of calls.
use nfd_pitless.Base.{◌≡◌, ◌∙◌, refl, List, [], ◌∷◌, if◌then◌else◌}
use nfd_pitless.Ndn.{Ndn}
use nfd_pitless.Rib.{Route}
use nfd_pitless.Rib.Names.{NameOrder}
use nfd_pitless.Rib.Table.{Rib, insert, erase}
use nfd_pitless.Rib.Changes.{with_route, without_route, routes_at, IsValid}
use nfd_pitless.Rib.Inserted.{insert-Changes}
use nfd_pitless.Rib.Erased.{erase-Changes}

module _ (ndn : Ndn) (order : NameOrder ndn) where
  pub data Call : Type 0 where
    insert_call erase_call : ndn.Name → Route → Call

  unfoldable pub run : List Call → Rib ndn order → Rib ndn order
  run [] rib = rib
  run (insert_call p route ∷ calls) rib = run calls (insert ndn order p route rib)
  run (erase_call p route ∷ calls) rib = run calls (erase ndn order p route rib)

  -- The same calls on a map from names to routes.
  unfoldable pub replay : List Call → (ndn.Name → List Route) → ndn.Name → List Route
  replay [] f = f
  replay (insert_call p route ∷ calls) f =
      replay calls (λ q. if ndn.name_eq p q then with_route route (f p) else f q)
  replay (erase_call p route ∷ calls) f =
      replay calls (λ q. if ndn.name_eq p q then without_route route (f p) else f q)

  run_from :
      (calls : List Call) (rib : Rib ndn order) (f : ndn.Name → List Route)
      → IsValid ndn order rib
      → ((q : ndn.Name) → routes_at ndn order q rib ≡ f q)
      → IsValid ndn order (run calls rib)
        × ((q : ndn.Name) → routes_at ndn order q (run calls rib) ≡ replay calls f q)
  unfolding run replay
  run_from [] rib f valid same = (valid, same)
  run_from (insert_call p route ∷ calls) rib f valid same =
      let c = insert-Changes ndn order p route rib valid in
      run_from calls (insert ndn order p route rib) _ c.valid
        (λ q. c.reads q ∙ rw (same p) (rw (same q) refl))
  run_from (erase_call p route ∷ calls) rib f valid same =
      let c = erase-Changes ndn order p route rib valid in
      run_from calls (erase ndn order p route rib) _ c.valid
        (λ q. c.reads q ∙ rw (same p) (rw (same q) refl))

  abbrev pub empty_rib : Rib ndn order
  empty_rib = record { table = []; face_map = []; n_items = 0 }

  -- After any insertions and erasures from the empty RIB on, each name has one entry, the number of
  -- items is that of the routes of all entries, and the routes of each name are those of a map in
  -- which a registration replaces the route of the same face and origin, or appends, and an
  -- unregistration removes it.
  pub run_refines :
      (calls : List Call)
      → IsValid ndn order (run calls empty_rib)
        × ((q : ndn.Name) → routes_at ndn order q (run calls empty_rib) ≡ replay calls (λ q. []) q)
  run_refines calls =
      run_from calls empty_rib (λ q. []) (record { distinct = tt; counted = refl }) (λ q. refl)
