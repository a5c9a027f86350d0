-- ===== src/Rib/NullRoute.antt =====
-- A dearer route of a face that has a cheaper one, in rib/fib-updater.cpp.
use nfd_pitless.Base.{
  ℕ, ◌<◌, ◌≡◌, ◌⊎◌, refl, true, false, [], ◌∷◌, ==-refl, ◌&&◌, List, Option, none, some, arith, leb,
  ltb, ◌==◌, Bool-cases, inl, inr,
}
use nfd_pitless.Ndn.{Ndn}
use nfd_pitless.Rib.{
  Route, RibEntry, compare_face_id_and_origin, assign_route, update_route, same_flags, find_route,
  lowest_by_face_id, lowest_inherited_by_face_id,
}
use nfd_pitless.Rib.Names.{NameOrder}
use nfd_pitless.Rib.Table.{find}
use nfd_pitless.Rib.Updater.{register}
use nfd_pitless.Rib.FaceLost.{plain}
use nfd_pitless.Rib.Updated.{compute_updates, for_registration, for_updated_route, for_cost}

module _ (ndn : Ndn) (order : NameOrder ndn) (second_lowest : List Route → Option Route) where
  -- The branch of createFibUpdatesForUpdatedRoute that follows the pointer.
  follows_null :
      (table : List (RibEntry ndn)) (prefix : ndn.Name) (route : Route) (e : RibEntry ndn)
      (existing low : Route)
      → find ndn order prefix table ≡ some e
      → find_route ndn route e ≡ some existing
      → lowest_by_face_id ndn route.face_id (record e {
        routes =
            assign_route (λ r. compare_face_id_and_origin r route) (update_route route) e.routes;
      })
        ≡ some low
      → lowest_inherited_by_face_id ndn route.face_id (record e {
        routes =
            assign_route (λ r. compare_face_id_and_origin r route) (update_route route) e.routes;
      })
        ≡ none
      → leb route.cost low.cost ≡ false
      → ltb existing.cost low.cost ≡ true
      → compute_updates ndn order second_lowest table
          (record { action = register; name = prefix; route = route })
        ≡ none
  unfolding compute_updates for_registration for_updated_route for_cost
  follows_null table prefix route e existing low found old lowest no_inherited dearer cheaper =
      let differs : (route.cost == existing.cost) ≡ false = ground arith in
      let changed : (same_flags route existing && false) ≡ false =
        elim (Bool-cases (same_flags route existing)) [ inl h ↦ rw h refl | inr h ↦ rw h refl ] in
      rw (found, for_registration)
        (rw old (
          rw (differs, for_updated_route)
            (rw changed (rw (lowest, for_cost) (rw dearer (rw cheaper (rw no_inherited refl)))))))

  -- In any RIB a name has two routes of one face and no others, in either order, without flags, of
  -- different origins, and that do not expire. When the cheaper one is registered again at a cost
  -- above the other's, the FIB updates are not computed, but a null pointer is followed.
  pub null_route :
      (table : List (RibEntry ndn)) (name : ndn.Name) (e : RibEntry ndn)
      (face_id origin origin' cost cost' cost'' : ℕ)
      → find ndn order name table ≡ some e
      → (e.routes ≡ plain face_id origin cost ∷ plain face_id origin' cost' ∷ [])
        ⊎ (e.routes ≡ plain face_id origin' cost' ∷ plain face_id origin cost ∷ [])
      → (origin == origin') ≡ false
      → cost < cost'
      → cost' < cost''
      → compute_updates ndn order second_lowest table
          (record { action = register; name = name; route = plain face_id origin cost'' })
        ≡ none
  unfolding lowest_by_face_id lowest_inherited_by_face_id
  null_route table name e f o o' c c' c'' found (inl h) other cheaper dearer =
      let different : (o' == o) ≡ false = ground arith in
      follows_null table name (plain f o c'') e (plain f o c) (plain f o' c') found
        (rw h (rw (==-refl f) (rw (==-refl o) refl)))
        (rw h (rw (==-refl f) (rw (==-refl o) (ground arith))))
        (rw h (rw (==-refl f) (rw (==-refl o) (rw (==-refl f) refl)))) (ground arith) (ground arith)
  null_route table name e f o o' c c' c'' found (inr h) other cheaper dearer =
      let different : (o' == o) ≡ false = ground arith in
      follows_null table name (plain f o c'') e (plain f o c) (plain f o' c') found
        (rw h (rw (==-refl f) (rw different (rw (==-refl o) refl))))
        (rw h (rw (==-refl f) (rw different (rw (==-refl o) (ground arith)))))
        (rw h (rw (==-refl f) (rw different (rw (==-refl o) (rw (==-refl f) refl))))) (ground arith)
        (ground arith)
