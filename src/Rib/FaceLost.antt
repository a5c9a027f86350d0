-- ===== src/Rib/FaceLost.antt =====
-- The removal of the dearer of two routes of a face, in rib/fib-updater.cpp.
use nfd_pitless.Base.{
  ℕ, zero, suc, ◌≡◌, ◌∙◌, ◌⊎◌, refl, sym, ap, inl, inr, Bool, false, not, ◌&&◌, List, [], ◌∷◌,
  Option, none, some, leb, ◌==◌, ==-refl, length,
}
use nfd_pitless.Ndn.{Ndn}
use nfd_pitless.Rib.{Route, RibEntry, find_route, erase_route, has_capture, lowest_by_face_id}
use nfd_pitless.Rib.Names.{NameOrder}
use nfd_pitless.Rib.Table.{find}
use nfd_pitless.Rib.Updater.{
  unregister, Updates, create_remove_update, ancestor_routes, add_fib_update, traverse,
}
use nfd_pitless.Rib.Updated.{
  compute_updates, ancestors_of, for_unregistration, for_erased_route, for_new_route,
  second_by_face_id, modify_children,
}

-- A route without flags that does not expire.
abbrev pub plain : ℕ → ℕ → ℕ → Route
plain face_id origin cost = record {
  face_id = face_id;
  origin = origin;
  child_inherit = false;
  capture = false;
  other_flags = 0;
  cost = cost;
  expires = 0;
  expiration_event = none;
}

module _ (ndn : Ndn) (order : NameOrder ndn) (second_lowest : List Route → Option Route) where
  no_ancestors :
      (fuel : ℕ) (table : List (RibEntry ndn)) (set : List Route)
      → ancestor_routes ndn order fuel table none set ≡ set
  unfolding ancestor_routes
  no_ancestors zero table set = refl
  no_ancestors (suc fuel) table set = refl

  -- An entry without parent, children and inherited routes.
  abbrev pub lone : ndn.Name → List Route → RibEntry ndn
  lone name routes = record {
    name = name;
    children = [];
    parent = none;
    routes = routes;
    inherited_routes = [];
    n_routes_with_capture_set = 0;
  }

  alone-ancestors_of :
      (table : List (RibEntry ndn)) (name : ndn.Name) (rs : List Route)
      → ancestors_of ndn order second_lowest table (lone name rs) ≡ []
  unfolding ancestors_of
  alone-ancestors_of table name rs = no_ancestors (ndn.size name) table []

  erased_flagless :
      (table : List (RibEntry ndn)) (name : ndn.Name) (f o c : ℕ) (low : Route) (b : Bool)
      (u : Updates ndn order)
      → for_erased_route ndn order second_lowest table (lone name (low ∷ [])) (plain f o c) b u
        ≡ add_fib_update ndn order (create_remove_update ndn order name f) u
  unfolding for_erased_route
  erased_flagless table name f o c low b u =
      rw (alone-ancestors_of table name (low ∷ []), for_erased_route) refl

  renewed_dearer :
      (table : List (RibEntry ndn)) (name : ndn.Name) (f o o' c d : ℕ) (u : Updates ndn order)
      → leb d c ≡ false
      → for_new_route ndn order second_lowest table
          (lone name (plain f o c ∷ []))
          (plain f o' d)
          false
          u
        ≡ u
  unfolding for_new_route lowest_by_face_id modify_children traverse
  renewed_dearer table name f o o' c d u dearer =
      let lowest : lowest_by_face_id ndn f (lone name (plain f o c ∷ [])) ≡ some (plain f o c) =
        rw (==-refl f, lowest_by_face_id) refl in
      rw (lowest, for_new_route) (rw dearer refl)

  -- The updates for an entry that has lost a route, `next` being the second cheapest before.
  abbrev with_temp :
      List (RibEntry ndn)
      → Route
      → Route
      → Bool
      → Updates ndn order
      → RibEntry ndn
      → Updates ndn order
  with_temp table existing next had_capture u temp =
      for_new_route ndn order second_lowest table temp next false (
        for_erased_route ndn order second_lowest table temp existing
          (had_capture && not (has_capture ndn temp)) u)

  unregistered :
      (table : List (RibEntry ndn)) (prefix : ndn.Name) (route : Route) (u : Updates ndn order)
      (e : RibEntry ndn) (existing next : Route)
      → find ndn order prefix table ≡ some e
      → find_route ndn route e ≡ some existing
      → second_by_face_id ndn order second_lowest route.face_id e ≡ some next
      → (length e.routes == 1) ≡ false
      → for_unregistration ndn order second_lowest table prefix route u
        ≡ with_temp table existing next (has_capture ndn e) u (erase_route ndn route e)
  unfolding for_unregistration
  unregistered table prefix route u e existing next found old second more =
      rw (found, for_unregistration) (rw old (rw second (rw more refl)))

  -- The updates for an entry of two routes without flags, of which the dearer goes.
  without_dearer :
      (table : List (RibEntry ndn)) (name : ndn.Name) (f o o' c d : ℕ) (e : RibEntry ndn)
      → find ndn order name table ≡ some e
      → find_route ndn (plain f o' d) e ≡ some (plain f o' d)
      → second_by_face_id ndn order second_lowest f e ≡ some (plain f o' d)
      → (length e.routes == 1) ≡ false
      → has_capture ndn e ≡ false
      → erase_route ndn (plain f o' d) e ≡ lone name (plain f o c ∷ [])
      → leb d c ≡ false
      → compute_updates ndn order second_lowest table
          (record { action = unregister; name = name; route = plain f o' d })
        ≡ some (record {
          batch_face_id = f;
          for_batch_face_id = create_remove_update ndn order name f ∷ [];
          for_non_batch_face_id = [];
          inherited_routes = [];
        })
  unfolding compute_updates add_fib_update
  without_dearer table name f o o' c d e found old next more uncaptured temp dearer =
      let low = plain f o c in
      let high = plain f o' d in
      let start : Updates ndn order = record {
        batch_face_id = f;
        for_batch_face_id = [];
        for_non_batch_face_id = [];
        inherited_routes = [];
      } in
      let added : add_fib_update ndn order (create_remove_update ndn order name f) start
          ≡ record start { for_batch_face_id = create_remove_update ndn order name f ∷ [] } =
        rw (==-refl f, add_fib_update) refl in
      ap some (
        unregistered table name high start e high high found old next more
        ∙ ap (λ b. with_temp table high high b start (erase_route ndn high e)) uncaptured
        ∙ ap (with_temp table high high false start) temp
        ∙ ap (for_new_route ndn order second_lowest table (lone name (low ∷ [])) high false)
            (erased_flagless table name f o' d low false start)
        ∙ renewed_dearer table name f o o' c d _ dearer
        ∙ added)

  -- In any RIB a name that has no parent and children has two routes of one face, in either order,
  -- without flags, of different origins, and that do not expire, and no inherited routes. The
  -- pointer that getRouteWithSecondLowestCostByFaceId returns into its own vector, freed by then, is
  -- taken to still lead to the dearer route. When the dearer route is unregistered, the only FIB
  -- update removes the face from the name, although the cheaper route stays.
  pub face_lost :
      (table : List (RibEntry ndn)) (name : ndn.Name) (routes : List Route)
      (face_id origin origin' cost cost' : ℕ)
      → find ndn order name table ≡ some (lone name routes)
      → (routes ≡ plain face_id origin cost ∷ plain face_id origin' cost' ∷ [])
        ⊎ (routes ≡ plain face_id origin' cost' ∷ plain face_id origin cost ∷ [])
      → (origin == origin') ≡ false
      → leb cost' cost ≡ false
      → second_lowest routes ≡ some (plain face_id origin' cost')
      → compute_updates ndn order second_lowest table
          (record { action = unregister; name = name; route = plain face_id origin' cost' })
        ≡ some (record {
          batch_face_id = face_id;
          for_batch_face_id = create_remove_update ndn order name face_id ∷ [];
          for_non_batch_face_id = [];
          inherited_routes = [];
        })
  unfolding second_by_face_id erase_route
  face_lost table name routes f o o' c d found (inl h) other dearer second =
      let low = plain f o c in
      let high = plain f o' d in
      let e = lone name (low ∷ high ∷ []) in
      let old : find_route ndn high e ≡ some high =
        rw (==-refl f) (rw other (rw (==-refl o') refl)) in
      let temp : erase_route ndn high e ≡ lone name (low ∷ []) =
        rw (old, erase_route) (rw (==-refl f) (rw other (rw (==-refl o') refl))) in
      let next : second_by_face_id ndn order second_lowest f e ≡ some high =
        rw (==-refl f, second_by_face_id) (ap second_lowest (sym h) ∙ second) in
      without_dearer table name f o o' c d e (found ∙ ap (λ l. some (lone name l)) h) old next refl
        refl temp dearer
  face_lost table name routes f o o' c d found (inr h) other dearer second =
      let low = plain f o c in
      let high = plain f o' d in
      let e = lone name (high ∷ low ∷ []) in
      let old : find_route ndn high e ≡ some high = rw (==-refl f) (rw (==-refl o') refl) in
      let temp : erase_route ndn high e ≡ lone name (low ∷ []) =
        rw (old, erase_route) (rw (==-refl f) (rw (==-refl o') refl)) in
      let next : second_by_face_id ndn order second_lowest f e ≡ some high =
        rw (==-refl f, second_by_face_id) (ap second_lowest (sym h) ∙ second) in
      without_dearer table name f o o' c d e (found ∙ ap (λ l. some (lone name l)) h) old next refl
        refl temp dearer
