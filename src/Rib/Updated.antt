-- ===== src/Rib/Updated.antt =====
-- The FIB updates for each kind of RIB update: rib/fib-updater.cpp from computeUpdates on.
-- `second_lowest` is the route that std::nth_element puts in the second place by cost, for a list of
-- at least two. No result stands for a null pointer that is followed.
use nfd_pitless.Base.{
  ℕ, suc, Bool, true, false, not, ◌&&◌, List, [], ◌∷◌, Option, none, some, if◌then◌else◌, ltb, leb,
  ◌==◌, max, length, copy_if,
}
use nfd_pitless.Ndn.{Ndn}
use nfd_pitless.Rib.{
  Route, RibEntry, compare_face_id_and_origin, compare_face_id, update_route, assign_route,
  same_flags, find_route, erase_route, has_capture, lowest_by_face_id, lowest_inherited_by_face_id,
  same_parent,
}
use nfd_pitless.Rib.Names.{NameOrder}
use nfd_pitless.Rib.Table.{find, find_parent}
use nfd_pitless.Rib.Updater.{
  register, unregister, remove_face, RibUpdate, Updates, create_add_update, create_remove_update,
  add_fib_update, inherit, add_inherited_routes, add_inherited_routes_to, remove_inherited_routes,
  traverse, ancestor_routes, insert_sorted, find_like, erase_like,
}

-- `p == nullptr || cost <= p->cost`
abbrev pub is_lowest : ℕ → Option Route → Bool
is_lowest cost none = true
is_lowest cost (some r) = leb cost r.cost

abbrev pub single : Bool → Route → List Route
single b route = if b then route ∷ [] else []

module _ (ndn : Ndn) (order : NameOrder ndn) (second_lowest : List Route → Option Route) where
  open ndn use {name_eq, size, is_prefix_of}

  -- The length of the longest name, which bounds the depth of the tree.
  abbrev pub tallest : List (RibEntry ndn) → ℕ
  tallest [] = 0
  tallest (e ∷ es) = max (size e.name) (tallest es)

  -- modifyChildrensInheritedRoutes
  unfoldable pub modify_children :
      List (RibEntry ndn)
      → List ndn.Name
      → List Route
      → List Route
      → Updates ndn order
      → Updates ndn order
  unfolding traverse
  modify_children table children to_add to_remove u =
      traverse ndn order (suc (tallest table)) table to_add to_remove children u

  -- getAncestorRoutes, for an entry and for a name.
  unfoldable pub ancestors_of : List (RibEntry ndn) → RibEntry ndn → List Route
  unfolding ancestor_routes
  ancestors_of table e = ancestor_routes ndn order (size e.name) table e.parent []

  unfoldable pub ancestors_of_name : List (RibEntry ndn) → ndn.Name → List Route
  unfolding ancestor_routes
  ancestors_of_name table name =
      ancestor_routes ndn order (size name) table (find_parent ndn order name table) []

  -- createFibUpdatesForNewRibEntry
  unfoldable pub for_new_rib_entry :
      List (RibEntry ndn) → ndn.Name → Route → List ndn.Name → Updates ndn order → Updates ndn order
  unfolding modify_children ancestors_of_name
  for_new_rib_entry table name route children u =
      let added =
        add_fib_update ndn order (create_add_update ndn order name route.face_id route.cost) u in
      let ancestors = ancestors_of_name table name in
      let replaced = insert_sorted route (erase_like route ancestors) in
      let with_ancestors = add_inherited_routes_to ndn order name route ancestors added in
      if not route.child_inherit && not route.capture
      then with_ancestors
      else if route.child_inherit && route.capture
      then modify_children table children (route ∷ []) ancestors added
      else if route.child_inherit
      then modify_children table children replaced [] with_ancestors
      else modify_children table children [] ancestors added

  -- createFibUpdatesForNewRoute
  unfoldable pub for_new_route :
      List (RibEntry ndn) → RibEntry ndn → Route → Bool → Updates ndn order → Updates ndn order
  unfolding modify_children ancestors_of
  for_new_route table e route capture_was_turned_on u =
      let to_add =
        single
          (route.child_inherit
            && is_lowest route.cost (lowest_inherited_by_face_id ndn route.face_id e))
          route in
      let to_remove = if capture_was_turned_on then ancestors_of table e else [] in
      let removed =
        if capture_was_turned_on then remove_inherited_routes ndn order e to_remove u else u in
      let modified = modify_children table e.children to_add to_remove removed in
      if is_lowest route.cost (lowest_by_face_id ndn route.face_id e)
      then add_fib_update ndn order (create_add_update ndn order e.name route.face_id route.cost)
          modified
      else modified

  -- createFibUpdatesForUpdatedRoute, from the flags on: first child inherit, then capture.
  unfoldable pub for_child_inherit :
      List (RibEntry ndn) → RibEntry ndn → Route → Route → Updates ndn order → Updates ndn order
  unfolding modify_children ancestors_of
  for_child_inherit table e route existing u =
      let prev = lowest_inherited_by_face_id ndn route.face_id e in
      let instead : List Route = elim prev [
        | some p ↦ p ∷ []
        | none ↦ elim (find_like route (ancestors_of table e)) [ none ↦ [] | some a ↦ a ∷ [] ]
      ] in
      if not existing.child_inherit && route.child_inherit
      then if is_lowest route.cost prev
        then modify_children table e.children (route ∷ []) [] u
        else u
      else if existing.child_inherit && not route.child_inherit
      then modify_children table e.children instead (route ∷ []) u
      else u

  unfoldable pub for_capture :
      List (RibEntry ndn) → RibEntry ndn → Route → Route → Updates ndn order → Updates ndn order
  unfolding modify_children ancestors_of
  for_capture table e route existing u =
      let ancestors = ancestors_of table e in
      if not existing.capture && route.capture
      then modify_children table e.children [] ancestors
          (remove_inherited_routes ndn order e ancestors u)
      else if existing.capture && not route.capture
      then modify_children table e.children ancestors []
          (add_inherited_routes ndn order e ancestors u)
      else u

  -- The update of the entry itself where the cost changed. `*prevRoute` is followed unasked.
  unfoldable pub for_cost :
      RibEntry ndn → Route → Route → Updates ndn order → Option (Updates ndn order)
  for_cost e route existing u =
      let own = some (
        add_fib_update ndn order (create_add_update ndn order e.name route.face_id route.cost) u) in
      elim (lowest_by_face_id ndn route.face_id e) [
        | none ↦ none
        | some low ↦
            if leb route.cost low.cost
            then own
            else if ltb existing.cost low.cost
            then elim (lowest_inherited_by_face_id ndn route.face_id e) [
              | none ↦ none
              | some prev ↦ some (
                  add_fib_update ndn order
                    (create_add_update ndn order e.name prev.face_id prev.cost) u)
            ]
            else some u
      ]

  abbrev pub for_flags :
      List (RibEntry ndn) → RibEntry ndn → Route → Route → Updates ndn order → Updates ndn order
  for_flags table e route existing u =
      for_capture table e route existing (for_child_inherit table e route existing u)

  -- createFibUpdatesForUpdatedRoute; the entry has the route as it will be.
  unfoldable pub for_updated_route :
      List (RibEntry ndn)
      → RibEntry ndn
      → Route
      → Route
      → Updates ndn order
      → Option (Updates ndn order)
  unfolding for_child_inherit for_capture for_cost
  for_updated_route table e route existing u =
      let cost_did_change = not (route.cost == existing.cost) in
      let inherited = is_lowest route.cost (lowest_inherited_by_face_id ndn route.face_id e) in
      if same_flags route existing && not cost_did_change
      then some u
      else if cost_did_change
      then elim (for_cost e route existing u) [
        | none ↦ none
        | some costed ↦ some (
            if inherited && (same_flags route existing && route.child_inherit)
            then modify_children table e.children (route ∷ []) [] costed
            else for_flags table e route existing costed)
      ]
      else some (for_flags table e route existing u)

  -- createFibUpdatesForErasedRoute; the entry has lost the route.
  unfoldable pub for_erased_route :
      List (RibEntry ndn) → RibEntry ndn → Route → Bool → Updates ndn order → Updates ndn order
  unfolding modify_children ancestors_of
  for_erased_route table e route capture_was_turned_off u =
      let removed =
        add_fib_update ndn order (create_remove_update ndn order e.name route.face_id) u in
      let ancestors = ancestors_of table e in
      let blocked = if capture_was_turned_off then ancestors else [] in
      let unblocked = add_inherited_routes ndn order e blocked removed in
      let unless_capture = if has_capture ndn e then [] else ancestors in
      let modified =
        if route.child_inherit && route.capture
        then modify_children table e.children blocked (route ∷ []) unblocked
        else if route.child_inherit
        then modify_children table e.children unless_capture (route ∷ []) removed
        else if route.capture
        then modify_children table e.children blocked [] unblocked
        else removed in
      if not (has_capture ndn e) && not (length e.routes == 0)
      then elim (find_like route ancestors) [
        | none ↦ modified
        | some a ↦ inherit ndn order e.name a modified
      ]
      else modified

  -- createFibUpdatesForErasedRibEntry
  unfoldable pub for_erased_rib_entry :
      ndn.Name → List Route → Updates ndn order → Updates ndn order
  for_erased_rib_entry name [] u = u
  for_erased_rib_entry name (r ∷ rs) u =
      for_erased_rib_entry name rs
        (add_fib_update ndn order (create_remove_update ndn order name r.face_id) u)

  -- getRouteWithSecondLowestCostByFaceId. The code returns a pointer into a vector of its own, which is
  -- freed on return; the model returns the route that the pointer led to.
  unfoldable pub second_by_face_id : ℕ → RibEntry ndn → Option Route
  second_by_face_id face_id e =
      let matches = copy_if (compare_face_id face_id) e.routes in
      if ltb (length matches) 2 then none else second_lowest matches

  -- The children that a new name would get.
  abbrev pub children_of_new : Option ndn.Name → ndn.Name → List (RibEntry ndn) → List ndn.Name
  children_of_new parent prefix [] = []
  children_of_new parent prefix (e ∷ es) =
      if is_prefix_of prefix e.name && same_parent ndn e.parent parent
      then e.name ∷ children_of_new parent prefix es
      else children_of_new parent prefix es

  -- computeUpdatesForRegistration
  unfoldable pub for_registration :
      List (RibEntry ndn) → ndn.Name → Route → Updates ndn order → Option (Updates ndn order)
  unfolding for_new_rib_entry for_new_route for_updated_route
  for_registration table prefix route u = elim (find ndn order prefix table) [
    | none ↦ some (
        for_new_rib_entry table prefix route
          (children_of_new (find_parent ndn order prefix table) prefix table) u)
    | some e ↦ elim (find_route ndn route e) [
      | none ↦ some (for_new_route table e route (not (has_capture ndn e) && route.capture) u)
      | some existing ↦
          let copy : RibEntry ndn = record e {
            routes =
                assign_route (λ r. compare_face_id_and_origin r route) (update_route route)
                  e.routes;
          } in
          for_updated_route table copy route existing u
    ]
  ]

  -- computeUpdatesForUnregistration
  unfoldable pub for_unregistration :
      List (RibEntry ndn) → ndn.Name → Route → Updates ndn order → Updates ndn order
  unfolding for_erased_route for_erased_rib_entry second_by_face_id for_new_route
  for_unregistration table prefix route u = elim (find ndn order prefix table) [
    | none ↦ u
    | some e ↦ elim (find_route ndn route e) [
      | none ↦ u
      | some existing ↦
          let temp = erase_route ndn route e in
          let erased =
            for_erased_route table temp existing (has_capture ndn e && not (has_capture ndn temp))
              u in
          let renewed : Updates ndn order = elim (second_by_face_id route.face_id e) [
            | none ↦ erased
            | some next ↦ for_new_route table temp next false erased
          ] in
          if length e.routes == 1
          then for_erased_rib_entry e.name e.inherited_routes renewed
          else renewed
    ]
  ]

  -- computeUpdates for a batch, which has one update, from FibUpdater::computeAndSendFibUpdates.
  unfoldable pub compute_updates :
      List (RibEntry ndn) → RibUpdate ndn order → Option (Updates ndn order)
  unfolding for_registration for_unregistration
  compute_updates table update =
      let start : Updates ndn order = record {
        batch_face_id = update.route.face_id;
        for_batch_face_id = [];
        for_non_batch_face_id = [];
        inherited_routes = [];
      } in
      elim update.action [
        | register ↦ for_registration table update.name update.route start
        | unregister ↦ some (for_unregistration table update.name update.route start)
        | remove_face ↦ some (record (for_unregistration table update.name update.route start) {
          for_batch_face_id = [];
        })
      ]
