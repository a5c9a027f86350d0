-- ===== src/Rib/Computed.antt =====
-- What every computation of rib/fib-updater.cpp keeps of its update lists.
use nfd_pitless.Base.{
  ◌≡◌, refl, Bool, false, not, ◌&&◌, List, [], ◌∷◌, Option, none, some, if◌then◌else◌, if_keeps,
  ◌==◌, ltb, leb, Option-cases, inl, inr, ◌⊎◌, subst,
}
use nfd_pitless.Ndn.{Ndn}
use nfd_pitless.Rib.{
  Route, RibEntry, same_flags, find_route, erase_route, has_capture, lowest_by_face_id,
  lowest_inherited_by_face_id,
}
use nfd_pitless.Rib.Names.{NameOrder}
use nfd_pitless.Rib.Table.{find, find_parent}
use nfd_pitless.Rib.Updater.{
  RibAction, register, unregister, remove_face, FibUpdate, RibUpdate, Updates, create_add_update,
  create_remove_update, add_fib_update, note_inherited, inherit, insert_sorted, find_like,
  erase_like,
}
use nfd_pitless.Rib.Updated
use nfd_pitless.Rib.Walks.{
  inherit_keeps, add_inherited_keeps, add_inherited_to_keeps, remove_inherited_keeps,
  modify_children_keeps,
}

-- A predicate that adding a FIB update and noting an inherited route keep is kept by every computation.
module _ (ndn : Ndn) (order : NameOrder ndn) (second_lowest : List Route → Option Route)
    (P : Updates ndn order → Type 0)
    (adds : (f : FibUpdate ndn order) (u : Updates ndn order)
      → P u
      → P (add_fib_update ndn order f u))
    (notes : (a : RibAction) (n : ndn.Name) (r : Route) (u : Updates ndn order)
      → P u
      → P (note_inherited ndn order a n r u)) where
  new_rib_entry_keeps :
      (table : List (RibEntry ndn)) (name : ndn.Name) (route : Route) (children : List ndn.Name)
      (u : Updates ndn order)
      → P u
      → P (Updated.for_new_rib_entry ndn order second_lowest table name route children u)
  unfolding Updated.for_new_rib_entry
  new_rib_entry_keeps table name route children u h =
      let added = adds (create_add_update ndn order name route.face_id route.cost) u h in
      let ancestors = Updated.ancestors_of_name ndn order second_lowest table name in
      let inherited =
        add_inherited_to_keeps ndn order second_lowest P adds notes name route ancestors _ added in
      if_keeps P _ _ _ inherited (
        if_keeps P _ _ _
          (modify_children_keeps ndn order second_lowest P adds notes table children (route ∷ [])
            ancestors _ added)
          (if_keeps P _ _ _
            (modify_children_keeps ndn order second_lowest P adds notes table children
              (insert_sorted route (erase_like route ancestors)) [] _ inherited)
            (modify_children_keeps ndn order second_lowest P adds notes table children [] ancestors
              _ added)))

  new_route_keeps :
      (table : List (RibEntry ndn)) (e : RibEntry ndn) (route : Route) (b : Bool)
      (u : Updates ndn order)
      → P u
      → P (Updated.for_new_route ndn order second_lowest table e route b u)
  unfolding Updated.for_new_route
  new_route_keeps table e route b u h =
      let removed =
        if_keeps P b _ u
          (remove_inherited_keeps ndn order second_lowest P adds notes e
            (if b then Updated.ancestors_of ndn order second_lowest table e else []) u h)
          h in
      let modified =
        modify_children_keeps ndn order second_lowest P adds notes table e.children _ _ _ removed in
      if_keeps P _ _ _ (adds _ _ modified) modified

  child_inherit_keeps :
      (table : List (RibEntry ndn)) (e : RibEntry ndn) (route existing : Route)
      (u : Updates ndn order)
      → P u
      → P (Updated.for_child_inherit ndn order second_lowest table e route existing u)
  unfolding Updated.for_child_inherit
  child_inherit_keeps table e route existing u h =
      if_keeps P _ _ _
        (if_keeps P _ _ _
          (modify_children_keeps ndn order second_lowest P adds notes table e.children (route ∷ [])
            [] u h)
          h)
        (if_keeps P _ _ _
          (modify_children_keeps ndn order second_lowest P adds notes table e.children _
            (route ∷ []) u h)
          h)

  capture_keeps :
      (table : List (RibEntry ndn)) (e : RibEntry ndn) (route existing : Route)
      (u : Updates ndn order)
      → P u
      → P (Updated.for_capture ndn order second_lowest table e route existing u)
  unfolding Updated.for_capture
  capture_keeps table e route existing u h =
      let ancestors = Updated.ancestors_of ndn order second_lowest table e in
      if_keeps P _ _ _
        (modify_children_keeps ndn order second_lowest P adds notes table e.children [] ancestors _
          (remove_inherited_keeps ndn order second_lowest P adds notes e ancestors u h))
        (if_keeps P _ _ _
          (modify_children_keeps ndn order second_lowest P adds notes table e.children ancestors []
            _ (add_inherited_keeps ndn order second_lowest P adds notes e ancestors u h))
          h)

  erased_route_keeps :
      (table : List (RibEntry ndn)) (e : RibEntry ndn) (route : Route) (b : Bool)
      (u : Updates ndn order)
      → P u
      → P (Updated.for_erased_route ndn order second_lowest table e route b u)
  unfolding Updated.for_erased_route
  erased_route_keeps table e route b u h =
      let ancestors = Updated.ancestors_of ndn order second_lowest table e in
      let removed = adds (create_remove_update ndn order e.name route.face_id) u h in
      let blocked = if b then ancestors else [] in
      let unblocked =
        add_inherited_keeps ndn order second_lowest P adds notes e blocked _ removed in
      let modified =
        if_keeps P _ _ _
          (modify_children_keeps ndn order second_lowest P adds notes table e.children blocked
            (route ∷ []) _ unblocked)
          (if_keeps P _ _ _
            (modify_children_keeps ndn order second_lowest P adds notes table e.children
              (if has_capture ndn e then [] else ancestors) (route ∷ []) _ removed)
            (if_keeps P _ _ _
              (modify_children_keeps ndn order second_lowest P adds notes table e.children blocked
                [] _ unblocked)
              removed)) in
      if_keeps P _ _ _ (found (find_like route ancestors) _ modified) modified
    where
      found :
          (o : Option Route) (v : Updates ndn order)
          → P v
          → P (elim o as (λ _. Updates ndn order) [
            | none ↦ v
            | some a ↦ inherit ndn order e.name a v
          ])
      found none v hv = hv
      found (some a) v hv = inherit_keeps ndn order second_lowest P adds notes e.name a v hv

  erased_entry_keeps :
      (name : ndn.Name) (rs : List Route) (u : Updates ndn order)
      → P u
      → P (Updated.for_erased_rib_entry ndn order second_lowest name rs u)
  unfolding Updated.for_erased_rib_entry
  erased_entry_keeps name [] u h = h
  erased_entry_keeps name (r ∷ rs) u h = erased_entry_keeps name rs _ (adds _ u h)

  -- A result, where there is one, is kept.
  abbrev pub Kept : Option (Updates ndn order) → Type 0
  Kept none = Unit {0}
  Kept (some u) = P u

  cost_keeps :
      (e : RibEntry ndn) (route existing : Route) (u : Updates ndn order)
      → P u
      → Kept (Updated.for_cost ndn order second_lowest e route existing u)
  unfolding Updated.for_cost
  cost_keeps e route existing u h = elim (Option-cases (lowest_by_face_id ndn route.face_id e)) [
    | inl nothing ↦ rw (nothing, Updated.for_cost) tt
    | inr (low, found) ↦
        rw (found, Updated.for_cost)
          (if_keeps Kept (leb route.cost low.cost) _ _ (adds _ u h) (
            if_keeps Kept (ltb existing.cost low.cost) _ _
              (previous (lowest_inherited_by_face_id ndn route.face_id e)) h))
  ]
    where
      previous :
          (o : Option Route)
          → Kept (elim o as (λ _. Option (Updates ndn order)) [
            | none ↦ none
            | some prev ↦ some (
                add_fib_update ndn order
                  (create_add_update ndn order e.name prev.face_id prev.cost)
                  u)
          ])
      previous none = tt
      previous (some prev) = adds _ u h

  updated_route_keeps :
      (table : List (RibEntry ndn)) (e : RibEntry ndn) (route existing : Route)
      (u : Updates ndn order)
      → P u
      → Kept (Updated.for_updated_route ndn order second_lowest table e route existing u)
  unfolding Updated.for_updated_route
  updated_route_keeps table e route existing u h =
      if_keeps Kept (same_flags route existing && not (not (route.cost == existing.cost))) (some u)
        (if not (route.cost == existing.cost)
          then with_cost (Updated.for_cost ndn order second_lowest e route existing u)
          else some (Updated.for_flags ndn order second_lowest table e route existing u))
        h
        (if_keeps Kept (not (route.cost == existing.cost))
          (with_cost (Updated.for_cost ndn order second_lowest e route existing u))
          (some (Updated.for_flags ndn order second_lowest table e route existing u))
          (costed (Updated.for_cost ndn order second_lowest e route existing u)
            (cost_keeps e route existing u h))
          (flagged u h))
    where
      flagged :
          (v : Updates ndn order)
          → P v
          → P (Updated.for_flags ndn order second_lowest table e route existing v)
      flagged v hv =
          capture_keeps table e route existing _ (child_inherit_keeps table e route existing v hv)

      with_cost : Option (Updates ndn order) → Option (Updates ndn order)
      with_cost o = elim o as (λ _. Option (Updates ndn order)) [
        | none ↦ none
        | some v ↦ some (
            if Updated.is_lowest route.cost (lowest_inherited_by_face_id ndn route.face_id e)
              && (same_flags route existing && route.child_inherit)
            then Updated.modify_children ndn order second_lowest table e.children (route ∷ []) [] v
            else Updated.for_flags ndn order second_lowest table e route existing v)
      ]

      costed : (o : Option (Updates ndn order)) → Kept o → Kept (with_cost o)
      costed none hv = tt
      costed (some v) hv =
          if_keeps P _ _ _
            (modify_children_keeps ndn order second_lowest P adds notes table e.children
              (route ∷ []) [] v hv)
            (flagged v hv)

  registration_keeps :
      (table : List (RibEntry ndn)) (prefix : ndn.Name) (route : Route) (u : Updates ndn order)
      → P u
      → Kept (Updated.for_registration ndn order second_lowest table prefix route u)
  unfolding Updated.for_registration
  registration_keeps table prefix route u h = elim (Option-cases (find ndn order prefix table)) [
    | inl missing ↦
        rw (missing, Updated.for_registration)
          (new_rib_entry_keeps table prefix route
            (Updated.children_of_new ndn order second_lowest (find_parent ndn order prefix table)
              prefix table)
            u h)
    | inr (e, found) ↦ elim (Option-cases (find_route ndn route e)) [
      | inl fresh ↦
          rw (found, Updated.for_registration) (rw fresh (new_route_keeps table e route _ u h))
      | inr (existing, old) ↦
          rw (found, Updated.for_registration)
            (rw old (updated_route_keeps table _ route existing u h))
    ]
  ]

  unregistration_keeps :
      (table : List (RibEntry ndn)) (prefix : ndn.Name) (route : Route) (u : Updates ndn order)
      → P u
      → P (Updated.for_unregistration ndn order second_lowest table prefix route u)
  unfolding Updated.for_unregistration
  unregistration_keeps table prefix route u h = elim (Option-cases (find ndn order prefix table)) [
    | inl missing ↦ rw (missing, Updated.for_unregistration) h
    | inr (e, found) ↦ elim (Option-cases (find_route ndn route e)) [
      | inl fresh ↦ rw (found, Updated.for_unregistration) (rw fresh h)
      | inr (existing, old) ↦
          let temp = erase_route ndn route e in
          let erased =
            erased_route_keeps table temp existing (has_capture ndn e && not (has_capture ndn temp))
              u h in
          let again =
            renewed temp (Updated.second_by_face_id ndn order second_lowest route.face_id e) _
              erased in
          rw (found, Updated.for_unregistration)
            (rw old (if_keeps P _ _ _ (erased_entry_keeps e.name e.inherited_routes _ again) again))
    ]
  ]
    where
      renewed :
          (temp : RibEntry ndn) (o : Option Route) (v : Updates ndn order)
          → P v
          → P (elim o as (λ _. Updates ndn order) [
            | none ↦ v
            | some next ↦ Updated.for_new_route ndn order second_lowest table temp next false v
          ])
      renewed temp none v hv = hv
      renewed temp (some next) v hv = new_route_keeps table temp next false v hv

  computed_keeps :
      (table : List (RibEntry ndn)) (update : RibUpdate ndn order)
      → P (record {
        batch_face_id = update.route.face_id;
        for_batch_face_id = [];
        for_non_batch_face_id = [];
        inherited_routes = [];
      })
      → ((u : Updates ndn order) → P u → P (record u { for_batch_face_id = [] }))
      → Kept (Updated.compute_updates ndn order second_lowest table update)
  unfolding Updated.compute_updates
  computed_keeps table update start clears = elim (RibAction-cases update.action) [
    | inl h ↦
        rw (h, Updated.compute_updates) (registration_keeps table update.name update.route _ start)
    | inr (inl h) ↦
        rw (h, Updated.compute_updates)
          (unregistration_keeps table update.name update.route _ start)
    | inr (inr h) ↦
        rw (h, Updated.compute_updates)
          (clears _ (unregistration_keeps table update.name update.route _ start))
  ]
    where
      RibAction-cases : (a : RibAction) → (a ≡ register) ⊎ (a ≡ unregister) ⊎ (a ≡ remove_face)
      RibAction-cases register = inl refl
      RibAction-cases unregister = inr (inl refl)
      RibAction-cases remove_face = inr (inr refl)

  -- What P says of the result of a computation, where there is one.
  pub compute_keeps :
      (table : List (RibEntry ndn)) (update : RibUpdate ndn order) (u : Updates ndn order)
      → P (record {
        batch_face_id = update.route.face_id;
        for_batch_face_id = [];
        for_non_batch_face_id = [];
        inherited_routes = [];
      })
      → ((u : Updates ndn order) → P u → P (record u { for_batch_face_id = [] }))
      → Updated.compute_updates ndn order second_lowest table update ≡ some u
      → P u
  compute_keeps table update u start clears h =
      subst Kept h (computed_keeps table update start clears)
