-- ===== src/Rib/Updater.antt =====
-- The FIB updates of a RIB update: rib/fib-updater.cpp, rib/fib-update.cpp and getAncestorRoutes of
-- rib/rib.cpp. A set of routes is a list in the order of face ids, without two of one face. `table`
-- is the RIB's, which the computation only reads. A walk through the tree is on fuel.
use nfd_pitless.Base.{
  ℕ, zero, suc, not, ◌&&◌, List, [], ◌∷◌, ◌++◌, Option, none, some, if◌then◌else◌, ltb, ◌==◌,
  find_if, copy_if, erase_if,
}
use nfd_pitless.Ndn.{Ndn}
use nfd_pitless.Rib.{
  Route, RibEntry, compare_face_id, has_face_id, has_inherited_route, has_capture,
  has_child_inherit_on_face_id,
}
use nfd_pitless.Rib.Names.{NameOrder}
use nfd_pitless.Rib.Table.{find}

-- FibUpdate::Action
pub data Action : Type 0 where
  add_nexthop remove_nexthop : Action

-- RibUpdate::Action
pub data RibAction : Type 0 where
  register unregister remove_face : RibAction

-- RouteSet::insert, RouteSet::find and the erasure of what is found.
unfoldable pub insert_sorted : Route → List Route → List Route
insert_sorted route [] = route ∷ []
insert_sorted route (r ∷ rs) =
    if route.face_id == r.face_id
    then r ∷ rs
    else if ltb route.face_id r.face_id
    then route ∷ r ∷ rs
    else r ∷ insert_sorted route rs

abbrev pub find_like : Route → List Route → Option Route
find_like route set = find_if (compare_face_id route.face_id) set

abbrev pub erase_like : Route → List Route → List Route
erase_like route set = erase_if (compare_face_id route.face_id) set

module _ (ndn : Ndn) (order : NameOrder ndn) where
  open ndn use {name_eq}

  -- FibUpdate and RibUpdate
  pub record FibUpdate : Type 0 where
    pub name : ndn.Name
    pub face_id : ℕ
    pub cost : ℕ
    pub action : Action

  pub record RibUpdate : Type 0 where
    pub action : RibAction
    pub name : ndn.Name
    pub route : Route

  abbrev pub create_add_update : ndn.Name → ℕ → ℕ → FibUpdate
  create_add_update name face_id cost = record {
    name = name;
    face_id = face_id;
    cost = cost;
    action = add_nexthop;
  }

  abbrev pub create_remove_update : ndn.Name → ℕ → FibUpdate
  create_remove_update name face_id = record {
    name = name;
    face_id = face_id;
    cost = 0;
    action = remove_nexthop;
  }

  -- What FibUpdater keeps between its calls.
  pub record Updates : Type 0 where
    pub batch_face_id : ℕ
    pub for_batch_face_id : List FibUpdate
    pub for_non_batch_face_id : List FibUpdate
    pub inherited_routes : List RibUpdate

  -- FibUpdater::addFibUpdate
  unfoldable pub put_update : FibUpdate → List FibUpdate → List FibUpdate
  put_update update [] = update ∷ []
  put_update update (u ∷ us) =
      if name_eq update.name u.name && update.face_id == u.face_id
      then record u { action = update.action; cost = update.cost } ∷ us
      else u ∷ put_update update us

  unfoldable pub add_fib_update : FibUpdate → Updates → Updates
  unfolding put_update
  add_fib_update update u =
      if update.face_id == u.batch_face_id
      then record u { for_batch_face_id = put_update update u.for_batch_face_id }
      else record u { for_non_batch_face_id = put_update update u.for_non_batch_face_id }

  -- FibUpdater::addInheritedRoute and FibUpdater::removeInheritedRoute
  abbrev pub note_inherited : RibAction → ndn.Name → Route → Updates → Updates
  note_inherited action name route u = record u {
    inherited_routes =
        u.inherited_routes ++ record { action = action; name = name; route = route } ∷ [];
  }

  -- An inherited route that a name gets, and one that it loses, with their FIB updates.
  unfoldable pub inherit : ndn.Name → Route → Updates → Updates
  unfolding add_fib_update
  inherit name route u =
      add_fib_update (create_add_update name route.face_id route.cost)
        (note_inherited register name route u)

  unfoldable pub disinherit : ndn.Name → Route → Updates → Updates
  unfolding add_fib_update
  disinherit name route u =
      add_fib_update (create_remove_update name route.face_id)
        (note_inherited unregister name route u)

  -- FibUpdater::addInheritedRoutes for an entry, and for a name that has none.
  unfoldable pub add_inherited_routes : RibEntry ndn → List Route → Updates → Updates
  unfolding inherit
  add_inherited_routes e [] u = u
  add_inherited_routes e (r ∷ rs) u =
      add_inherited_routes e rs (if has_face_id ndn r.face_id e then u else inherit e.name r u)

  unfoldable pub add_inherited_routes_to : ndn.Name → Route → List Route → Updates → Updates
  unfolding inherit
  add_inherited_routes_to name ignore [] u = u
  add_inherited_routes_to name ignore (r ∷ rs) u =
      add_inherited_routes_to name ignore rs
        (if r.face_id == ignore.face_id then u else inherit name r u)

  -- FibUpdater::removeInheritedRoutes
  unfoldable pub remove_inherited_routes : RibEntry ndn → List Route → Updates → Updates
  unfolding disinherit
  remove_inherited_routes e [] u = u
  remove_inherited_routes e (r ∷ rs) u =
      remove_inherited_routes e rs
        (if has_inherited_route ndn r e then disinherit e.name r u else u)

  -- The two loops of FibUpdater::traverseSubTree; the routes that are left for the children.
  abbrev pub left_for_children : RibEntry ndn → List Route → List Route
  left_for_children e set = copy_if (λ r. not (has_child_inherit_on_face_id ndn r.face_id e)) set

  unfoldable pub remove_from : RibEntry ndn → List Route → Updates → Updates
  unfolding remove_inherited_routes
  remove_from e routes_to_remove u =
      remove_inherited_routes e (left_for_children e routes_to_remove) u

  unfoldable pub add_to : RibEntry ndn → List Route → Updates → Updates
  unfolding add_inherited_routes
  add_to e routes_to_add u = add_inherited_routes e (left_for_children e routes_to_add) u

  -- FibUpdater::traverseSubTree and FibUpdater::modifyChildrensInheritedRoutes: the subtrees of
  -- names, one after the other.
  unfoldable pub traverse :
      ℕ → List (RibEntry ndn) → List Route → List Route → List ndn.Name → Updates → Updates
  unfolding remove_from add_to
  traverse zero table to_add to_remove names u = u
  traverse (suc fuel) table to_add to_remove [] u = u
  traverse (suc fuel) table to_add to_remove (name ∷ names) u =
      let entered : RibEntry ndn → Updates = λ e.
        traverse fuel table (left_for_children e to_add) (left_for_children e to_remove) e.children
          (add_to e to_add (remove_from e to_remove u)) in
      traverse (suc fuel) table to_add to_remove names (elim (find ndn order name table) [
        | none ↦ u
        | some e ↦ if has_capture ndn e then u else entered e
      ])

  -- getAncestorRoutes: the parent's routes to inherit, and on through the parents.
  unfoldable pub inheritable : List Route → List Route → List Route
  unfolding insert_sorted
  inheritable [] set = set
  inheritable (r ∷ rs) set = inheritable rs (if r.child_inherit then insert_sorted r set else set)

  unfoldable pub ancestor_routes :
      ℕ → List (RibEntry ndn) → Option ndn.Name → List Route → List Route
  unfolding inheritable
  ancestor_routes zero table parent set = set
  ancestor_routes (suc fuel) table none set = set
  ancestor_routes (suc fuel) table (some name) set = elim (find ndn order name table) [
    | none ↦ set
    | some p ↦
        let gathered = inheritable p.routes set in
        let further = ancestor_routes fuel table p.parent gathered in
        if has_capture ndn p then gathered else further
  ]
