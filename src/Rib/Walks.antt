-- ===== src/Rib/Walks.antt =====
-- What the walks of rib/fib-updater.cpp over routes and children keep of its update lists.
use nfd_pitless.Base.{ℕ, zero, suc, List, [], ◌∷◌, Option, if_keeps, ◌==◌, Option-cases, inl, inr}
use nfd_pitless.Ndn.{Ndn}
use nfd_pitless.Rib.{Route, RibEntry, has_face_id, has_inherited_route, has_capture}
use nfd_pitless.Rib.Names.{NameOrder}
use nfd_pitless.Rib.Table.{find}
use nfd_pitless.Rib.Updater.{
  RibAction, register, unregister, FibUpdate, Updates, add_fib_update, note_inherited, inherit,
  disinherit, add_inherited_routes, add_inherited_routes_to, remove_inherited_routes,
  left_for_children, remove_from, add_to, traverse,
}
use nfd_pitless.Rib.Updated

-- A predicate that adding a FIB update and noting an inherited route keep is kept by everything.
module _ (ndn : Ndn) (order : NameOrder ndn) (second_lowest : List Route → Option Route)
    (P : Updates ndn order → Type 0)
    (adds : (f : FibUpdate ndn order) (u : Updates ndn order)
      → P u
      → P (add_fib_update ndn order f u))
    (notes : (a : RibAction) (n : ndn.Name) (r : Route) (u : Updates ndn order)
      → P u
      → P (note_inherited ndn order a n r u)) where
  pub inherit_keeps :
      (n : ndn.Name) (r : Route) (u : Updates ndn order) → P u → P (inherit ndn order n r u)
  unfolding inherit
  inherit_keeps n r u h = adds _ _ (notes register n r u h)

  pub disinherit_keeps :
      (n : ndn.Name) (r : Route) (u : Updates ndn order) → P u → P (disinherit ndn order n r u)
  unfolding disinherit
  disinherit_keeps n r u h = adds _ _ (notes unregister n r u h)

  pub add_inherited_keeps :
      (e : RibEntry ndn) (rs : List Route) (u : Updates ndn order)
      → P u
      → P (add_inherited_routes ndn order e rs u)
  unfolding add_inherited_routes
  add_inherited_keeps e [] u h = h
  add_inherited_keeps e (r ∷ rs) u h = add_inherited_keeps e rs _ (
      if_keeps P (has_face_id ndn r.face_id e) u (inherit ndn order e.name r u) h
        (inherit_keeps e.name r u h))

  pub add_inherited_to_keeps :
      (n : ndn.Name) (ignore : Route) (rs : List Route) (u : Updates ndn order)
      → P u
      → P (add_inherited_routes_to ndn order n ignore rs u)
  unfolding add_inherited_routes_to
  add_inherited_to_keeps n ignore [] u h = h
  add_inherited_to_keeps n ignore (r ∷ rs) u h = add_inherited_to_keeps n ignore rs _ (
      if_keeps P (r.face_id == ignore.face_id) u (inherit ndn order n r u) h
        (inherit_keeps n r u h))

  pub remove_inherited_keeps :
      (e : RibEntry ndn) (rs : List Route) (u : Updates ndn order)
      → P u
      → P (remove_inherited_routes ndn order e rs u)
  unfolding remove_inherited_routes
  remove_inherited_keeps e [] u h = h
  remove_inherited_keeps e (r ∷ rs) u h = remove_inherited_keeps e rs _ (
      if_keeps P (has_inherited_route ndn r e) (disinherit ndn order e.name r u) u
        (disinherit_keeps e.name r u h) h)

  pub traverse_keeps :
      (fuel : ℕ) (table : List (RibEntry ndn)) (to_add to_remove : List Route)
      (names : List ndn.Name) (u : Updates ndn order)
      → P u
      → P (traverse ndn order fuel table to_add to_remove names u)
  unfolding traverse remove_from add_to
  traverse_keeps zero table to_add to_remove names u h = h
  traverse_keeps (suc fuel) table to_add to_remove [] u h = h
  traverse_keeps (suc fuel) table to_add to_remove (name ∷ names) u h =
      traverse_keeps (suc fuel) table to_add to_remove names _
        (elim (Option-cases (find ndn order name table)) [
          | inl missing ↦ rw missing h
          | inr (e, found) ↦ rw found (
              if_keeps P (has_capture ndn e) u _ h (
                traverse_keeps fuel table (left_for_children ndn order e to_add)
                  (left_for_children ndn order e to_remove) e.children _
                  (add_inherited_keeps e (left_for_children ndn order e to_add) _
                    (remove_inherited_keeps e (left_for_children ndn order e to_remove) u h))))
        ])

  pub modify_children_keeps :
      (table : List (RibEntry ndn)) (children : List ndn.Name) (to_add to_remove : List Route)
      (u : Updates ndn order)
      → P u
      → P (Updated.modify_children ndn order second_lowest table children to_add to_remove u)
  unfolding Updated.modify_children
  modify_children_keeps table children to_add to_remove u h =
      traverse_keeps (suc (Updated.tallest ndn order second_lowest table)) table to_add to_remove
        children u h
