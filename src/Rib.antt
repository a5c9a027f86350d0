-- ===== src/Rib.antt =====
-- The Routing Information Base: rib/route.hpp and rib/rib-entry.cpp. A shared pointer to an entry of
-- the table is that entry's name, of which the table has one; copying an entry copies the record. A
-- scheduled expiration is the id of its event; cancelling it has no effect on the tables.
pub mod Names
pub mod Table
pub mod Shape
pub mod Lookups
pub mod Changes
pub mod Inserted
pub mod Erased
pub mod Refines
pub mod Capture
pub mod NullRoute
pub mod FaceLost
pub mod Heights
pub mod Deep
pub mod Updater
pub mod Updated
pub mod Walks
pub mod Computed
pub mod Separated
pub mod Sending
pub mod Queue
pub mod Counts
pub mod Started
pub mod Serial
pub mod Answered
pub mod Orderly
pub mod Progress
pub mod Refused
pub mod Toy
mod Examples
use nfd_pitless.Base.{
  ℕ, ◌+◌, ◌-◌, ◌%◌, ◌^◌, Bool, true, false, not, ◌&&◌, List, [], ◌∷◌, ◌++◌, Option, none, some,
  length, if◌then◌else◌, ltb, leb, ◌==◌, any_of, find_if, copy_if, erase_if,
}
use nfd_pitless.Ndn.{Ndn}

-- Route. `child_inherit` and `capture` are the bits ROUTE_FLAG_CHILD_INHERIT and ROUTE_FLAG_CAPTURE
-- of its flags, `other_flags` the rest.
pub record Route : Type 0 where
  pub face_id : ℕ
  pub origin : ℕ
  pub child_inherit : Bool
  pub capture : Bool
  pub other_flags : ℕ
  pub cost : ℕ
  pub expires : ℕ
  pub expiration_event : Option ℕ

-- compareFaceIdAndOrigin
abbrev pub compare_face_id_and_origin : Route → Route → Bool
compare_face_id_and_origin lhs rhs = lhs.face_id == rhs.face_id && lhs.origin == rhs.origin

-- compareFaceId
abbrev pub compare_face_id : ℕ → Route → Bool
compare_face_id face_id route = route.face_id == face_id

-- Equality of flags.
abbrev pub same_bit : Bool → Bool → Bool
same_bit true b = b
same_bit false b = not b

abbrev pub same_flags : Route → Route → Bool
same_flags a b =
    same_bit a.child_inherit b.child_inherit
    && (same_bit a.capture b.capture && a.other_flags == b.other_flags)

-- The assignments to an existing route.
abbrev pub update_route : Route → Route → Route
update_route route existing = record existing {
  child_inherit = route.child_inherit;
  capture = route.capture;
  other_flags = route.other_flags;
  cost = route.cost;
  expires = route.expires;
}

-- An assignment through the iterator that std::find_if returns.
abbrev pub assign_route : (Route → Bool) → (Route → Route) → List Route → List Route
assign_route p f [] = []
assign_route p f (r ∷ rs) = if p r then f r ∷ rs else r ∷ assign_route p f rs

-- The route with the lowest cost among those that pass a test, the first of them.
unfoldable pub lowest_cost : (Route → Bool) → List Route → Option Route → Option Route
lowest_cost p [] candidate = candidate
lowest_cost p (r ∷ rs) candidate =
    let better : Bool = elim candidate [ none ↦ true | some c ↦ ltb r.cost c.cost ] in
    lowest_cost p rs (if p r && better then some r else candidate)

module _ (ndn : Ndn) where
  pub record RibEntry : Type 0 where
    pub name : ndn.Name
    pub children : List ndn.Name
    pub parent : Option ndn.Name
    pub routes : List Route
    pub inherited_routes : List Route
    pub n_routes_with_capture_set : ℕ

  abbrev pub find_route : Route → RibEntry → Option Route
  find_route route e = find_if (λ r. compare_face_id_and_origin r route) e.routes

  unfoldable pub insert_route : Route → RibEntry → RibEntry × Bool
  insert_route route e = elim (find_route route e) [
    | some r ↦ (e, false)
    | none ↦ (
      record e {
        routes = e.routes ++ route ∷ [];
        n_routes_with_capture_set =
            if route.capture
            then (e.n_routes_with_capture_set + 1) % 2 ^ 64
            else e.n_routes_with_capture_set;
      },
      true,
    )
  ]

  unfoldable pub erase_route : Route → RibEntry → RibEntry
  erase_route route e = elim (find_route route e) [
    | none ↦ e
    | some r ↦ record e {
      routes = erase_if (λ r. compare_face_id_and_origin r route) e.routes;
      n_routes_with_capture_set =
          if r.capture
          then (e.n_routes_with_capture_set + 2 ^ 64 - 1) % 2 ^ 64
          else e.n_routes_with_capture_set;
    }
  ]

  abbrev pub has_face_id : ℕ → RibEntry → Bool
  has_face_id face_id e = any_of (compare_face_id face_id) e.routes

  abbrev pub add_inherited_route : Route → RibEntry → RibEntry
  add_inherited_route route e = record e { inherited_routes = e.inherited_routes ++ route ∷ [] }

  -- Where the route is not there the code erases the end iterator; the list is then left alone.
  abbrev pub remove_inherited_route : Route → RibEntry → RibEntry
  remove_inherited_route route e = record e {
    inherited_routes = erase_if (compare_face_id route.face_id) e.inherited_routes;
  }

  abbrev pub has_inherited_route : Route → RibEntry → Bool
  has_inherited_route route e = any_of (compare_face_id route.face_id) e.inherited_routes

  abbrev pub has_capture : RibEntry → Bool
  has_capture e = ltb 0 e.n_routes_with_capture_set

  abbrev pub has_child_inherit_on_face_id : ℕ → RibEntry → Bool
  has_child_inherit_on_face_id face_id e =
      any_of (λ r. r.face_id == face_id && r.child_inherit) e.routes

  -- getRouteWithLowestCostByFaceId
  unfoldable pub lowest_by_face_id : ℕ → RibEntry → Option Route
  unfolding lowest_cost
  lowest_by_face_id face_id e = lowest_cost (compare_face_id face_id) e.routes none

  -- getRouteWithLowestCostAndChildInheritByFaceId
  unfoldable pub lowest_inherited_by_face_id : ℕ → RibEntry → Option Route
  unfolding lowest_cost
  lowest_inherited_by_face_id face_id e =
      lowest_cost (λ r. r.face_id == face_id && r.child_inherit) e.routes none

  -- A parent or child that a shared pointer points to.
  abbrev pub same_parent : Option ndn.Name → Option ndn.Name → Bool
  same_parent none none = true
  same_parent (some a) (some b) = ndn.name_eq a b
  same_parent _ _ = false
