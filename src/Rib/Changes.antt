-- ===== src/Rib/Changes.antt =====
-- What insertion and erasure in rib/rib.cpp do to the names and routes of the table.
use nfd_pitless.Base.{
  ◌+◌, ◌≡◌, ◌∙◌, refl, ap, List, [], ◌∷◌, ◌++◌, some, arith, length, if◌then◌else◌, any_of,
  erase_if,
}
use nfd_pitless.Ndn.{Ndn}
use nfd_pitless.Rib.{Route, RibEntry, compare_face_id_and_origin, assign_route, update_route}
use nfd_pitless.Rib.Names.{NameOrder}
use nfd_pitless.Rib.Table.{Rib, find}
use nfd_pitless.Rib.Shape.{Shape, shape, lookup, total, IsDistinct, change, find-lookup}
use nfd_pitless.Rib.Lookups.{lookup-change, change-IsDistinct, total-change}

-- The list of a name after a registration and after an unregistration.
abbrev pub with_route : Route → List Route → List Route
with_route route rs =
    if any_of (λ r. compare_face_id_and_origin r route) rs
    then assign_route (λ r. compare_face_id_and_origin r route)
        (λ r. record (update_route route r) { expiration_event = route.expiration_event }) rs
    else rs ++ route ∷ []

abbrev pub without_route : Route → List Route → List Route
without_route route rs = erase_if (λ r. compare_face_id_and_origin r route) rs

module _ (ndn : Ndn) (order : NameOrder ndn) where
  open ndn use {name_eq, name_eq_iff}

  abbrev S : Type 0
  S = Shape ndn order

  -- The routes of a name in a RIB.
  abbrev pub routes_at : ndn.Name → Rib ndn order → List Route
  routes_at q rib = lookup ndn order q (shape ndn order rib.table)

  -- Each name has one entry, and the number of items is that of the routes.
  pub record IsValid (rib : Rib ndn order) : Type 0 where
    pub distinct : IsDistinct ndn order (shape ndn order rib.table)
    pub counted : rib.n_items ≡ total ndn order (shape ndn order rib.table)

  -- What an operation on a name does to a RIB, its lists becoming `g` of what they were.
  pub record Changes (p : ndn.Name) (g : List Route → List Route) (s t : Rib ndn order)
      : Type 0 where
    pub valid : IsValid t
    pub reads :
        (q : ndn.Name) → routes_at q t ≡ (if name_eq p q then g (routes_at p s) else routes_at q s)

  -- An entry whose list becomes `k` of what it was.
  pub modify-Changes :
      (p : ndn.Name) (g k : List Route → List Route) (s t : Rib ndn order) (e : RibEntry ndn)
      → IsValid s
      → find ndn order p s.table ≡ some e
      → shape ndn order t.table ≡ change ndn order p k (shape ndn order s.table)
      → k e.routes ≡ g e.routes
      → t.n_items + length e.routes ≡ s.n_items + length (g e.routes)
      → Changes p g s t
  modify-Changes p g k s t e valid found shaped same counts =
      let sh = shape ndn order s.table in
      let (looks, has, named) = find-lookup ndn order p s.table e found in
      let all = total-change ndn order p k sh has in
      record {
        valid = record {
          distinct = rw shaped (change-IsDistinct ndn order p k sh valid.distinct);
          counted = rw shaped (
              omega (
                arith,
                valid.counted,
                counts,
                all,
                ap (λ rs. length (k rs)) looks,
                ap (λ rs. length rs) looks,
                ap (λ rs. length rs) same,
              ));
        };
        reads = λ q. rw shaped (lookup-change ndn order p q k sh has ∙ rw looks (rw same refl));
      }
