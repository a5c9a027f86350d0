-- ===== src/Rib/Inserted.antt =====
-- Insertion in rib/rib.cpp, for the names and routes of the table.
use nfd_pitless.Base.{
  ◌≡◌, ◌∙◌, refl, [], ◌∷◌, ◌++◌, none, arith, length-append, if◌then◌else◌, any_of, Option-cases,
  inl, inr,
}
use nfd_pitless.Ndn.{Ndn}
use nfd_pitless.Rib.{
  Route, RibEntry, compare_face_id_and_origin, assign_route, update_route, find_route, insert_route,
}
use nfd_pitless.Rib.Names.{NameOrder}
use nfd_pitless.Rib.Table.{
  Rib, find, put_entry, insert, new_rib_entry, find_parent, add_child_to, find_descendants,
}
use nfd_pitless.Rib.Shape.{
  shape, put, shape-modify, shape-put_entry, shape-add_child_to, shape-adopt, find-has_name,
}
use nfd_pitless.Rib.Lookups.{
  find_if-any, find_if-any_some, length-assign_route, lookup_missing, lookup-put, put-IsDistinct,
  total-put,
}
use nfd_pitless.Rib.Changes.{with_route, IsValid, Changes, modify-Changes}

module _ (ndn : Ndn) (order : NameOrder ndn) where
  open ndn use {name_eq, name_eq_iff}

  inserted_new :
      (p : ndn.Name) (route : Route) (rib : Rib ndn order)
      → find ndn order p rib.table ≡ none
      → shape ndn order (insert ndn order p route rib).table
        ≡ put ndn order p (route ∷ []) (shape ndn order rib.table)
  unfolding insert insert_route
  inserted_new p route rib h =
      let e = (insert_route ndn route (new_rib_entry ndn order p)).0 in
      let with_new = put_entry ndn order e rib.table in
      let parent = find_parent ndn order p with_new in
      let hung = add_child_to ndn order parent p with_new in
      rw (h, insert)
        (shape-adopt ndn order p parent (find_descendants ndn order p hung) hung
          ∙ (shape-add_child_to ndn order parent p with_new
              ∙ shape-put_entry ndn order e rib.table))

  pushed-routes :
      (route : Route) (e : RibEntry ndn)
      → (insert_route ndn route e).0.routes ≡ (
          if any_of (λ r. compare_face_id_and_origin r route) e.routes
          then e.routes
          else e.routes ++ route ∷ [])
  unfolding insert_route
  pushed-routes route e = elim (Option-cases (find_route ndn route e)) [
    | inl missing ↦
        rw (missing, insert_route)
          (rw (find_if-any (λ r. compare_face_id_and_origin r route) e.routes missing) refl)
    | inr (r, there) ↦
        rw (there, insert_route)
          (rw (find_if-any_some (λ r. compare_face_id_and_origin r route) e.routes r there) refl)
  ]

  pushed-name : (route : Route) (e : RibEntry ndn) → (insert_route ndn route e).0.name ≡ e.name
  unfolding insert_route
  pushed-name route e = elim (Option-cases (find_route ndn route e)) [
    | inl missing ↦ rw (missing, insert_route) refl
    | inr (r, there) ↦ rw (there, insert_route) refl
  ]

  -- Rib::insert is a registration in the map, and keeps the table valid.
  pub insert-Changes :
      (p : ndn.Name) (route : Route) (rib : Rib ndn order)
      → IsValid ndn order rib
      → Changes ndn order p (with_route route) rib (insert ndn order p route rib)
  unfolding insert
  insert-Changes p route rib valid = elim (Option-cases (find ndn order p rib.table)) [
    | inl missing ↦
        let sh = shape ndn order rib.table in
        let absent = find-has_name ndn order p rib.table missing in
        let shaped = inserted_new p route rib missing in
        record {
          valid = record {
            distinct = rw shaped (put-IsDistinct ndn order p (route ∷ []) sh absent valid.distinct);
            counted = rw shaped (
                rw (missing, insert)
                  (omega (arith, valid.counted, total-put ndn order p (route ∷ []) sh)));
          };
          reads = λ q. rw shaped (
              lookup-put ndn order p q (route ∷ []) sh absent
              ∙ rw (lookup_missing ndn order p sh absent) refl);
        }
    | inr (e, found) ↦ elim (Option-cases (find_route ndn route e)) [
      | inl fresh ↦
          let none_like = find_if-any (λ r. compare_face_id_and_origin r route) e.routes fresh in
          modify-Changes ndn order p (with_route route)
            (λ rs.
              if any_of (λ r. compare_face_id_and_origin r route) rs then rs else rs ++ route ∷ [])
            rib (insert ndn order p route rib) e valid found
            (rw (found, insert)
              (rw fresh (
                shape-modify ndn order p (λ e. (insert_route ndn route e).0) _ rib.table
                  (pushed-name route) (pushed-routes route))))
            (rw none_like refl)
            (rw (found, insert)
              (rw fresh (rw none_like (omega (arith, length-append e.routes (route ∷ []))))))
      | inr (r, old) ↦
          let like = find_if-any_some (λ r. compare_face_id_and_origin r route) e.routes r old in
          modify-Changes ndn order p (with_route route)
            (λ rs.
              assign_route (λ r. compare_face_id_and_origin r route)
                (λ r. record (update_route route r) { expiration_event = route.expiration_event })
                rs)
            rib (insert ndn order p route rib) e valid found
            (rw (found, insert)
              (rw old (shape-modify ndn order p _ _ rib.table (λ e. refl) (λ e. refl))))
            (rw like refl)
            (rw (found, insert)
              (rw old (
                rw like (
                  omega (
                    arith,
                    length-assign_route (λ r. compare_face_id_and_origin r route)
                        (λ r. record (update_route route r) {
                          expiration_event = route.expiration_event;
                        })
                        e.routes,
                  )))))
    ]
  ]
