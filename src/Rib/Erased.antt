-- ===== src/Rib/Erased.antt =====
-- Erasure in rib/rib.cpp, for the names and routes of the table.
use nfd_pitless.Base.{
  ◌+◌, ◌≡◌, ◌∙◌, refl, sym, ap, true, List, [], ◌∷◌, arith, length, if◌then◌else◌, Bool-cases,
  Option-cases, inl, inr,
}
use nfd_pitless.Ndn.{Ndn}
use nfd_pitless.Rib.{Route, RibEntry, compare_face_id_and_origin, find_route, erase_route}
use nfd_pitless.Rib.Names.{NameOrder}
use nfd_pitless.Rib.Table.{Rib, find, modify, erase, erase_entry}
use nfd_pitless.Rib.Shape.{
  shape, lookup, has_name, total, IsDistinct, change, drop_name, shape-modify, shape-erase_entry,
  find-has_name, find-lookup,
}
use nfd_pitless.Rib.Lookups.{
  S, erase_missing, length-erase_if, lookup-change, change-IsDistinct, lookup_missing, lookup-drop,
  drop-IsDistinct, total-change, total-drop,
}
use nfd_pitless.Rib.Changes.{without_route, routes_at, IsValid, Changes}

module _ (ndn : Ndn) (order : NameOrder ndn) where
  open ndn use {name_eq, name_eq_iff}

  erased-routes :
      (route : Route) (e : RibEntry ndn)
      → (erase_route ndn route e).routes ≡ without_route route e.routes
  unfolding erase_route
  erased-routes route e = elim (Option-cases (find_route ndn route e)) [
    | inl none_there ↦
        rw (none_there, erase_route)
          (sym (erase_missing (λ r. compare_face_id_and_origin r route) e.routes none_there))
    | inr (r, there) ↦ rw (there, erase_route) refl
  ]

  erased-name : (route : Route) (e : RibEntry ndn) → (erase_route ndn route e).name ≡ e.name
  unfolding erase_route
  erased-name route e = elim (Option-cases (find_route ndn route e)) [
    | inl none_there ↦ rw (none_there, erase_route) refl
    | inr (r, there) ↦ rw (there, erase_route) refl
  ]

  -- A RIB that stays, where the list would too.
  unchanged :
      (p : ndn.Name) (g : List Route → List Route) (s : Rib ndn order)
      → IsValid ndn order s
      → g (routes_at ndn order p s) ≡ routes_at ndn order p s
      → Changes ndn order p g s s
  unchanged p g s valid same = record {
    valid = valid;
    reads = λ q. elim (Bool-cases (name_eq p q)) [
      | inl hit ↦
          rw hit (rw same (ap (λ n. routes_at ndn order n s) (sym ((name_eq_iff p q).0 hit))))
      | inr off ↦ rw off refl
    ];
  }

  erased_shape :
      (p : ndn.Name) (route : Route) (rib : Rib ndn order) (e : RibEntry ndn)
      → e.name ≡ p
      → (rs : List Route)
      → shape ndn order (elim rs as (λ _. List (RibEntry ndn)) [
        | [] ↦
            erase_entry ndn order
              (erase_route ndn route e)
              (modify ndn order p (erase_route ndn route) rib.table)
        | r ∷ rest ↦ modify ndn order p (erase_route ndn route) rib.table
      ])
        ≡ (elim rs as (λ _. (S ndn order)) [
          | [] ↦
              drop_name ndn order p
                (change ndn order p (without_route route) (shape ndn order rib.table))
          | r ∷ rest ↦ change ndn order p (without_route route) (shape ndn order rib.table)
        ])
  erased_shape p route rib e named [] =
      shape-erase_entry ndn order (erase_route ndn route e)
        (modify ndn order p (erase_route ndn route) rib.table)
      ∙ (ap
            (λ n.
              drop_name ndn order n
                (shape ndn order (modify ndn order p (erase_route ndn route) rib.table)))
            (erased-name route e ∙ named)
          ∙ ap (drop_name ndn order p) (
              shape-modify ndn order p (erase_route ndn route) (without_route route) rib.table
                (erased-name route) (erased-routes route)))
  erased_shape p route rib e named (r ∷ rest) =
      shape-modify ndn order p (erase_route ndn route) (without_route route) rib.table
        (erased-name route) (erased-routes route)

  -- The change, and the removal of an entry that has become empty, read alike.
  emptied :
      (p : ndn.Name) (g : List Route → List Route) (sh : (S ndn order)) (rs : List Route)
      → IsDistinct ndn order sh
      → has_name ndn order p sh ≡ true
      → g (lookup ndn order p sh) ≡ rs
      → (IsDistinct ndn order (elim rs as (λ _. (S ndn order)) [
        | [] ↦ drop_name ndn order p (change ndn order p g sh)
        | r ∷ rest ↦ change ndn order p g sh
      ]))
        × (total ndn order (elim rs as (λ _. (S ndn order)) [
          | [] ↦ drop_name ndn order p (change ndn order p g sh)
          | r ∷ rest ↦ change ndn order p g sh
        ])
              + length (lookup ndn order p sh)
            ≡ total ndn order sh + length rs)
        × ((q : ndn.Name)
            → lookup ndn order q (elim rs as (λ _. (S ndn order)) [
              | [] ↦ drop_name ndn order p (change ndn order p g sh)
              | r ∷ rest ↦ change ndn order p g sh
            ])
              ≡ (if name_eq p q then rs else lookup ndn order q sh))
  emptied p g sh [] d has e =
      let changed = lookup-change ndn order p p g sh has in
      let self : name_eq p p ≡ true = (name_eq_iff p p).1 refl in
      let here : lookup ndn order p (change ndn order p g sh) ≡ [] = changed ∙ rw self e in
      (
        drop-IsDistinct ndn order p (change ndn order p g sh)
            (change-IsDistinct ndn order p g sh d),
        omega (
          arith,
          total-drop ndn order p (change ndn order p g sh),
          total-change ndn order p g sh has,
          ap (λ rs. length rs) here,
          ap (λ rs. length rs) e,
        ),
        λ q.
            lookup-drop ndn order p q (change ndn order p g sh)
              (change-IsDistinct ndn order p g sh d)
            ∙ both q,
      )
    where
      both :
          (q : ndn.Name)
          → (if name_eq p q then [] else lookup ndn order q (change ndn order p g sh))
            ≡ (if name_eq p q then [] else lookup ndn order q sh)
      both q = elim (Bool-cases (name_eq p q)) [
        | inl hit ↦ rw hit refl
        | inr off ↦ rw off (lookup-change ndn order p q g sh has ∙ rw off refl)
      ]
  emptied p g sh (r ∷ rest) d has e = (
    change-IsDistinct ndn order p g sh d,
    omega (arith, total-change ndn order p g sh has, ap (λ rs. length rs) e),
    λ q. lookup-change ndn order p q g sh has ∙ rw e refl,
  )

  -- Rib::erase is an unregistration in the map, and keeps the table valid.
  pub erase-Changes :
      (p : ndn.Name) (route : Route) (rib : Rib ndn order)
      → IsValid ndn order rib
      → Changes ndn order p (without_route route) rib (erase ndn order p route rib)
  unfolding erase
  erase-Changes p route rib valid = elim (Option-cases (find ndn order p rib.table)) [
    | inl missing ↦
        let absent =
          lookup_missing ndn order p (shape ndn order rib.table)
            (find-has_name ndn order p rib.table missing) in
        rw (missing, erase) (unchanged p (without_route route) rib valid (rw absent refl))
    | inr (e, found) ↦
        let (looks, has, named) = find-lookup ndn order p rib.table e found in
        elim (Option-cases (find_route ndn route e)) [
          | inl fresh ↦
              rw (found, erase)
                (rw fresh (
                  unchanged p (without_route route) rib valid (
                    rw looks
                      (erase_missing (λ r. compare_face_id_and_origin r route) e.routes fresh))))
          | inr (r, old) ↦
              let sh = shape ndn order rib.table in
              let kept = (erase_route ndn route e).routes in
              let less = erased-routes route e in
              let fewer =
                length-erase_if (λ r. compare_face_id_and_origin r route) e.routes r old in
              let shaped = erased_shape p route rib e named kept in
              let (distinct, totals, reads) =
                emptied p (without_route route) sh kept valid.distinct has (rw looks (sym less)) in
              rw (found, erase)
                (rw old (record {
                  valid = record {
                    distinct = rw shaped distinct;
                    counted = rw shaped (
                        omega (
                          arith,
                          valid.counted,
                          totals,
                          fewer,
                          ap (λ rs. length rs) less,
                          ap (λ rs. length rs) looks,
                        ));
                  };
                  reads = λ q. rw shaped (reads q ∙ rw looks (rw less refl));
                }))
        ]
  ]
