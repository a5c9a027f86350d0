-- ===== src/Rib/Capture.antt =====
-- The count of capturing routes of an entry, in rib/rib-entry.cpp and rib/rib.cpp.
use nfd_pitless.Base.{
  ◌≡◌, ◌∙◌, refl, ap, Bool, true, false, List, [], ◌∷◌, some, arith, any_of, find_if, Bool-cases,
  inl, inr,
}
use nfd_pitless.Ndn.{Ndn}
use nfd_pitless.Rib.{
  Route, RibEntry, compare_face_id_and_origin, assign_route, update_route, find_route, erase_route,
  has_capture,
}
use nfd_pitless.Rib.Names.{NameOrder}
use nfd_pitless.Rib.Table.{Rib, is_named, find, modify, insert}

find_if-assign_route :
    (p : Route → Bool) (f : Route → Route) (rs : List Route) (r : Route)
    → ((x : Route) → p (f x) ≡ p x)
    → find_if p rs ≡ some r
    → find_if p (assign_route p f rs) ≡ some (f r)
find_if-assign_route p f [] r keeps h = absurd (cc)
find_if-assign_route p f (x ∷ xs) r keeps h = elim (Bool-cases (p x)) [
  | inl hit ↦ rw hit (rw (keeps x) (rw hit (ground arith)))
  | inr off ↦ rw off (rw off (find_if-assign_route p f xs r keeps (ground arith)))
]

any_of-assign_route :
    (p q : Route → Bool) (f : Route → Route) (rs : List Route) (r : Route)
    → ((x : Route) → q (f x) ≡ true)
    → find_if p rs ≡ some r
    → any_of q (assign_route p f rs) ≡ true
any_of-assign_route p q f [] r sets h = absurd (cc)
any_of-assign_route p q f (x ∷ xs) r sets h = elim (Bool-cases (p x)) [
  | inl hit ↦ rw hit (rw (sets x) refl)
  | inr off ↦ rw off (rw (any_of-assign_route p q f xs r sets (ground arith)) (ground arith))
]

module _ (ndn : Ndn) (order : NameOrder ndn) where
  pub find-modify :
      (p : ndn.Name) (f : RibEntry ndn → RibEntry ndn) (es : List (RibEntry ndn)) (e : RibEntry ndn)
      → ((x : RibEntry ndn) → (f x).name ≡ x.name)
      → find ndn order p es ≡ some e
      → find ndn order p (modify ndn order p f es) ≡ some (f e)
  unfolding modify
  find-modify p f [] e keeps h = absurd (cc)
  find-modify p f (x ∷ xs) e keeps h = elim (Bool-cases (is_named ndn order p x)) [
    | inl hit ↦
        let named : is_named ndn order p (f x) ≡ true = ap (λ n. ndn.name_eq n p) (keeps x) ∙ hit in
        let same : x ≡ e = ground arith in rw (hit, modify) (rw named (ap (λ y. some (f y)) same))
    | inr off ↦ rw (off, modify) (rw off (find-modify p f xs e keeps (ground arith)))
  ]

  -- Where an entry counts no capturing route, and a route that it has is registered again with the
  -- capture flag: the entry then has a capturing route but says that it has none, and when that
  -- route is erased it says that it has one.
  pub capture_miscounted :
      (p : ndn.Name) (route : Route) (rib : Rib ndn order) (e : RibEntry ndn) (r : Route)
      → find ndn order p rib.table ≡ some e
      → find_route ndn route e ≡ some r
      → e.n_routes_with_capture_set ≡ 0
      → route.capture ≡ true
      → (e' : RibEntry ndn) × (find ndn order p (insert ndn order p route rib).table ≡ some e')
        × (any_of (λ r. r.capture) e'.routes ≡ true)
        × (has_capture ndn e' ≡ false)
        × (has_capture ndn (erase_route ndn route e') ≡ true)
  unfolding insert erase_route
  capture_miscounted p route rib e r found old zero_count captures =
      let like : Route → Bool = λ r. compare_face_id_and_origin r route in
      let refreshed : Route → Route =
        λ r. record (update_route route r) { expiration_event = route.expiration_event } in
      let e' : RibEntry ndn = record e { routes = assign_route like refreshed e.routes } in
      let again = find_if-assign_route like refreshed e.routes r (λ x. refl) old in
      (
        e',
        rw (found, insert) (rw old (find-modify p _ rib.table e (λ x. refl) found)),
        any_of-assign_route like (λ r. r.capture) refreshed e.routes r (λ x. captures) old,
        rw zero_count refl,
        rw (again, erase_route) (rw captures (rw zero_count refl)),
      )
