-- ===== src/Rib/Deep.antt =====
-- How far the walks through the tree of namespaces in rib/rib.cpp and rib/fib-updater.cpp go.
use nfd_pitless.Base.{
  ℕ, zero, suc, ◌+◌, ◌≤◌, ◌<◌, ◌≡◌, ◌∙◌, refl, sym, ap, List, [], ◌∷◌, Option, none, some, arith,
  All, All-find_if, if◌then◌else◌, inl, inr, Bool-cases, Option-cases,
}
use nfd_pitless.Ndn.{Ndn}
use nfd_pitless.Rib.{Route, RibEntry, has_capture}
use nfd_pitless.Rib.Names.{NameOrder}
use nfd_pitless.Rib.Table.{Rib, is_named, find, find_parent}
use nfd_pitless.Rib.Shape.{find-lookup}
use nfd_pitless.Rib.Changes.{IsValid}
use nfd_pitless.Rib.Inserted.{insert-Changes}
use nfd_pitless.Rib.Erased.{erase-Changes}
use nfd_pitless.Rib.Refines.{Call, insert_call, erase_call, run, empty_rib}
use nfd_pitless.Rib.Heights.{Below, Grows, IsTree, insert-IsTree, erase-IsTree, parent_below-Below}
use nfd_pitless.Rib.Updater.{
  Updates, ancestor_routes, inheritable, traverse, left_for_children, add_to, remove_from,
}
use nfd_pitless.Rib.Updated.{tallest, ancestors_of, ancestors_of_name, modify_children}

module _ (ndn : Ndn) (order : NameOrder ndn) where
  open ndn use {Name, size}

  -- Fuel for the walk from a parent up.
  abbrev pub EnoughFor : Option Name → ℕ → Type 0
  EnoughFor none fuel = Unit {0}
  EnoughFor (some name) fuel = size name < fuel

  pub ancestor_routes_fuel :
      (f g : ℕ) (table : List (RibEntry ndn)) (parent : Option Name) (set : List Route)
      → IsTree ndn order table
      → EnoughFor parent f
      → EnoughFor parent g
      → ancestor_routes ndn order f table parent set ≡ ancestor_routes ndn order g table parent set
  unfolding ancestor_routes
  ancestor_routes_fuel zero zero table parent set tree hf hg = refl
  ancestor_routes_fuel zero (suc g) table none set tree hf hg = refl
  ancestor_routes_fuel (suc f) zero table none set tree hf hg = refl
  ancestor_routes_fuel (suc f) (suc g) table none set tree hf hg = refl
  ancestor_routes_fuel zero (suc g) table (some name) set tree hf hg = absurd (omega (arith, hf))
  ancestor_routes_fuel (suc f) zero table (some name) set tree hf hg = absurd (omega (arith, hg))
  ancestor_routes_fuel (suc f) (suc g) table (some name) set tree hf hg =
      elim (Option-cases (find ndn order name table)) [
        | inl missing ↦ rw (missing, ancestor_routes) refl
        | inr (p, found) ↦
            let grows = (All-find_if (Grows ndn order) _ table tree p found).0 in
            let named = ap size (find-lookup ndn order name table p found).2 in
            rw (found, ancestor_routes)
              (ap
                (λ further.
                  if has_capture ndn p then inheritable ndn order p.routes set else further)
                (ancestor_routes_fuel f g table p.parent (inheritable ndn order p.routes set) tree
                  (less p.parent p.name grows named f hf) (less p.parent p.name grows named g hg)))
      ]
    where
      less :
          (parent : Option Name) (n : Name)
          → Below ndn order parent n
          → size n ≡ size name
          → (k : ℕ) → size name < suc k
          → EnoughFor parent k
      less none n below named k h = tt
      less (some q) n below named k h = omega (arith, below, named, h)

  find-tallest :
      (second_lowest : List Route → Option Route) (name : Name) (table : List (RibEntry ndn))
      (e : RibEntry ndn)
      → find ndn order name table ≡ some e
      → size e.name ≤ tallest ndn order second_lowest table
  find-tallest second_lowest name [] e found = absurd (cc)
  find-tallest second_lowest name (x ∷ xs) e found = elim (Bool-cases (is_named ndn order name x)) [
    | inl hit ↦
        let same : x ≡ e = ground arith in
        let alike = ap (λ (y : RibEntry ndn). size y.name) same in omega (arith, alike)
    | inr off ↦ omega (arith, find-tallest second_lowest name xs e (ground arith))
  ]

  -- Names that are longer than every entry.
  none_that_long :
      (t g : ℕ) (table : List (RibEntry ndn)) (to_add to_remove : List Route) (names : List Name)
      (u : Updates ndn order)
      → ((name : Name) (e : RibEntry ndn) → find ndn order name table ≡ some e → size e.name ≤ t)
      → All (λ n. t < 0 + size n) names
      → traverse ndn order (suc g) table to_add to_remove names u ≡ u
  unfolding traverse
  none_that_long t g table to_add to_remove [] u bounded h = refl
  none_that_long t g table to_add to_remove (name ∷ names) u bounded h =
      elim (Option-cases (find ndn order name table)) [
        | inl missing ↦
            rw (missing, traverse) (none_that_long t g table to_add to_remove names u bounded h.1)
        | inr (e, found) ↦
            let named = ap size (find-lookup ndn order name table e found).2 in
            absurd (omega (arith, bounded name e found, named, h.0))
      ]

  pub traverse_fuel :
      (t f g : ℕ) (table : List (RibEntry ndn)) (to_add to_remove : List Route) (names : List Name)
      (u : Updates ndn order)
      → IsTree ndn order table
      → ((name : Name) (e : RibEntry ndn) → find ndn order name table ≡ some e → size e.name ≤ t)
      → All (λ n. t < f + size n) names
      → All (λ n. t < g + size n) names
      → traverse ndn order f table to_add to_remove names u
        ≡ traverse ndn order g table to_add to_remove names u
  unfolding traverse
  traverse_fuel t zero zero table to_add to_remove names u tree bounded hf hg = refl
  traverse_fuel t zero (suc g) table to_add to_remove names u tree bounded hf hg =
      sym (none_that_long t g table to_add to_remove names u bounded hf)
  traverse_fuel t (suc f) zero table to_add to_remove names u tree bounded hf hg =
      none_that_long t f table to_add to_remove names u bounded hg
  traverse_fuel t (suc f) (suc g) table to_add to_remove [] u tree bounded hf hg = refl
  traverse_fuel t (suc f) (suc g) table to_add to_remove (name ∷ names) u tree bounded hf hg =
      elim (Option-cases (find ndn order name table)) [
        | inl missing ↦
            rw (missing, traverse)
              (traverse_fuel t (suc f) (suc g) table to_add to_remove names u tree bounded hf.1
                hg.1)
        | inr (e, found) ↦
            let grows = (All-find_if (Grows ndn order) _ table tree e found).1 in
            let named = ap size (find-lookup ndn order name table e found).2 in
            let start = add_to ndn order e to_add (remove_from ndn order e to_remove u) in
            let inner =
              traverse_fuel t f g table (left_for_children ndn order e to_add)
                (left_for_children ndn order e to_remove) e.children start tree bounded
                (deeper f e.name named hf.0 e.children grows)
                (deeper g e.name named hg.0 e.children grows) in
            rw (found, traverse)
              (traverse_fuel t (suc f) (suc g) table to_add to_remove names _ tree bounded hf.1 hg.1
                ∙ ap
                    (λ w.
                      traverse ndn order (suc g) table to_add to_remove names
                        (if has_capture ndn e then u else w))
                    inner)
      ]
    where
      deeper :
          (k : ℕ) (n : Name)
          → size n ≡ size name
          → t < suc k + size name
          → (cs : List Name) → All (λ c. size n < size c) cs
          → All (λ c. t < k + size c) cs
      deeper k n named h [] longer = tt
      deeper k n named h (c ∷ cs) longer =
          (omega (arith, named, h, longer.0), deeper k n named h cs longer.1)

  run-IsTree :
      (calls : List (Call ndn order)) (rib : Rib ndn order)
      → IsValid ndn order rib
      → IsTree ndn order rib.table
      → IsTree ndn order (run ndn order calls rib).table
  unfolding run
  run-IsTree [] rib valid tree = tree
  run-IsTree (insert_call p route ∷ calls) rib valid tree =
      run-IsTree calls _ (insert-Changes ndn order p route rib valid).valid
        (insert-IsTree ndn order p route rib valid tree)
  run-IsTree (erase_call p route ∷ calls) rib valid tree =
      run-IsTree calls _ (erase-Changes ndn order p route rib valid).valid
        (erase-IsTree ndn order p route rib tree)

  deep_names : (t f : ℕ) (names : List Name) → t < f → All (λ n. t < f + size n) names
  deep_names t f [] h = tt
  deep_names t f (n ∷ names) h = (omega (arith, h), deep_names t f names h)

  Below-EnoughFor :
      (parent : Option Name) (name : Name) (fuel : ℕ)
      → Below ndn order parent name
      → size name ≤ fuel
      → EnoughFor parent fuel
  Below-EnoughFor none name fuel h le = tt
  Below-EnoughFor (some p) name fuel h le = omega (arith, h, le)

  -- After any insertions and erasures from the empty RIB on, more fuel than the models of
  -- getAncestorRoutes and modifyChildrensInheritedRoutes take changes nothing: their walks end.
  pub walks_end :
      (second_lowest : List Route → Option Route) (calls : List (Call ndn order)) (k : ℕ)
      (name : Name) (e : RibEntry ndn)
      → find ndn order name (run ndn order calls (empty_rib ndn order)).table ≡ some e
      → (to_add to_remove : List Route) (names : List Name) (u : Updates ndn order)
      → (ancestor_routes ndn order
            (size e.name + k)
            (run ndn order calls (empty_rib ndn order)).table
            e.parent
            []
          ≡ ancestors_of ndn order second_lowest
              (run ndn order calls (empty_rib ndn order)).table
              e)
        × (ancestor_routes ndn order
              (size name + k)
              (run ndn order calls (empty_rib ndn order)).table
              (find_parent ndn order name (run ndn order calls (empty_rib ndn order)).table)
              []
            ≡ ancestors_of_name ndn order second_lowest
                (run ndn order calls (empty_rib ndn order)).table
                name)
        × (traverse ndn order
              (suc (
                  tallest ndn order second_lowest (run ndn order calls (empty_rib ndn order)).table)
                + k)
              (run ndn order calls (empty_rib ndn order)).table
              to_add
              to_remove
              names
              u
            ≡ modify_children ndn order second_lowest
                (run ndn order calls (empty_rib ndn order)).table
                names
                to_add
                to_remove
                u)
  unfolding ancestors_of ancestors_of_name modify_children
  walks_end second_lowest calls k name e found to_add to_remove names u =
      let table = (run ndn order calls (empty_rib ndn order)).table in
      let tree =
        run-IsTree calls (empty_rib ndn order) (record { distinct = tt; counted = refl }) tt in
      let t = tallest ndn order second_lowest table in
      let below = (All-find_if (Grows ndn order) _ table tree e found).0 in
      let under = parent_below-Below ndn order name (size name) table (omega arith) in
      (
        ancestor_routes_fuel (size e.name + k) (size e.name) table e.parent [] tree
            (Below-EnoughFor e.parent e.name _ below (omega arith))
            (Below-EnoughFor e.parent e.name _ below (omega arith)),
        ancestor_routes_fuel (size name + k) (size name) table (find_parent ndn order name table) []
            tree (Below-EnoughFor _ name _ under (omega arith))
            (Below-EnoughFor _ name _ under (omega arith)),
        traverse_fuel t (suc t + k) (suc t) table to_add to_remove names u tree
            (λ n x h. find-tallest second_lowest n table x h) (deep_names t _ names (omega arith))
            (deep_names t _ names (omega arith)),
      )
