-- ===== src/Rib/Heights.antt =====
-- The tree of namespaces of rib/rib.cpp: parents and children.
use nfd_pitless.Base.{
  ℕ, zero, suc, ◌≤◌, ◌<◌, ◌≡◌, ◌∙◌, sym, ap, subst, false, List, [], ◌∷◌, Option, none, some, arith,
  All, All-append, All-copy_if, All-erase_if, All-find_if, if_keeps, inl, inr, Bool-cases,
  Option-cases,
}
use nfd_pitless.Ndn.{Ndn}
use nfd_pitless.Rib.{Route, RibEntry, insert_route, erase_route, find_route, same_parent}
use nfd_pitless.Rib.Names.{NameOrder}
use nfd_pitless.Rib.Table.{
  Rib, is_named, find, modify, put_entry, parent_below, find_parent, run_of, find_descendants,
  add_child, remove_child, add_child_to, remove_child_from, adopt, hand_over, erase_entry,
  new_rib_entry, insert, erase,
}
use nfd_pitless.Rib.Shape.{
  shape, has_name, IsDistinct, find-has_name, find-lookup, shape-add_child_to, shape-put_entry,
}
use nfd_pitless.Rib.Lookups.{put-IsDistinct}
use nfd_pitless.Rib.Changes.{IsValid}

module _ (ndn : Ndn) (order : NameOrder ndn) where
  open ndn use {Name, name_eq, size, get_prefix, is_prefix_of}

  -- A name is longer than a parent, if there is one.
  abbrev pub Below : Option Name → Name → Type 0
  Below none child = Unit {0}
  Below (some parent) child = size parent < size child

  -- An entry is longer than its parent, and shorter than its children.
  abbrev pub Grows : RibEntry ndn → Type 0
  Grows e = Below e.parent e.name × All (λ c. size e.name < size c) e.children

  abbrev pub IsTree : List (RibEntry ndn) → Type 0
  IsTree table = All Grows table

  modify-IsTree :
      (n : Name) (f : RibEntry ndn → RibEntry ndn) (es : List (RibEntry ndn))
      → ((x : RibEntry ndn) → x.name ≡ n → Grows x → Grows (f x))
      → IsTree es
      → IsTree (modify ndn order n f es)
  unfolding modify
  modify-IsTree n f [] keeps h = tt
  modify-IsTree n f (x ∷ xs) keeps h = elim (Bool-cases (is_named ndn order n x)) [
    | inl hit ↦ rw (hit, modify) (keeps x ((ndn.name_eq_iff x.name n).0 hit) h.0, h.1)
    | inr off ↦ rw (off, modify) (h.0, modify-IsTree n f xs keeps h.1)
  ]

  add_child-IsTree :
      (parent child : Name) (es : List (RibEntry ndn))
      → size parent < size child
      → IsTree es
      → IsTree (add_child ndn order parent child es)
  unfolding add_child
  add_child-IsTree parent child es longer h =
      modify-IsTree parent _ _
        (λ x named k. (k.0, All-append _ x.children (child ∷ []) k.1 (rw named longer, tt)))
        (modify-IsTree child _ es (λ x named k. (rw named longer, k.1)) h)

  remove_child-IsTree :
      (parent child : Name) (es : List (RibEntry ndn))
      → IsTree es
      → IsTree (remove_child ndn order parent child es)
  unfolding remove_child
  remove_child-IsTree parent child es h =
      modify-IsTree parent _ _ (λ x named k. (k.0, All-copy_if _ _ x.children k.1))
        (modify-IsTree child _ es (λ x named k. (tt, k.1)) h)

  add_child_to-IsTree :
      (parent : Option Name) (child : Name) (es : List (RibEntry ndn))
      → Below parent child
      → IsTree es
      → IsTree (add_child_to ndn order parent child es)
  unfolding add_child_to
  add_child_to-IsTree none child es below h = h
  add_child_to-IsTree (some parent) child es below h = add_child-IsTree parent child es below h

  remove_child_from-IsTree :
      (parent : Option Name) (child : Name) (es : List (RibEntry ndn))
      → IsTree es
      → IsTree (remove_child_from ndn order parent child es)
  unfolding remove_child_from
  remove_child_from-IsTree none child es h = h
  remove_child_from-IsTree (some parent) child es h = remove_child-IsTree parent child es h

  adopt-IsTree :
      (name : Name) (parent : Option Name) (cs es : List (RibEntry ndn))
      → All (λ c. size name < size c.name) cs
      → IsTree es
      → IsTree (adopt ndn order name parent cs es)
  unfolding adopt
  adopt-IsTree name parent [] es longer h = h
  adopt-IsTree name parent (c ∷ cs) es longer h = adopt-IsTree name parent cs _ longer.1 (
      if_keeps IsTree (same_parent ndn c.parent parent) _ es
        (add_child-IsTree name c.name _ longer.0 (remove_child_from-IsTree parent c.name es h)) h)

  hand_over-IsTree :
      (name : Name) (parent : Option Name) (cs : List Name) (es : List (RibEntry ndn))
      → All (Below parent) cs
      → IsTree es
      → IsTree (hand_over ndn order name parent cs es)
  unfolding hand_over
  hand_over-IsTree name parent [] es below h = h
  hand_over-IsTree name parent (c ∷ cs) es below h =
      hand_over-IsTree name parent cs _ below.1
        (add_child_to-IsTree parent c _ below.0 (remove_child-IsTree name c es h))

  put_entry-IsTree :
      (e : RibEntry ndn) (es : List (RibEntry ndn))
      → Grows e
      → IsTree es
      → IsTree (put_entry ndn order e es)
  unfolding put_entry
  put_entry-IsTree e [] g h = (g, tt)
  put_entry-IsTree e (x ∷ xs) g h =
      if_keeps IsTree (order.less e.name x.name) _ _ (g, h) (h.0, put_entry-IsTree e xs g h.1)

  pub parent_below-Below :
      (prefix : Name) (n : ℕ) (es : List (RibEntry ndn))
      → n ≤ size prefix
      → Below (parent_below ndn order prefix n es) prefix
  unfolding parent_below
  parent_below-Below prefix zero es le = tt
  parent_below-Below prefix (suc n) es le =
      elim (Option-cases (find ndn order (get_prefix prefix n) es)) [
        | inl missing ↦
            rw (missing, parent_below) (parent_below-Below prefix n es (omega (arith, le)))
        | inr (e, found) ↦
            rw (found, parent_below)
              (let named = ap size (find-lookup ndn order (get_prefix prefix n) es e found).2 in
                let short = order.size-get_prefix prefix n (omega (arith, le)) in
                omega (arith, le, named, short))
      ]

  run_of_longer :
      (prefix : Name) (es : List (RibEntry ndn))
      → has_name ndn order prefix (shape ndn order es) ≡ false
      → All (λ c. size prefix < size c.name) (run_of ndn order prefix es)
  run_of_longer prefix [] h = tt
  run_of_longer prefix (x ∷ xs) h = elim (Bool-cases (is_prefix_of prefix x.name)) [
    | inr off ↦ rw off tt
    | inl hit ↦ rw hit (
      order.size_lt prefix x.name hit
          (ground (arith, ndn.name_eq_iff prefix x.name, ndn.name_eq_iff x.name prefix)),
      run_of_longer prefix xs (ground arith),
    )
  ]

  descendants_longer :
      (prefix : Name) (es : List (RibEntry ndn))
      → IsDistinct ndn order (shape ndn order es)
      → All (λ c. size prefix < size c.name) (find_descendants ndn order prefix es)
  unfolding find_descendants
  descendants_longer prefix [] h = tt
  descendants_longer prefix (x ∷ xs) h = elim (Bool-cases (is_named ndn order prefix x)) [
    | inl hit ↦
        let others : has_name ndn order prefix (shape ndn order xs) ≡ false =
          subst (λ n. has_name ndn order n (shape ndn order xs) ≡ false)
            ((ndn.name_eq_iff x.name prefix).0 hit) h.0 in
        rw (hit, find_descendants) (run_of_longer prefix xs others)
    | inr off ↦ rw (off, find_descendants) (descendants_longer prefix xs h.1)
  ]

  insert_route-Grows :
      (route : Route) (e : RibEntry ndn) → Grows e → Grows (insert_route ndn route e).0
  unfolding insert_route
  insert_route-Grows route e h = elim (Option-cases (find_route ndn route e)) [
    | inl fresh ↦ rw (fresh, insert_route) h
    | inr (r, old) ↦ rw (old, insert_route) h
  ]

  erase_route-Grows : (route : Route) (e : RibEntry ndn) → Grows e → Grows (erase_route ndn route e)
  unfolding erase_route
  erase_route-Grows route e h = elim (Option-cases (find_route ndn route e)) [
    | inl fresh ↦ rw (fresh, erase_route) h
    | inr (r, old) ↦ rw (old, erase_route) h
  ]

  pub insert-IsTree :
      (p : Name) (route : Route) (rib : Rib ndn order)
      → IsValid ndn order rib
      → IsTree rib.table
      → IsTree (insert ndn order p route rib).table
  unfolding insert insert_route
  insert-IsTree p route rib valid h = elim (Option-cases (find ndn order p rib.table)) [
    | inl fresh ↦
        let e = (insert_route ndn route (new_rib_entry ndn order p)).0 in
        let with_new = put_entry ndn order e rib.table in
        let parent = find_parent ndn order p with_new in
        let hung = add_child_to ndn order parent p with_new in
        let distinct : IsDistinct ndn order (shape ndn order hung) =
          subst (IsDistinct ndn order)
            (sym (
              shape-add_child_to ndn order parent p with_new
              ∙ shape-put_entry ndn order e rib.table))
            (put-IsDistinct ndn order p (route ∷ []) (shape ndn order rib.table)
              (find-has_name ndn order p rib.table fresh) valid.distinct) in
        rw (fresh, insert)
          (adopt-IsTree p parent (find_descendants ndn order p hung) hung
            (descendants_longer p hung distinct)
            (add_child_to-IsTree parent p with_new
              (parent_below-Below p (size p) with_new (omega arith))
              (put_entry-IsTree e rib.table (tt, tt) h)))
    | inr (e, found) ↦ elim (Option-cases (find_route ndn route e)) [
      | inl new ↦
          rw (found, insert)
            (rw new (modify-IsTree p _ rib.table (λ x named k. insert_route-Grows route x k) h))
      | inr (r, old) ↦ rw (found, insert) (rw old (modify-IsTree p _ rib.table (λ x named k. k) h))
    ]
  ]

  children-Below :
      (e : RibEntry ndn) (cs : List Name)
      → Below e.parent e.name
      → All (λ c. size e.name < size c) cs
      → All (Below e.parent) cs
  children-Below e [] below h = tt
  children-Below e (c ∷ cs) below h = (through e.parent below, children-Below e cs below h.1)
    where
      through : (parent : Option Name) → Below parent e.name → Below parent c
      through none b = tt
      through (some parent) b = omega (arith, b, h.0)

  erase_entry-IsTree :
      (e : RibEntry ndn) (es : List (RibEntry ndn))
      → Grows e
      → IsTree es
      → IsTree (erase_entry ndn order e es)
  unfolding erase_entry
  erase_entry-IsTree e es g h = All-erase_if Grows _ _ (
      hand_over-IsTree e.name e.parent e.children _ (children-Below e e.children g.0 g.1)
        (remove_child_from-IsTree e.parent e.name es h))

  pub erase-IsTree :
      (p : Name) (route : Route) (rib : Rib ndn order)
      → IsTree rib.table
      → IsTree (erase ndn order p route rib).table
  unfolding erase
  erase-IsTree p route rib h = elim (Option-cases (find ndn order p rib.table)) [
    | inl missing ↦ rw (missing, erase) h
    | inr (e, found) ↦ elim (Option-cases (find_route ndn route e)) [
      | inl fresh ↦ rw (found, erase) (rw fresh h)
      | inr (r, old) ↦
          rw (found, erase)
            (rw old (
              emptied (erase_route ndn route e) (erase_route ndn route e).routes
                (erase_route-Grows route e (All-find_if Grows _ rib.table h e found))))
    ]
  ]
    where
      less : List (RibEntry ndn)
      less = modify ndn order p (erase_route ndn route) rib.table

      kept : IsTree less
      kept = modify-IsTree p _ rib.table (λ x named k. erase_route-Grows route x k) h

      emptied :
          (e : RibEntry ndn) (rs : List Route)
          → Grows e
          → IsTree (elim rs as (λ _. List (RibEntry ndn)) [
            | [] ↦ erase_entry ndn order e less
            | r ∷ rest ↦ less
          ])
      emptied e [] g = erase_entry-IsTree e less g kept
      emptied e (r ∷ rest) g = kept
