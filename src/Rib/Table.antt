-- ===== src/Rib/Table.antt =====
-- The table of rib/rib.cpp with its tree of namespaces. The table is in the order of its std::map;
-- the face lookup table is an association list.
use nfd_pitless.Base.{
  ℕ, zero, suc, ◌+◌, ◌-◌, Bool, not, List, [], ◌∷◌, ◌++◌, Option, none, some, if◌then◌else◌, ◌==◌,
  find_if, copy_if, erase_if,
}
use nfd_pitless.Ndn.{Ndn}
use nfd_pitless.Rib.{
  Route, RibEntry, compare_face_id_and_origin, compare_face_id, update_route, assign_route,
  find_route, insert_route, erase_route, has_face_id, same_parent,
}
use nfd_pitless.Rib.Names.{NameOrder}

module _ (ndn : Ndn) (order : NameOrder ndn) where
  open ndn use {name_eq, size, get_prefix, is_prefix_of}

  pub record Rib : Type 0 where
    pub table : List (RibEntry ndn)
    pub face_map : List (ℕ × List ndn.Name)
    pub n_items : ℕ

  abbrev pub is_named : ndn.Name → RibEntry ndn → Bool
  is_named name e = name_eq e.name name

  -- m_rib.find
  abbrev pub find : ndn.Name → List (RibEntry ndn) → Option (RibEntry ndn)
  find name table = find_if (is_named name) table

  -- An assignment through a pointer to an entry.
  unfoldable pub modify :
      ndn.Name → (RibEntry ndn → RibEntry ndn) → List (RibEntry ndn) → List (RibEntry ndn)
  modify name f [] = []
  modify name f (e ∷ es) = if is_named name e then f e ∷ es else e ∷ modify name f es

  -- m_rib[prefix] = entry, for a name that is not there.
  unfoldable pub put_entry : RibEntry ndn → List (RibEntry ndn) → List (RibEntry ndn)
  put_entry e [] = e ∷ []
  put_entry e (f ∷ fs) = if order.less e.name f.name then e ∷ f ∷ fs else f ∷ put_entry e fs

  -- The face lookup table.
  unfoldable pub register : ℕ → ndn.Name → List (ℕ × List ndn.Name) → List (ℕ × List ndn.Name)
  register face_id name [] = (face_id, name ∷ []) ∷ []
  register face_id name ((f, names) ∷ rest) =
      if f == face_id
      then (f, names ++ name ∷ []) ∷ rest
      else (f, names) ∷ register face_id name rest

  abbrev pub remove_name : ndn.Name → List ndn.Name → List ndn.Name
  remove_name name names = copy_if (λ n. not (name_eq n name)) names

  unfoldable pub unregister : ℕ → ndn.Name → List (ℕ × List ndn.Name) → List (ℕ × List ndn.Name)
  unregister face_id name [] = (face_id, []) ∷ []
  unregister face_id name ((f, names) ∷ rest) =
      if f == face_id
      then (f, remove_name name names) ∷ rest
      else (f, names) ∷ unregister face_id name rest

  -- Rib::findParent, from the prefix with `n` components less one on.
  unfoldable pub parent_below : ndn.Name → ℕ → List (RibEntry ndn) → Option ndn.Name
  parent_below prefix zero table = none
  parent_below prefix (suc n) table = elim (find (get_prefix prefix n) table) [
    | some e ↦ some e.name
    | none ↦ parent_below prefix n table
  ]

  abbrev pub find_parent : ndn.Name → List (RibEntry ndn) → Option ndn.Name
  find_parent prefix table = parent_below prefix (size prefix) table

  -- The entries from the front whose names begin with the prefix.
  abbrev pub run_of : ndn.Name → List (RibEntry ndn) → List (RibEntry ndn)
  run_of prefix [] = []
  run_of prefix (e ∷ es) = if is_prefix_of prefix e.name then e ∷ run_of prefix es else []

  -- Rib::findDescendants
  unfoldable pub find_descendants : ndn.Name → List (RibEntry ndn) → List (RibEntry ndn)
  find_descendants prefix [] = []
  find_descendants prefix (e ∷ es) =
      if is_named prefix e then run_of prefix es else find_descendants prefix es

  -- RibEntry::addChild and RibEntry::removeChild
  unfoldable pub add_child : ndn.Name → ndn.Name → List (RibEntry ndn) → List (RibEntry ndn)
  unfolding modify
  add_child parent child table =
      modify parent (λ e. record e { children = e.children ++ child ∷ [] })
        (modify child (λ e. record e { parent = some parent }) table)

  unfoldable pub remove_child : ndn.Name → ndn.Name → List (RibEntry ndn) → List (RibEntry ndn)
  unfolding modify
  remove_child parent child table =
      modify parent (λ e. record e { children = remove_name child e.children })
        (modify child (λ e. record e { parent = none }) table)

  -- The two with a parent that may be null.
  unfoldable pub add_child_to :
      Option ndn.Name → ndn.Name → List (RibEntry ndn) → List (RibEntry ndn)
  unfolding add_child
  add_child_to none child table = table
  add_child_to (some parent) child table = add_child parent child table

  unfoldable pub remove_child_from :
      Option ndn.Name → ndn.Name → List (RibEntry ndn) → List (RibEntry ndn)
  unfolding remove_child
  remove_child_from none child table = table
  remove_child_from (some parent) child table = remove_child parent child table

  -- The loop of Rib::insert over the descendants of a new entry.
  unfoldable pub adopt :
      ndn.Name → Option ndn.Name → List (RibEntry ndn) → List (RibEntry ndn) → List (RibEntry ndn)
  unfolding add_child remove_child_from
  adopt name parent [] table = table
  adopt name parent (child ∷ rest) table = adopt name parent rest (
      if same_parent ndn child.parent parent
      then add_child name child.name (remove_child_from parent child.name table)
      else table)

  abbrev pub new_rib_entry : ndn.Name → RibEntry ndn
  new_rib_entry name = record {
    name = name;
    children = [];
    parent = none;
    routes = [];
    inherited_routes = [];
    n_routes_with_capture_set = 0;
  }

  -- Rib::insert. afterInsertEntry is a signal to the outside.
  unfoldable pub insert : ndn.Name → Route → Rib → Rib
  unfolding register put_entry add_child_to find_descendants adopt parent_below
  insert prefix route rib =
      let with_new = put_entry (insert_route ndn route (new_rib_entry prefix)).0 rib.table in
      let parent = find_parent prefix with_new in
      let hung = add_child_to parent prefix with_new in
      let registered = register route.face_id prefix rib.face_map in
      let refreshed : Route → Route =
        λ r. record (update_route route r) { expiration_event = route.expiration_event } in
      elim (find prefix rib.table) [
        | none ↦ record {
          table = adopt prefix parent (find_descendants prefix hung) hung;
          face_map = registered;
          n_items = rib.n_items + 1;
        }
        | some e ↦ elim (find_route ndn route e) [
          | none ↦ record {
            table = modify prefix (λ e. (insert_route ndn route e).0) rib.table;
            face_map = registered;
            n_items = rib.n_items + 1;
          }
          | some r ↦ record rib {
            table =
                modify prefix
                  (λ e. record e {
                    routes =
                        assign_route (λ r. compare_face_id_and_origin r route) refreshed e.routes;
                  })
                  rib.table;
          }
        ]
      ]

  -- The loop of Rib::eraseEntry over the children.
  unfoldable pub hand_over :
      ndn.Name → Option ndn.Name → List ndn.Name → List (RibEntry ndn) → List (RibEntry ndn)
  unfolding remove_child add_child_to
  hand_over name parent [] table = table
  hand_over name parent (child ∷ rest) table =
      hand_over name parent rest (add_child_to parent child (remove_child name child table))

  -- Rib::eraseEntry; afterEraseEntry is a signal to the outside.
  unfoldable pub erase_entry : RibEntry ndn → List (RibEntry ndn) → List (RibEntry ndn)
  unfolding remove_child_from hand_over
  erase_entry e table =
      erase_if (is_named e.name)
        (hand_over e.name e.parent e.children (remove_child_from e.parent e.name table))

  -- Rib::erase
  unfoldable pub erase : ndn.Name → Route → Rib → Rib
  unfolding unregister erase_entry modify
  erase prefix route rib = elim (find prefix rib.table) [
    | none ↦ rib
    | some e ↦ elim (find_route ndn route e) [
      | none ↦ rib
      | some r ↦
          let erased = erase_route ndn route e in
          let table = modify prefix (erase_route ndn route) rib.table in
          record {
            table = elim erased.routes [ [] ↦ erase_entry erased table | _ ↦ table ];
            face_map =
                if has_face_id ndn route.face_id erased
                then rib.face_map
                else unregister route.face_id prefix rib.face_map;
            n_items = rib.n_items - 1;
          }
    ]
  ]

  -- Rib::findRoutesWithFaceId
  abbrev pub pairs : ndn.Name → List Route → List (ndn.Name × Route)
  pairs name [] = []
  pairs name (r ∷ rs) = (name, r) ∷ pairs name rs

  unfoldable pub routes_of : ℕ → List ndn.Name → List (RibEntry ndn) → List (ndn.Name × Route)
  routes_of face_id [] table = []
  routes_of face_id (name ∷ names) table =
      (elim (find name table) [
        | none ↦ []
        | some e ↦ pairs name (copy_if (compare_face_id face_id) e.routes)
      ])
      ++ routes_of face_id names table

  unfoldable pub find_routes_with_face_id : ℕ → Rib → List (ndn.Name × Route)
  unfolding routes_of
  find_routes_with_face_id face_id rib =
      elim (find_if (λ (p : ℕ × List ndn.Name). p.0 == face_id) rib.face_map) [
        | none ↦ []
        | some (f, names) ↦ routes_of face_id names rib.table
      ]
