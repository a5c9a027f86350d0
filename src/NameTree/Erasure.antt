-- ===== src/NameTree/Erasure.antt =====
-- NameTree::eraseEntryIfEmpty of daemon/table/name-tree.cpp.
-- The walk to the parents runs on fuel: a parent has one component less.
use nfd_pitless.Base.{
  ℕ, zero, suc, ◌-◌, ◌/◌, ◌%◌, Bool, true, false, ◌&&◌, List, [], ◌∷◌, Option, none, some,
  if◌then◌else◌, ltb, leb, erase_if,
}
use nfd_pitless.Ndn.{Ndn}
use nfd_pitless.NameTree.{
  is_nil, is_bare, change_at, last_first, Hashing, Entry, NameTree, is_named, entry_at, write,
  resize,
}

module _ (ndn : Ndn) (hashing : Hashing ndn) where
  -- Entry::isEmpty
  abbrev pub is_empty : Entry ndn hashing → Bool
  is_empty e = is_nil e.children && is_bare e.attached

  -- The last child takes the place of the one that goes.
  abbrev pub erase_child : ndn.Name → List ndn.Name → List ndn.Name
  erase_child child [] = []
  erase_child child (c ∷ cs) =
      if ndn.name_eq c child then last_first cs else c ∷ erase_child child cs

  unfoldable pub detach : Option ndn.Name → ndn.Name → NameTree ndn hashing → NameTree ndn hashing
  detach none child t = t
  detach (some parent) child t =
      write ndn hashing parent (λ e. record e { children = erase_child child e.children }) t

  -- The node leaves the chain of its bucket.
  unfoldable pub unlink : ndn.Name → ℕ → NameTree ndn hashing → NameTree ndn hashing
  unfolding change_at
  unlink name hash t = record t {
    n_items = t.n_items - 1;
    buckets = change_at (hash % t.n_buckets) (erase_if (is_named ndn hashing name)) t.buckets;
  }

  unfoldable pub shrink : NameTree ndn hashing → NameTree ndn hashing
  unfolding resize
  shrink t =
      let new_n_buckets = t.n_buckets / 2 in
      if leb t.min_n_buckets new_n_buckets && ltb t.n_items t.shrink_threshold
      then resize ndn hashing new_n_buckets t
      else t

  -- `erase_parent` is the recursive call.
  unfoldable pub erase_with_parent :
      (ndn.Name → NameTree ndn hashing → NameTree ndn hashing)
      → Option ndn.Name
      → NameTree ndn hashing
      → NameTree ndn hashing
  erase_with_parent erase_parent none t = t
  erase_with_parent erase_parent (some parent) t = erase_parent parent t

  -- What is done at a pointer, with the entry that it leads to; one that leads to none does not occur.
  unfoldable pub erase_found :
      (ndn.Name → NameTree ndn hashing → NameTree ndn hashing)
      → Option (Entry ndn hashing)
      → ndn.Name
      → NameTree ndn hashing
      → NameTree ndn hashing × Bool
  unfolding detach unlink shrink erase_with_parent is_bare
  erase_found erase_parent none name t = (t, false)
  erase_found erase_parent (some e) name t =
      if is_empty e
      then (
        shrink
            (erase_with_parent erase_parent e.parent (unlink name e.hash (detach e.parent name t))),
        true,
      )
      else (t, false)

  unfoldable pub erase_up : ℕ → ndn.Name → NameTree ndn hashing → NameTree ndn hashing × Bool
  unfolding entry_at erase_found
  erase_up zero name t = (t, false)
  erase_up (suc fuel) name t =
      erase_found (λ parent rest. (erase_up fuel parent rest).0) (entry_at ndn hashing name t) name
        t

  unfoldable pub erase_entry_if_empty :
      ndn.Name → NameTree ndn hashing → NameTree ndn hashing × Bool
  unfolding erase_up
  erase_entry_if_empty name t = erase_up (suc (ndn.size name)) name t
