-- ===== src/NameTree/Erasing.antt =====
-- NameTree::eraseEntryIfEmpty of daemon/table/name-tree.cpp, as its callers see it.
use nfd_pitless.Base.{ℕ, suc, ◌≡◌, ◌∙◌, sym, ap, true, false, Option, none, some}
use nfd_pitless.Ndn.{Ndn}
use nfd_pitless.NameTree.{Hashing, Entry, NameTree, entry_at, find_exact_match}
use nfd_pitless.NameTree.Buckets.{on_some}
use nfd_pitless.NameTree.Invariant.{IsTree, find_exact_match_lem}
use nfd_pitless.NameTree.Prefixes.{found_at}
use nfd_pitless.NameTree.Erasure.{is_empty, erase_found, erase_up, erase_entry_if_empty}
use nfd_pitless.NameTree.Erased.{hung, IsPruned}
use nfd_pitless.NameTree.Emptied.{emptied, not_emptied, up-IsPruned}

module _ (ndn : Ndn) (hashing : Hashing ndn) where
  erase_entry_if_empty-IsPruned :
      (name : ndn.Name) (t : NameTree ndn hashing)
      → IsTree ndn hashing t
      → IsPruned ndn hashing t (erase_entry_if_empty ndn hashing name t).0
  unfolding erase_entry_if_empty
  erase_entry_if_empty-IsPruned name t tree =
      up-IsPruned ndn hashing (suc (ndn.size name)) name t tree

  pub erase_entry_if_empty-IsTree :
      (name : ndn.Name) (t : NameTree ndn hashing)
      → IsTree ndn hashing t
      → IsTree ndn hashing (erase_entry_if_empty ndn hashing name t).0
  erase_entry_if_empty-IsTree name t tree = (erase_entry_if_empty-IsPruned name t tree).in_order

  -- In a name tree of a power of two of buckets, at most 2 ^ 32, whose entries stand, one for each
  -- name, in the buckets of their hashes: erasing an entry that is empty, and its ancestors that are empty then, with the shrinking of the
  -- hash table in between, loses nothing that the tables have attached: findExactMatch finds for every
  -- name what it found attached before, where that is not nothing.
  pub hung-erase_entry_if_empty :
      (name : ndn.Name) (t : NameTree ndn hashing)
      → IsTree ndn hashing t
      → (q : ndn.Name)
      → hung (found_at ndn hashing q (erase_entry_if_empty ndn hashing name t).0)
        ≡ hung (found_at ndn hashing q t)
  hung-erase_entry_if_empty name t tree q =
      let pruned = erase_entry_if_empty-IsPruned name t tree in
      ap (λ o. hung (on_some (λ e. e.attached) o))
        (find_exact_match_lem ndn hashing (erase_entry_if_empty ndn hashing name t).0
          pruned.in_order q)
      ∙ (pruned.still_hung q
          ∙ ap (λ o. hung (on_some (λ e. e.attached) o))
              (sym (find_exact_match_lem ndn hashing t tree q)))

  one_more :
      (fuel : ℕ) (name : ndn.Name) (o : Option (Entry ndn hashing)) (t : NameTree ndn hashing)
      → entry_at ndn hashing name t ≡ o
      → erase_up ndn hashing (suc fuel) name t
        ≡ erase_found ndn hashing
            (λ parent rest. (erase_up ndn hashing fuel parent rest).0)
            o
            name
            t
  unfolding erase_up
  one_more fuel name o t there =
      ap
        (λ o.
          erase_found ndn hashing (λ parent rest. (erase_up ndn hashing fuel parent rest).0) o name
            t)
        there

  -- eraseEntryIfEmpty of an entry without children and attachments returns true, and findExactMatch
  -- does not find the name after it; of another entry it returns false and changes nothing.
  pub erase_entry_if_empty_lem :
      (name : ndn.Name) (e : Entry ndn hashing) (t : NameTree ndn hashing)
      → IsTree ndn hashing t
      → find_exact_match ndn hashing name t ≡ some e
      → (is_empty ndn hashing e ≡ true
          → ((erase_entry_if_empty ndn hashing name t).1 ≡ true)
            × (find_exact_match ndn hashing name (erase_entry_if_empty ndn hashing name t).0
                ≡ none))
        × (is_empty ndn hashing e ≡ false → erase_entry_if_empty ndn hashing name t ≡ (t, false))
  unfolding erase_entry_if_empty
  erase_entry_if_empty_lem name e t tree found =
      let there : entry_at ndn hashing name t ≡ some e =
        sym (find_exact_match_lem ndn hashing t tree name) ∙ found in
      let opened = one_more (ndn.size name) name (some e) t there in
      let above : ndn.Name → NameTree ndn hashing → NameTree ndn hashing =
        λ parent rest. (erase_up ndn hashing (ndn.size name) parent rest).0 in
      (
        λ empty.
            let gone =
              emptied ndn hashing above name e t
                (λ q s h. up-IsPruned ndn hashing (ndn.size name) q s h) tree there empty in
            rw opened (
              gone.0,
              find_exact_match_lem ndn hashing (erase_found ndn hashing above (some e) name t).0
                    gone.1.0.in_order name
                  ∙ gone.1.1,
            ),
        λ full. opened ∙ not_emptied ndn hashing above name e t full,
      )
