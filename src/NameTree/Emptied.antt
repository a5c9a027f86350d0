-- ===== src/NameTree/Emptied.antt =====
-- NameTree::eraseEntryIfEmpty of daemon/table/name-tree.cpp, with its recursion.
use nfd_pitless.Base.{
  ℕ, zero, suc, ◌≡◌, refl, sym, subst, Bool, true, false, Option, none, some, arith, Bool-cases,
  inl, inr,
}
use nfd_pitless.Ndn.{Ndn}
use nfd_pitless.NameTree.{is_bare, Hashing, Entry, NameTree, entry_at}
use nfd_pitless.NameTree.Invariant.{IsTree}
use nfd_pitless.NameTree.Erasure.{
  is_empty, detach, unlink, erase_with_parent, erase_found, erase_up,
}
use nfd_pitless.NameTree.Erased.{
  IsPruned, unmoved-IsPruned, composed-IsPruned, shrink-IsPruned, removed-IsPruned,
}

module _ (ndn : Ndn) (hashing : Hashing ndn) where
  abbrev Tree : Type 0
  Tree = NameTree ndn hashing

  above-IsPruned :
      (above : ndn.Name → Tree → Tree) (parent : Option ndn.Name) (t : Tree)
      → ((q : ndn.Name) (s : Tree) → IsTree ndn hashing s → IsPruned ndn hashing s (above q s))
      → IsTree ndn hashing t
      → IsPruned ndn hashing t (erase_with_parent ndn hashing above parent t)
  unfolding erase_with_parent
  above-IsPruned above none t h tree = unmoved-IsPruned ndn hashing t tree
  above-IsPruned above (some parent) t h tree = h parent t tree

  -- An empty entry is erased: what is left is pruned, and without it.
  pub emptied :
      (above : ndn.Name → Tree → Tree) (name : ndn.Name) (e : Entry ndn hashing) (t : Tree)
      → ((q : ndn.Name) (s : Tree) → IsTree ndn hashing s → IsPruned ndn hashing s (above q s))
      → IsTree ndn hashing t
      → entry_at ndn hashing name t ≡ some e
      → is_empty ndn hashing e ≡ true
      → ((erase_found ndn hashing above (some e) name t).1 ≡ true)
        × (IsPruned ndn hashing t (erase_found ndn hashing above (some e) name t).0
            × (entry_at ndn hashing name (erase_found ndn hashing above (some e) name t).0 ≡ none))
  unfolding erase_found
  emptied above name e t h tree found empty =
      let bare : is_bare e.attached ≡ true = ground (arith, empty) in
      let removed = removed-IsPruned ndn hashing name e t tree found bare in
      let without = unlink ndn hashing name e.hash (detach ndn hashing e.parent name t) in
      let up = above-IsPruned above e.parent without h removed.0.in_order in
      let small =
        shrink-IsPruned ndn hashing (erase_with_parent ndn hashing above e.parent without)
          up.in_order in
      let rest = composed-IsPruned ndn hashing without _ _ up small in
      rw (empty, erase_found)
        (
          refl,
          (composed-IsPruned ndn hashing t without _ removed.0 rest, rest.no_more name removed.1),
        )

  pub not_emptied :
      (above : ndn.Name → Tree → Tree) (name : ndn.Name) (e : Entry ndn hashing) (t : Tree)
      → is_empty ndn hashing e ≡ false
      → erase_found ndn hashing above (some e) name t ≡ (t, false)
  unfolding erase_found
  not_emptied above name e t full = rw (full, erase_found) refl

  found-IsPruned :
      (above : ndn.Name → Tree → Tree) (o : Option (Entry ndn hashing)) (name : ndn.Name) (t : Tree)
      → ((q : ndn.Name) (s : Tree) → IsTree ndn hashing s → IsPruned ndn hashing s (above q s))
      → IsTree ndn hashing t
      → entry_at ndn hashing name t ≡ o
      → IsPruned ndn hashing t (erase_found ndn hashing above o name t).0
  unfolding erase_found
  found-IsPruned above none name t h tree found = unmoved-IsPruned ndn hashing t tree
  found-IsPruned above (some e) name t h tree found = elim (Bool-cases (is_empty ndn hashing e)) [
    | inl empty ↦ (emptied above name e t h tree found empty).1.0
    | inr full ↦
        subst (λ (r : Tree × Bool). IsPruned ndn hashing t r.0)
          (sym (not_emptied above name e t full)) (unmoved-IsPruned ndn hashing t tree)
  ]

  pub up-IsPruned :
      (fuel : ℕ) (name : ndn.Name) (t : Tree)
      → IsTree ndn hashing t
      → IsPruned ndn hashing t (erase_up ndn hashing fuel name t).0
  unfolding erase_up
  up-IsPruned zero name t tree = unmoved-IsPruned ndn hashing t tree
  up-IsPruned (suc fuel) name t tree =
      found-IsPruned (λ parent rest. (erase_up ndn hashing fuel parent rest).0)
        (entry_at ndn hashing name t) name t (λ q s h. up-IsPruned fuel q s h) tree refl
