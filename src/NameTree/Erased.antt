-- ===== src/NameTree/Erased.antt =====
-- What NameTree::eraseEntryIfEmpty of daemon/table/name-tree.cpp leaves.
use nfd_pitless.Base.{
  ◌≡◌, ◌∙◌, refl, sym, ap, subst, true, not, Option, none, some, Bool-cases, ◌⊎◌, inl, inr,
}
use nfd_pitless.Ndn.{Ndn}
use nfd_pitless.NameTree.{Attached, is_bare, Hashing, Entry, NameTree, is_named, entry_at}
use nfd_pitless.NameTree.Buckets.{on_some}
use nfd_pitless.NameTree.Invariant.{IsTree}
use nfd_pitless.NameTree.Writes.{
  attached_at, parent_at, parent_at-write, write-IsTree, entry_at-write, attached_at-write,
}
use nfd_pitless.NameTree.Longest.{selected}
use nfd_pitless.NameTree.Erasure.{erase_child, detach, unlink, shrink}
use nfd_pitless.NameTree.Unlinked.{
  shrink-IsTree, unlink-IsTree, entry_at-unlink_itself, entry_at-unlink,
}

-- What is attached, where it is something.
abbrev pub hung : Option Attached → Option Attached
hung o = selected (λ a. not (is_bare a)) o

module _ (ndn : Ndn) (hashing : Hashing ndn) where
  abbrev Tree : Type 0
  Tree = NameTree ndn hashing

  -- The later tree is in order, has what hung in the earlier one, and no name that was not there.
  pub record IsPruned (t after : Tree) : Type 0 where
    pub in_order : IsTree ndn hashing after
    pub still_hung :
        (q : ndn.Name) → hung (attached_at ndn hashing q after) ≡ hung (attached_at ndn hashing q t)
    pub no_more :
        (q : ndn.Name) → entry_at ndn hashing q t ≡ none → entry_at ndn hashing q after ≡ none
    pub same_parents :
        (q : ndn.Name)
        → (entry_at ndn hashing q after ≡ none)
          ⊎ (parent_at ndn hashing q after ≡ parent_at ndn hashing q t)

  pub unmoved-IsPruned : (t : Tree) → IsTree ndn hashing t → IsPruned t t
  unmoved-IsPruned t tree = record {
    in_order = tree;
    still_hung = λ q. refl;
    no_more = λ q absent. absent;
    same_parents = λ q. inr refl;
  }

  pub composed-IsPruned : (a b c : Tree) → IsPruned a b → IsPruned b c → IsPruned a c
  composed-IsPruned a b c h k = record {
    in_order = k.in_order;
    still_hung = λ q. k.still_hung q ∙ h.still_hung q;
    no_more = λ q absent. k.no_more q (h.no_more q absent);
    same_parents = λ q. elim (k.same_parents q) [
      | inl gone ↦ inl gone
      | inr second ↦ elim (h.same_parents q) [
        | inl gone ↦ inl (k.no_more q gone)
        | inr first ↦ inr (second ∙ first)
      ]
    ];
  }

  pub shrink-IsPruned : (t : Tree) → IsTree ndn hashing t → IsPruned t (shrink ndn hashing t)
  shrink-IsPruned t tree =
      let shrunk = shrink-IsTree ndn hashing t tree in
      record {
        in_order = shrunk.0;
        still_hung = λ q. ap (λ o. hung (on_some (λ e. e.attached) o)) (shrunk.1 q);
        no_more = λ q absent. shrunk.1 q ∙ absent;
        same_parents = λ q. inr (ap (on_some (λ e. e.parent)) (shrunk.1 q));
      }

  detach-IsPruned :
      (parent : Option ndn.Name) (name : ndn.Name) (t : Tree)
      → IsTree ndn hashing t
      → IsPruned t (detach ndn hashing parent name t)
  unfolding detach
  detach-IsPruned none name t tree = unmoved-IsPruned t tree
  detach-IsPruned (some parent) name t tree = record {
    in_order = write-IsTree ndn hashing parent _ t (λ e. (refl, refl)) tree;
    still_hung =
        λ q. ap hung (attached_at-write ndn hashing parent _ t (λ e. (refl, refl)) (λ e. refl) q);
    no_more = λ q absent.
        entry_at-write ndn hashing parent _ t (λ e. (refl, refl)) q ∙ ap (on_some _) absent;
    same_parents =
        λ q. inr (parent_at-write ndn hashing parent _ t (λ e. (refl, refl)) (λ e. refl) q);
  }

  unlink-IsPruned :
      (name : ndn.Name) (e : Entry ndn hashing) (t : Tree)
      → IsTree ndn hashing t
      → entry_at ndn hashing name t ≡ some e
      → is_bare e.attached ≡ true
      → IsPruned t (unlink ndn hashing name e.hash t)
  unlink-IsPruned name e t tree found bare = record {
    in_order = unlink-IsTree ndn hashing name e t tree found;
    still_hung = same;
    no_more = λ q absent. elim (Bool-cases (ndn.name_eq q name)) [
      | inl hit ↦
          ap (λ n. entry_at ndn hashing n (unlink ndn hashing name e.hash t))
            ((ndn.name_eq_iff q name).0 hit)
          ∙ entry_at-unlink_itself ndn hashing name e t tree found
      | inr off ↦ entry_at-unlink ndn hashing name e t q tree found off ∙ absent
    ];
    same_parents = λ q. elim (Bool-cases (ndn.name_eq q name)) [
      | inl hit ↦ inl (
          ap (λ n. entry_at ndn hashing n (unlink ndn hashing name e.hash t))
            ((ndn.name_eq_iff q name).0 hit)
          ∙ entry_at-unlink_itself ndn hashing name e t tree found)
      | inr off ↦
          inr (ap (on_some (λ f. f.parent)) (entry_at-unlink ndn hashing name e t q tree found off))
    ];
  }
    where
      same :
          (q : ndn.Name)
          → hung (attached_at ndn hashing q (unlink ndn hashing name e.hash t))
            ≡ hung (attached_at ndn hashing q t)
      same q = elim (Bool-cases (ndn.name_eq q name)) [
        | inr off ↦
            ap (λ o. hung (on_some (λ f. f.attached) o))
              (entry_at-unlink ndn hashing name e t q tree found off)
        | inl hit ↦ rw ((ndn.name_eq_iff q name).0 hit) (
            ap (λ o. hung (on_some (λ f. f.attached) o))
              (entry_at-unlink_itself ndn hashing name e t tree found)
            ∙ sym (ap (λ o. hung (on_some (λ f. f.attached) o)) found ∙ rw bare refl))
      ]

  -- The entry after its parent forgets it.
  detach_found :
      (parent : Option ndn.Name) (name : ndn.Name) (e : Entry ndn hashing) (t : Tree)
      → entry_at ndn hashing name t ≡ some e
      → (f : Entry ndn hashing) × ((entry_at ndn hashing name (detach ndn hashing parent name t)
            ≡ some f)
          × ((f.hash ≡ e.hash) × (f.attached ≡ e.attached)))
  unfolding detach
  detach_found none name e t found = (e, (found, (refl, refl)))
  detach_found (some parent) name e t found =
      let rewritten =
        entry_at-write ndn hashing parent
          (λ g. record g { children = erase_child ndn hashing name g.children }) t
          (λ g. (refl, refl)) name
        ∙ ap (on_some _) found in
      elim (Bool-cases (is_named ndn hashing parent e)) [
        | inl hit ↦ (_, (rewritten, rw hit (refl, refl)))
        | inr off ↦ (_, (rewritten, rw off (refl, refl)))
      ]

  pub removed-IsPruned :
      (name : ndn.Name) (e : Entry ndn hashing) (t : Tree)
      → IsTree ndn hashing t
      → entry_at ndn hashing name t ≡ some e
      → is_bare e.attached ≡ true
      → IsPruned t (unlink ndn hashing name e.hash (detach ndn hashing e.parent name t))
        × (entry_at ndn hashing name
              (unlink ndn hashing name e.hash (detach ndn hashing e.parent name t))
            ≡ none)
  removed-IsPruned name e t tree found bare =
      let detached = detach ndn hashing e.parent name t in
      let first = detach-IsPruned e.parent name t tree in
      let left = detach_found e.parent name e t found in
      let f = left.0 in
      let there : entry_at ndn hashing name detached ≡ some f = left.1.0 in
      let also_bare : is_bare f.attached ≡ true = ap is_bare left.1.1.1 ∙ bare in
      let as_e : unlink ndn hashing name f.hash detached ≡ unlink ndn hashing name e.hash detached =
        ap (λ h. unlink ndn hashing name h detached) left.1.1.0 in
      (
        composed-IsPruned t detached _ first (
            subst (IsPruned detached) as_e
              (unlink-IsPruned name f detached first.in_order there also_bare)),
        ap (entry_at ndn hashing name) (sym as_e)
            ∙ entry_at-unlink_itself ndn hashing name f detached first.in_order there,
      )
