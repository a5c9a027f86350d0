-- ===== src/NameTree/Ending.antt =====
-- The recursion of NameTree::eraseEntryIfEmpty and the loop of NameTree::findLongestPrefixMatch for an
-- entry, in daemon/table/name-tree.cpp, go up to the root at most.
use nfd_pitless.Base.{
  ℕ, zero, suc, ◌≤◌, ◌<◌, ◌≡◌, ◌∙◌, refl, sym, ap, Bool, true, ◌&&◌, Option, none, some, arith,
  if◌then◌else◌, Bool-cases, inl, inr,
}
use nfd_pitless.Ndn.{Ndn}
use nfd_pitless.NameTree.{is_bare, is_nil, Hashing, Entry, NameTree, entry_at}
use nfd_pitless.NameTree.Matching.{find_above, find_above_from}
use nfd_pitless.NameTree.Buckets.{on_some}
use nfd_pitless.NameTree.Invariant.{IsTree}
use nfd_pitless.NameTree.Writes.{parent_at}
use nfd_pitless.NameTree.Erasure.{
  detach, unlink, shrink, erase_with_parent, erase_found, erase_up, erase_entry_if_empty,
}
use nfd_pitless.NameTree.Erased.{IsPruned, removed-IsPruned}
use nfd_pitless.NameTree.Emptied.{up-IsPruned}
use nfd_pitless.NameTree.Rising.{IsRising}

module _ (ndn : Ndn) (hashing : Hashing ndn) where
  pruned-IsRising :
      (t after : NameTree ndn hashing)
      → IsPruned ndn hashing t after
      → IsRising ndn hashing t
      → IsRising ndn hashing after
  pruned-IsRising t after pruned rising q p has = elim (pruned.same_parents q) [
    | inr same ↦ rising q p (sym same ∙ has)
    | inl gone ↦ absurd (gone_has gone)
  ]
    where
      gone_has : entry_at ndn hashing q after ≡ none → ⊥
      gone_has gone =
          let nothing : none ≡ some (some p) = sym (ap (on_some (λ e. e.parent)) gone) ∙ has in cc

  pub erase-IsRising :
      (name : ndn.Name) (t : NameTree ndn hashing)
      → IsTree ndn hashing t
      → IsRising ndn hashing t
      → IsRising ndn hashing (erase_entry_if_empty ndn hashing name t).0
  unfolding erase_entry_if_empty
  erase-IsRising name t tree rising =
      pruned-IsRising t _ (up-IsPruned ndn hashing (suc (ndn.size name)) name t tree) rising

  parents_alike :
      (above other : ndn.Name → NameTree ndn hashing → NameTree ndn hashing)
      (parent : Option ndn.Name) (t : NameTree ndn hashing)
      → ((p : ndn.Name) → parent ≡ some p → above p t ≡ other p t)
      → erase_with_parent ndn hashing above parent t ≡ erase_with_parent ndn hashing other parent t
  unfolding erase_with_parent
  parents_alike above other none t h = refl
  parents_alike above other (some p) t h = h p refl

  found_alike :
      (above other : ndn.Name → NameTree ndn hashing → NameTree ndn hashing)
      (o : Option (Entry ndn hashing)) (name : ndn.Name) (t : NameTree ndn hashing)
      → IsTree ndn hashing t
      → IsRising ndn hashing t
      → entry_at ndn hashing name t ≡ o
      → ((p : ndn.Name) (s : NameTree ndn hashing)
          → suc (ndn.size p) ≤ ndn.size name
          → IsTree ndn hashing s
          → IsRising ndn hashing s
          → above p s ≡ other p s)
      → erase_found ndn hashing above o name t ≡ erase_found ndn hashing other o name t
  unfolding erase_found
  found_alike above other none name t tree rising found h = refl
  found_alike above other (some e) name t tree rising found h =
      elim (Bool-cases (is_nil e.children && is_bare e.attached)) [
        | inr full ↦ rw full refl
        | inl empty ↦
            let removed =
              removed-IsPruned ndn hashing name e t tree found (ground (arith, empty)) in
            let without = unlink ndn hashing name e.hash (detach ndn hashing e.parent name t) in
            rw empty (
              ap (λ (s : NameTree ndn hashing). (shrink ndn hashing s, true))
                (parents_alike above other e.parent without (λ p is_parent.
                  h p without
                    (rising name p (ap (on_some (λ f. f.parent)) found ∙ ap some is_parent))
                    removed.0.in_order (pruned-IsRising t without removed.0 rising))))
      ]

  up_alike :
      (fuel other : ℕ) (name : ndn.Name) (t : NameTree ndn hashing)
      → ndn.size name < fuel
      → ndn.size name < other
      → IsTree ndn hashing t
      → IsRising ndn hashing t
      → erase_up ndn hashing fuel name t ≡ erase_up ndn hashing other name t
  unfolding erase_up
  up_alike zero other name t enough enough' tree rising = absurd (omega (arith, enough))
  up_alike (suc fuel) zero name t enough enough' tree rising = absurd (omega (arith, enough'))
  up_alike (suc fuel) (suc other) name t enough enough' tree rising =
      found_alike (λ parent rest. (erase_up ndn hashing fuel parent rest).0)
        (λ parent rest. (erase_up ndn hashing other parent rest).0) (entry_at ndn hashing name t)
        name t tree rising refl
        (λ p s shorter tree' rising'.
          ap (λ (r : NameTree ndn hashing × Bool). r.0)
            (up_alike fuel other p s (omega (arith, enough, shorter))
              (omega (arith, enough', shorter)) tree' rising'))

  -- The recursion of eraseEntryIfEmpty ends: with any bound on its depth above the number of
  -- components of the name it does the same. This is where every parent has fewer components, which
  -- lookup and eraseEntryIfEmpty keep so.
  pub erase_entry_if_empty_ends :
      (name : ndn.Name) (t : NameTree ndn hashing) (bound : ℕ)
      → IsTree ndn hashing t
      → IsRising ndn hashing t
      → ndn.size name < bound
      → erase_up ndn hashing bound name t ≡ erase_entry_if_empty ndn hashing name t
  unfolding erase_entry_if_empty
  erase_entry_if_empty_ends name t bound tree rising enough =
      up_alike bound (suc (ndn.size name)) name t enough (omega arith) tree rising

  above_none :
      (fuel : ℕ) (selector : Entry ndn hashing → Bool) (t : NameTree ndn hashing)
      → find_above ndn hashing fuel none selector t ≡ none
  unfolding find_above
  above_none zero selector t = refl
  above_none (suc fuel) selector t = refl

  from_alike :
      (above other : Option ndn.Name → Option (Entry ndn hashing))
      (selector : Entry ndn hashing → Bool) (o : Option (Entry ndn hashing))
      → ((e : Entry ndn hashing) → o ≡ some e → above e.parent ≡ other e.parent)
      → find_above_from ndn hashing above selector o ≡ find_above_from ndn hashing other selector o
  unfolding find_above_from
  from_alike above other selector none h = refl
  from_alike above other selector (some e) h =
      ap (λ (r : Option (Entry ndn hashing)). if selector e then some e else r) (h e refl)

  -- The loop of findLongestPrefixMatch from an entry to its parents ends: with any two bounds on its
  -- turns above the number of components of the entry's prefix it returns the same.
  pub find_above_ends :
      (bound other : ℕ) (name : ndn.Name) (selector : Entry ndn hashing → Bool)
      (t : NameTree ndn hashing)
      → ndn.size name < bound
      → ndn.size name < other
      → IsRising ndn hashing t
      → find_above ndn hashing bound (some name) selector t
        ≡ find_above ndn hashing other (some name) selector t
  unfolding find_above
  find_above_ends zero other name selector t enough enough' rising = absurd (omega (arith, enough))
  find_above_ends (suc b) zero name selector t enough enough' rising =
      absurd (omega (arith, enough'))
  find_above_ends (suc b) (suc c) name selector t enough enough' rising =
      from_alike (λ parent. find_above ndn hashing b parent selector t)
        (λ parent. find_above ndn hashing c parent selector t) selector
        (entry_at ndn hashing name t)
        (λ e found. up e.parent (ap (on_some (λ f. f.parent)) found) (λ p shorter.
          find_above_ends b c p selector t (omega (arith, enough, shorter))
            (omega (arith, enough', shorter)) rising))
    where
      up :
          (parent : Option ndn.Name)
          → parent_at ndn hashing name t ≡ some parent
          → ((p : ndn.Name)
              → suc (ndn.size p) ≤ ndn.size name
              → find_above ndn hashing b (some p) selector t
                ≡ find_above ndn hashing c (some p) selector t)
          → find_above ndn hashing b parent selector t ≡ find_above ndn hashing c parent selector t
      up none has h = above_none b selector t ∙ sym (above_none c selector t)
      up (some p) has h = h p (rising name p has)
