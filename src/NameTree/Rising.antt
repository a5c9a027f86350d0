-- ===== src/NameTree/Rising.antt =====
-- The walks to the parents in daemon/table/name-tree.cpp end.
use nfd_pitless.Base.{
  ℕ, zero, suc, ◌+◌, ◌^◌, ◌≤◌, ◌≡◌, ◌∙◌, refl, sym, ap, subst, Bool, true, false, Option, none,
  some, arith, if◌then◌else◌, Bool-cases, Option-cases, inl, inr,
}
use nfd_pitless.Ndn.{Ndn}
use nfd_pitless.NameTree.{
  or_else, Hashing, Entry, NameTree, is_named, entry_at, new_entry, write, link, enlarge, visit,
  visit_from, lookup,
}
use nfd_pitless.NameTree.Buckets.{on_some}
use nfd_pitless.NameTree.Invariant.{IsTree}
use nfd_pitless.NameTree.Writes.{parent_at, entry_at-write, parent_at-write, link-IsTree}
use nfd_pitless.NameTree.Growth.{grown, grown-IsTree, entry_at-grown, entry_at-enlarge}
use nfd_pitless.NameTree.Lookup.{
  visit_old, visit_new, visit-IsTree, n_items-visit, n_items-grown-link,
}
use nfd_pitless.NameTree.Prefixes.{size-get_prefix, HasRoom}
use nfd_pitless.NameTree.Unlinked.{found_name}

module _ (ndn : Ndn) (hashing : Hashing ndn) where
  abbrev Tree : Type 0
  Tree = NameTree ndn hashing

  -- A parent has fewer components.
  abbrev pub IsRising : Tree → Type 0
  IsRising t =
      (q p : ndn.Name) → parent_at ndn hashing q t ≡ some (some p) → suc (ndn.size p) ≤ ndn.size q

  abbrev IsShorter : Option ndn.Name → ℕ → Type 0
  IsShorter none n = Unit
  IsShorter (some x) n = suc (ndn.size x) ≤ n

  set_parent :
      (child q p : ndn.Name) (v : Option ndn.Name) (t : Tree)
      → IsRising t
      → IsShorter v (ndn.size child)
      → parent_at ndn hashing q (write ndn hashing child (λ e. record e { parent = v }) t)
        ≡ some (some p)
      → suc (ndn.size p) ≤ ndn.size q
  set_parent child q p v t rising shorter has =
      let written =
        entry_at-write ndn hashing child (λ e. record e { parent = v }) t (λ e. (refl, refl)) q in
      by_entry (entry_at ndn hashing q t) refl (sym (ap (on_some (λ e. e.parent)) written) ∙ has)
    where
      short :
          (w : Option ndn.Name)
          → IsShorter w (ndn.size child)
          → some w ≡ some (some p)
          → suc (ndn.size p) ≤ ndn.size child
      short none h e = absurd (cc)
      short (some x) h e =
          let same : x ≡ p = ground (arith, e) in
          subst (λ y. suc (ndn.size y) ≤ ndn.size child) same h

      by_entry :
          (o : Option (Entry ndn hashing))
          → entry_at ndn hashing q t ≡ o
          → on_some
              (λ e. e.parent)
              (on_some (λ e. if is_named ndn hashing child e then record e { parent = v } else e) o)
            ≡ some (some p)
          → suc (ndn.size p) ≤ ndn.size q
      by_entry none found h = absurd (cc)
      by_entry (some e) found h = elim (Bool-cases (is_named ndn hashing child e)) [
        | inl hit ↦
            let at_q = (ndn.name_eq_iff q e.prefix).0 (found_name ndn hashing q e t found) in
            let at_child = (ndn.name_eq_iff child e.prefix).0 hit in
            let same : child ≡ q = at_child ∙ sym at_q in
            let has_v : some v ≡ some (some p) = sym (rw hit refl) ∙ h in
            subst (λ n. suc (ndn.size p) ≤ ndn.size n) same (short v shorter has_v)
        | inr off ↦
            let has_old : some e.parent ≡ some (some p) = sym (rw off refl) ∙ h in
            rising q p (ap (on_some (λ f. f.parent)) found ∙ has_old)
      ]

  link-IsRising :
      (parent : Option ndn.Name) (child : ndn.Name) (t : Tree)
      → IsRising t
      → IsShorter parent (ndn.size child)
      → IsRising (link ndn hashing parent child t)
  unfolding link
  link-IsRising none child t rising shorter q p has = set_parent child q p none t rising shorter has
  link-IsRising (some x) child t rising shorter q p has =
      set_parent child q p (some x) t rising shorter
        (sym (parent_at-write ndn hashing x _ _ (λ e. (refl, refl)) (λ e. refl) q) ∙ has)

  grown-IsRising :
      (name : ndn.Name) (t : Tree)
      → entry_at ndn hashing name t ≡ none
      → IsTree ndn hashing t
      → IsRising t
      → IsRising (grown ndn hashing name t)
  grown-IsRising name t fresh tree rising q p has =
      by_entry (entry_at ndn hashing q t) (ndn.name_eq q name) refl
        (sym (ap (on_some (λ e. e.parent)) (entry_at-grown ndn hashing name t fresh tree q)) ∙ has)
    where
      by_entry :
          (o : Option (Entry ndn hashing)) (b : Bool)
          → entry_at ndn hashing q t ≡ o
          → on_some
              (λ e. e.parent)
              (or_else o (if b then some (new_entry ndn hashing name) else none))
            ≡ some (some p)
          → suc (ndn.size p) ≤ ndn.size q
      by_entry (some e) b found h = rising q p (ap (on_some (λ f. f.parent)) found ∙ h)
      by_entry none true found h = absurd (cc)
      by_entry none false found h = absurd (cc)

  enlarge-IsRising :
      (t : Tree)
      → t.n_items ≤ 2 ^ 31
      → IsTree ndn hashing t
      → IsRising t
      → IsRising (enlarge ndn hashing t)
  enlarge-IsRising t few tree rising q p has =
      rising q p
        (sym (ap (on_some (λ e. e.parent)) (entry_at-enlarge ndn hashing t few tree q)) ∙ has)

  visit-IsRising :
      (parent : Option ndn.Name) (name : ndn.Name) (t : Tree)
      → t.n_items + 1 ≤ 2 ^ 31
      → IsTree ndn hashing t
      → IsShorter parent (ndn.size name)
      → IsRising t
      → IsRising (visit ndn hashing parent name t)
  visit-IsRising parent name t few tree shorter rising =
      elim (Option-cases (entry_at ndn hashing name t)) [
        | inr found ↦
            subst IsRising (sym (visit_old ndn hashing parent name t found.0 tree found.1))
              (enlarge-IsRising t (omega (arith, few)) tree rising)
        | inl fresh ↦
            let bigger = grown ndn hashing name t in
            subst IsRising (sym (visit_new ndn hashing parent name t tree fresh)) (
              enlarge-IsRising (link ndn hashing parent name bigger)
                (omega (arith, few, n_items-grown-link ndn hashing parent name t))
                (link-IsTree ndn hashing parent name bigger
                  (grown-IsTree ndn hashing name t fresh tree))
                (link-IsRising parent name bigger (grown-IsRising name t fresh tree rising)
                  shorter))
      ]

  visit_from-IsRising :
      (rest i : ℕ) (parent : Option ndn.Name) (name : ndn.Name) (t : Tree)
      → t.n_items + rest ≤ 2 ^ 31
      → i + rest ≤ ndn.size name + 1
      → IsTree ndn hashing t
      → IsShorter parent i
      → IsRising t
      → IsRising (visit_from ndn hashing rest i parent name t)
  unfolding visit_from
  visit_from-IsRising zero i parent name t few inside tree shorter rising = rising
  visit_from-IsRising (suc rest) i parent name t few inside tree shorter rising =
      let temp = ndn.get_prefix name i in
      let long : ndn.size temp ≡ i = size-get_prefix ndn hashing name i (omega (arith, inside)) in
      visit_from-IsRising rest (i + 1) (some temp) name (visit ndn hashing parent temp t)
        (omega (arith, few, n_items-visit ndn hashing parent temp t tree)) (omega (arith, inside))
        (visit-IsTree ndn hashing parent temp t (omega (arith, few)) tree) (omega (arith, long))
        (visit-IsRising parent temp t (omega (arith, few)) tree
          (subst (IsShorter parent) (sym long) shorter) rising)

  pub lookup-IsRising :
      (name : ndn.Name) (t : Tree)
      → HasRoom ndn hashing name t
      → IsTree ndn hashing t
      → IsRising t
      → IsRising (lookup ndn hashing name t)
  unfolding lookup
  lookup-IsRising name t room tree rising =
      visit_from-IsRising (ndn.size name + 1) 0 none name t room (omega arith) tree tt rising
