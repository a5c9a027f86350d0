-- ===== src/FibTable/Map.antt =====
-- The FIB of daemon/table/fib.cpp as a map from prefixes to next hops.
use nfd_pitless.Base.{
  ◌≡◌, ◌∙◌, refl, sym, ap, [], none, some, if◌then◌else◌, Bool-cases, Option-cases, inl, inr,
}
use nfd_pitless.Ndn.{Ndn}
use nfd_pitless.NameTree.{is_null, or_else, Hashing, find_exact_match, lookup}
use nfd_pitless.NameTree.Invariant.{IsTree, find_exact_match_lem}
use nfd_pitless.NameTree.Prefixes.{HasRoom, lookup-IsTree}
use nfd_pitless.FibTable.{Fib, fib_entry_of, find_fib_entry, insert_prefix, erase_prefix}
use nfd_pitless.FibTable.EraseAll.{erase_entry_lem}
use nfd_pitless.FibTable.Entries.{
  fib_at, fib_at-lookup, find_fib_entry_lem, there_after, insert_prefix-IsTree, insert_found-fib_at,
}

module _ (ndn : Ndn) (hashing : Hashing ndn) where
  pub fib_at-insert :
      (p q : ndn.Name) (fib : Fib ndn hashing)
      → HasRoom ndn hashing p fib.name_tree
      → IsTree ndn hashing fib.name_tree
      → fib_at ndn hashing q (insert_prefix ndn hashing p fib).0.name_tree
        ≡ or_else (fib_at ndn hashing q fib.name_tree) (if ndn.name_eq p q then some [] else none)
  unfolding insert_prefix
  fib_at-insert p q fib room tree =
      let t = lookup ndn hashing p fib.name_tree in
      let looked = lookup-IsTree ndn hashing p fib.name_tree room tree in
      insert_found-fib_at ndn hashing _ p q t fib.n_items
        (ap (fib_entry_of ndn hashing) (sym (find_exact_match_lem ndn hashing t looked p)))
        (there_after ndn hashing p fib.name_tree room tree)
      ∙ ap (λ o. or_else o (if ndn.name_eq p q then some [] else none))
          (fib_at-lookup ndn hashing p q fib.name_tree room tree)

  -- After Fib::insert of a prefix, findExactMatch finds the entry of the prefix, with no next hops
  -- where there was none before, and for every other prefix what it found before.
  pub find_fib_entry-insert_prefix :
      (p q : ndn.Name) (fib : Fib ndn hashing)
      → HasRoom ndn hashing p fib.name_tree
      → IsTree ndn hashing fib.name_tree
      → find_fib_entry ndn hashing q (insert_prefix ndn hashing p fib).0
        ≡ or_else (find_fib_entry ndn hashing q fib) (if ndn.name_eq p q then some [] else none)
  find_fib_entry-insert_prefix p q fib room tree =
      find_fib_entry_lem ndn hashing q (insert_prefix ndn hashing p fib).0
        (insert_prefix-IsTree ndn hashing p fib room tree)
      ∙ (fib_at-insert p q fib room tree
          ∙ ap (λ o. or_else o (if ndn.name_eq p q then some [] else none))
              (sym (find_fib_entry_lem ndn hashing q fib tree)))

  pub erase_prefix-IsTree :
      (p : ndn.Name) (fib : Fib ndn hashing)
      → IsTree ndn hashing fib.name_tree
      → IsTree ndn hashing (erase_prefix ndn hashing p fib).name_tree
  unfolding erase_prefix
  erase_prefix-IsTree p fib tree =
      elim (Bool-cases (is_null (find_exact_match ndn hashing p fib.name_tree))) [
        | inl absent ↦ rw (absent, erase_prefix) tree
        | inr there ↦ rw (there, erase_prefix) (erase_entry_lem ndn hashing p fib tree).0
      ]

  fib_at-erase_prefix :
      (p q : ndn.Name) (fib : Fib ndn hashing)
      → IsTree ndn hashing fib.name_tree
      → fib_at ndn hashing q (erase_prefix ndn hashing p fib).name_tree
        ≡ (if ndn.name_eq p q then none else fib_at ndn hashing q fib.name_tree)
  unfolding erase_prefix
  fib_at-erase_prefix p q fib tree =
      elim (Option-cases (find_exact_match ndn hashing p fib.name_tree)) [
        | inl absent ↦ rw (absent, erase_prefix) (nothing_to_erase absent)
        | inr there ↦ rw (there.1, erase_prefix) ((erase_entry_lem ndn hashing p fib tree).1 q)
      ]
    where
      nothing_to_erase :
          find_exact_match ndn hashing p fib.name_tree ≡ none
          → fib_at ndn hashing q fib.name_tree
            ≡ (if ndn.name_eq p q then none else fib_at ndn hashing q fib.name_tree)
      nothing_to_erase absent = elim (Bool-cases (ndn.name_eq p q)) [
        | inr off ↦ rw off refl
        | inl hit ↦ rw hit (
            ap (λ (n : ndn.Name). fib_at ndn hashing n fib.name_tree)
              (sym ((ndn.name_eq_iff p q).0 hit))
            ∙ ap (fib_entry_of ndn hashing)
                (sym (find_exact_match_lem ndn hashing fib.name_tree tree p) ∙ absent))
      ]

  -- After Fib::erase of a prefix, findExactMatch finds no entry for the prefix, and for every other
  -- what it found before.
  pub find_fib_entry-erase_prefix :
      (p q : ndn.Name) (fib : Fib ndn hashing)
      → IsTree ndn hashing fib.name_tree
      → find_fib_entry ndn hashing q (erase_prefix ndn hashing p fib)
        ≡ (if ndn.name_eq p q then none else find_fib_entry ndn hashing q fib)
  find_fib_entry-erase_prefix p q fib tree =
      find_fib_entry_lem ndn hashing q (erase_prefix ndn hashing p fib)
        (erase_prefix-IsTree p fib tree)
      ∙ (fib_at-erase_prefix p q fib tree
          ∙ ap (λ o. if ndn.name_eq p q then none else o)
              (sym (find_fib_entry_lem ndn hashing q fib tree)))
