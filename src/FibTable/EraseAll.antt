-- ===== src/FibTable/EraseAll.antt =====
-- Fib::erase of daemon/table/fib.cpp, for an entry, one after the other.
use nfd_pitless.Base.{
  ◌≡◌, ◌∙◌, refl, ap, Bool, true, false, ◌||◌, List, [], ◌∷◌, Option, none, some, if◌then◌else◌,
  any_of,
}
use nfd_pitless.Ndn.{Ndn}
use nfd_pitless.Fib.{NextHop}
use nfd_pitless.NameTree.{is_null, Hashing, Entry, entry_at}
use nfd_pitless.NameTree.Invariant.{IsTree}
use nfd_pitless.NameTree.Erasing.{erase_entry_if_empty-IsTree}
use nfd_pitless.FibTable.{Fib, fib_entry_of, set_fib_entry, erase_entry, erase_all}
use nfd_pitless.FibTable.Entries.{fib_at, set-IsTree, fib_at-set, fib_at-erase}

module _ (ndn : Ndn) (hashing : Hashing ndn) where
  -- The erasure of one entry, and of several.
  pub erase_entry_lem :
      (p : ndn.Name) (fib : Fib ndn hashing)
      → IsTree ndn hashing fib.name_tree
      → IsTree ndn hashing (erase_entry ndn hashing p fib).name_tree
        × ((q : ndn.Name)
            → fib_at ndn hashing q (erase_entry ndn hashing p fib).name_tree
              ≡ (if ndn.name_eq p q then none else fib_at ndn hashing q fib.name_tree))
  unfolding erase_entry
  erase_entry_lem p fib tree =
      let unset = set_fib_entry ndn hashing p none fib.name_tree in
      let tree' = set-IsTree ndn hashing p none fib.name_tree tree in
      (
        erase_entry_if_empty-IsTree ndn hashing p unset tree',
        λ q.
            fib_at-erase ndn hashing p q unset tree'
            ∙ (fib_at-set ndn hashing p q none fib.name_tree
                ∙ in_place (entry_at ndn hashing q fib.name_tree) (ndn.name_eq p q)),
      )
    where
      in_place :
          (o : Option (Entry ndn hashing)) (b : Bool)
          → (if is_null o then none else if b then none else fib_entry_of ndn hashing o)
            ≡ (if b then none else fib_entry_of ndn hashing o)
      in_place none true = refl
      in_place none false = refl
      in_place (some e) b = refl

  pub erase_all_lem :
      (ps : List ndn.Name) (fib : Fib ndn hashing)
      → IsTree ndn hashing fib.name_tree
      → IsTree ndn hashing (erase_all ndn hashing ps fib).name_tree
        × ((q : ndn.Name)
            → fib_at ndn hashing q (erase_all ndn hashing ps fib).name_tree ≡ (
                if any_of (λ p. ndn.name_eq p q) ps
                then none
                else fib_at ndn hashing q fib.name_tree))
  unfolding erase_all
  erase_all_lem [] fib tree = (tree, λ q. refl)
  erase_all_lem (p ∷ ps) fib tree =
      let one = erase_entry_lem p fib tree in
      let rest = erase_all_lem ps (erase_entry ndn hashing p fib) one.0 in
      (
        rest.0,
        λ q.
            rest.1 q
            ∙ (ap (λ o. if any_of (λ p. ndn.name_eq p q) ps then none else o) (one.1 q)
                ∙ either (any_of (λ p. ndn.name_eq p q) ps) (ndn.name_eq p q)
                    (fib_at ndn hashing q fib.name_tree)),
      )
    where
      either :
          (a b : Bool) (o : Option (List NextHop))
          → (if a then none else if b then none else o) ≡ (if b || a then none else o)
      either true true o = refl
      either true false o = refl
      either false true o = refl
      either false false o = refl
