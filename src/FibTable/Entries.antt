-- ===== src/FibTable/Entries.antt =====
-- The FIB of daemon/table/fib.cpp, one prefix at a time.
use nfd_pitless.Base.{
  ℕ, ◌≡◌, ◌∙◌, refl, sym, ap, subst, Bool, true, false, List, [], Option, none, some, arith,
  if◌then◌else◌, Bool-cases, Option-cases, inl, inr,
}
use nfd_pitless.Ndn.{Ndn}
use nfd_pitless.Fib.{NextHop}
use nfd_pitless.NameTree.{
  Attached, nothing_attached, is_bare, is_null, or_else, Hashing, Entry, NameTree, is_named,
  entry_at, lookup,
}
use nfd_pitless.NameTree.Buckets.{on_some, or_else-none}
use nfd_pitless.NameTree.Invariant.{IsTree, find_exact_match_lem}
use nfd_pitless.NameTree.Writes.{write-IsTree, entry_at-write}
use nfd_pitless.NameTree.Prefixes.{
  get_prefix_is_prefix, found_at, HasRoom, lookup-IsTree, found_at-lookup,
}
use nfd_pitless.NameTree.Erasure.{erase_entry_if_empty}
use nfd_pitless.NameTree.Erased.{hung}
use nfd_pitless.NameTree.Erasing.{erase_entry_if_empty-IsTree, hung-erase_entry_if_empty}
use nfd_pitless.NameTree.Unlinked.{found_name}
use nfd_pitless.FibTable.{
  Fib, fib_entry_of, set_fib_entry, find_fib_entry, insert_found, insert_prefix,
}

-- The FIB entry among what is attached to an entry that is there.
abbrev pub fib_in : Option Attached → Option (List NextHop)
fib_in none = none
fib_in (some a) = a.fib_entry

bare_no_fib : (a : Attached) → is_bare a ≡ true → a.fib_entry ≡ none
unfolding is_bare
bare_no_fib a bare = elim (Option-cases a.fib_entry) [
  | inl absent ↦ absent
  | inr there ↦ absurd (ground (arith, bare, there.1))
]

fib_in-hung : (o : Option Attached) → fib_in (hung o) ≡ fib_in o
fib_in-hung none = refl
fib_in-hung (some a) = elim (Bool-cases (is_bare a)) [
  | inr off ↦ rw off refl
  | inl bare ↦ rw bare (sym (bare_no_fib a bare))
]

fib_in-or_else :
    (o : Option Attached) (b : Bool)
    → fib_in (or_else o (if b then some nothing_attached else none)) ≡ fib_in o
fib_in-or_else (some a) b = refl
fib_in-or_else none true = refl
fib_in-or_else none false = refl

module _ (ndn : Ndn) (hashing : Hashing ndn) where
  fib_in-found :
      (o : Option (Entry ndn hashing))
      → fib_entry_of ndn hashing o ≡ fib_in (on_some (λ e. e.attached) o)
  fib_in-found none = refl
  fib_in-found (some e) = refl

  -- The prefix of the entry that is found.
  pub named_there :
      (q p : ndn.Name) (t : NameTree ndn hashing) (e : Entry ndn hashing)
      → entry_at ndn hashing q t ≡ some e
      → is_named ndn hashing p e ≡ ndn.name_eq p q
  named_there q p t e found =
      let hit = found_name ndn hashing q e t found in
      ap (ndn.name_eq p) (sym ((ndn.name_eq_iff q e.prefix).0 hit))

  pub set-IsTree :
      (p : ndn.Name) (v : Option (List NextHop)) (t : NameTree ndn hashing)
      → IsTree ndn hashing t
      → IsTree ndn hashing (set_fib_entry ndn hashing p v t)
  set-IsTree p v t tree = write-IsTree ndn hashing p _ t (λ e. (refl, refl)) tree

  -- The FIB entry of a prefix, in a name tree.
  abbrev pub fib_at : ndn.Name → NameTree ndn hashing → Option (List NextHop)
  fib_at q t = fib_entry_of ndn hashing (entry_at ndn hashing q t)

  fib_at_found :
      (q : ndn.Name) (t : NameTree ndn hashing)
      → IsTree ndn hashing t
      → fib_in (found_at ndn hashing q t) ≡ fib_at q t
  fib_at_found q t tree =
      ap (λ o. fib_in (on_some (λ e. e.attached) o)) (find_exact_match_lem ndn hashing t tree q)
      ∙ sym (fib_in-found (entry_at ndn hashing q t))

  pub fib_at-set :
      (p q : ndn.Name) (v : Option (List NextHop)) (t : NameTree ndn hashing)
      → fib_at q (set_fib_entry ndn hashing p v t) ≡ (
          if is_null (entry_at ndn hashing q t)
          then none
          else if ndn.name_eq p q
          then v
          else fib_at q t)
  fib_at-set p q v t =
      ap (fib_entry_of ndn hashing) (entry_at-write ndn hashing p _ t (λ e. (refl, refl)) q)
      ∙ elim (Option-cases (entry_at ndn hashing q t)) [
        | inl absent ↦ rw absent refl
        | inr found ↦ elim (Bool-cases (ndn.name_eq p q)) [
          | inl hit ↦ rw found.1 (rw (named_there q p t found.0 found.1 ∙ hit) (rw hit refl))
          | inr off ↦ rw found.1 (rw (named_there q p t found.0 found.1 ∙ off) (rw off refl))
        ]
      ]

  -- A lookup makes no FIB entry, and loses none.
  pub fib_at-lookup :
      (p q : ndn.Name) (t : NameTree ndn hashing)
      → HasRoom ndn hashing p t
      → IsTree ndn hashing t
      → fib_at q (lookup ndn hashing p t) ≡ fib_at q t
  fib_at-lookup p q t room tree =
      sym (fib_at_found q (lookup ndn hashing p t) (lookup-IsTree ndn hashing p t room tree))
      ∙ (ap fib_in (found_at-lookup ndn hashing p t room tree q)
          ∙ (fib_in-or_else (found_at ndn hashing q t) (ndn.is_prefix_of q p)
              ∙ fib_at_found q t tree))

  pub fib_at-erase :
      (p q : ndn.Name) (t : NameTree ndn hashing)
      → IsTree ndn hashing t
      → fib_at q (erase_entry_if_empty ndn hashing p t).0 ≡ fib_at q t
  fib_at-erase p q t tree =
      let after = (erase_entry_if_empty ndn hashing p t).0 in
      sym (fib_at_found q after (erase_entry_if_empty-IsTree ndn hashing p t tree))
      ∙ (sym (fib_in-hung (found_at ndn hashing q after))
          ∙ (ap fib_in (hung-erase_entry_if_empty ndn hashing p t tree q)
              ∙ (fib_in-hung (found_at ndn hashing q t) ∙ fib_at_found q t tree)))

  pub find_fib_entry_lem :
      (q : ndn.Name) (fib : Fib ndn hashing)
      → IsTree ndn hashing fib.name_tree
      → find_fib_entry ndn hashing q fib ≡ fib_at q fib.name_tree
  unfolding find_fib_entry
  find_fib_entry_lem q fib tree =
      ap (fib_entry_of ndn hashing) (find_exact_match_lem ndn hashing fib.name_tree tree q)

  -- The lookup of insert makes the entry that the next hops hang on.
  pub there_after :
      (p : ndn.Name) (t : NameTree ndn hashing)
      → HasRoom ndn hashing p t
      → IsTree ndn hashing t
      → is_null (entry_at ndn hashing p (lookup ndn hashing p t)) ≡ false
  there_after p t room tree =
      let after = lookup ndn hashing p t in
      let itself : ndn.is_prefix_of p p ≡ true =
        subst (λ n. ndn.is_prefix_of n p ≡ true) (ndn.get_prefix-size p)
          (get_prefix_is_prefix ndn hashing p (ndn.size p) (omega arith)) in
      sym (null_attached (entry_at ndn hashing p after))
      ∙ (ap (λ o. is_null (on_some (λ e. e.attached) o))
            (sym
              (find_exact_match_lem ndn hashing after (lookup-IsTree ndn hashing p t room tree) p))
          ∙ (ap is_null (found_at-lookup ndn hashing p t room tree p)
              ∙ rw itself (or_else_some (found_at ndn hashing p t))))
    where
      null_attached :
          (o : Option (Entry ndn hashing)) → is_null (on_some (λ e. e.attached) o) ≡ is_null o
      null_attached none = refl
      null_attached (some e) = refl

      or_else_some : (o : Option Attached) → is_null (or_else o (some nothing_attached)) ≡ false
      or_else_some none = refl
      or_else_some (some a) = refl

  insert_found-IsTree :
      (o : Option (List NextHop)) (p : ndn.Name) (t : NameTree ndn hashing) (n : ℕ)
      → IsTree ndn hashing t
      → IsTree ndn hashing (insert_found ndn hashing o p t n).0.name_tree
  unfolding insert_found
  insert_found-IsTree (some hops) p t n tree = tree
  insert_found-IsTree none p t n tree = set-IsTree p (some []) t tree

  pub insert_prefix-IsTree :
      (p : ndn.Name) (fib : Fib ndn hashing)
      → HasRoom ndn hashing p fib.name_tree
      → IsTree ndn hashing fib.name_tree
      → IsTree ndn hashing (insert_prefix ndn hashing p fib).0.name_tree
  unfolding insert_prefix
  insert_prefix-IsTree p fib room tree =
      insert_found-IsTree _ p (lookup ndn hashing p fib.name_tree) fib.n_items
        (lookup-IsTree ndn hashing p fib.name_tree room tree)

  pub insert_found-fib_at :
      (o : Option (List NextHop)) (p q : ndn.Name) (t : NameTree ndn hashing) (n : ℕ)
      → fib_at p t ≡ o
      → is_null (entry_at ndn hashing p t) ≡ false
      → fib_at q (insert_found ndn hashing o p t n).0.name_tree
        ≡ or_else (fib_at q t) (if ndn.name_eq p q then some [] else none)
  unfolding insert_found
  insert_found-fib_at (some hops) p q t n same there = elim (Bool-cases (ndn.name_eq p q)) [
    | inr off ↦ rw off (sym (or_else-none (fib_at q t)))
    | inl hit ↦
        let found : fib_at q t ≡ some hops =
          ap (λ (n : ndn.Name). fib_at n t) (sym ((ndn.name_eq_iff p q).0 hit)) ∙ same in
        found ∙ sym (ap (λ o. or_else o (if ndn.name_eq p q then some [] else none)) found)
  ]
  insert_found-fib_at none p q t n same there =
      fib_at-set p q (some []) t ∙ elim (Bool-cases (ndn.name_eq p q)) [
        | inr off ↦ rw off (in_place (entry_at ndn hashing q t) ∙ sym (or_else-none (fib_at q t)))
        | inl hit ↦
            let to_q = (ndn.name_eq_iff p q).0 hit in
            let absent : fib_at q t ≡ none = ap (λ (n : ndn.Name). fib_at n t) (sym to_q) ∙ same in
            let there_too : is_null (entry_at ndn hashing q t) ≡ false =
              ap (λ (n : ndn.Name). is_null (entry_at ndn hashing n t)) (sym to_q) ∙ there in
            rw hit (rw there_too (sym (ap (λ o. or_else o (some [])) absent)))
      ]
    where
      in_place :
          (o : Option (Entry ndn hashing))
          → (if is_null o then none else fib_entry_of ndn hashing o) ≡ fib_entry_of ndn hashing o
      in_place none = refl
      in_place (some e) = refl
