-- ===== src/NameTree/Lookup.antt =====
-- NameTree::lookup of daemon/table/name-tree.cpp.
use nfd_pitless.Base.{
  ℕ, zero, suc, ◌+◌, ◌^◌, ◌≤◌, ◌≡◌, ◌∙◌, refl, sym, ap, Bool, true, false, ◌||◌, Option, none, some,
  arith, if◌then◌else◌, Bool-cases, Option-cases, inl, inr,
}
use nfd_pitless.Ndn.{Ndn}
use nfd_pitless.NameTree.{
  or_else, Attached, nothing_attached, Hashing, Entry, NameTree, entry_at, new_entry, insert,
  insert_unless, count_new, link, enlarge, visit, visit_from,
}
use nfd_pitless.NameTree.Buckets.{or_else-none, on_some}
use nfd_pitless.NameTree.Invariant.{IsTree}
use nfd_pitless.NameTree.Writes.{attached_at, link-IsTree, attached_at-link, n_items-link}
use nfd_pitless.NameTree.Growth.{
  enlarge-IsTree, entry_at-enlarge, n_items-enlarge, named_in_bucket, grown, grown-IsTree,
  entry_at-grown,
}

or_else_assoc :
    {A : Type 0} (o : Option A) (a b : Bool) (x : A)
    → or_else (or_else o (if a then some x else none)) (if b then some x else none)
      ≡ or_else o (if a || b then some x else none)
or_else_assoc (some y) a b x = refl
or_else_assoc none true b x = refl
or_else_assoc none false b x = refl

module _ (ndn : Ndn) (hashing : Hashing ndn) where
  abbrev Tree : Type 0
  Tree = NameTree ndn hashing

  abbrev bare_if : Bool → Option Attached
  bare_if b = if b then some nothing_attached else none

  insert_lem :
      (p : ndn.Name) (t : Tree)
      → IsTree ndn hashing t
      → insert ndn hashing p t ≡ insert_unless ndn hashing (entry_at ndn hashing p t) p t
  unfolding insert
  insert_lem p t tree =
      ap (λ o. insert_unless ndn hashing o p t) (named_in_bucket ndn hashing t tree p)

  visit_at :
      (parent : Option ndn.Name) (p : ndn.Name) (t : Tree) (o : Option (Entry ndn hashing))
      → IsTree ndn hashing t
      → entry_at ndn hashing p t ≡ o
      → visit ndn hashing parent p t
        ≡ count_new ndn hashing parent p (insert_unless ndn hashing o p t)
  unfolding visit
  visit_at parent p t o tree found =
      ap (count_new ndn hashing parent p)
        (insert_lem p t tree ∙ ap (λ o. insert_unless ndn hashing o p t) found)

  pub visit_old :
      (parent : Option ndn.Name) (p : ndn.Name) (t : Tree) (e : Entry ndn hashing)
      → IsTree ndn hashing t
      → entry_at ndn hashing p t ≡ some e
      → visit ndn hashing parent p t ≡ enlarge ndn hashing t
  unfolding count_new insert_unless
  visit_old parent p t e tree found = visit_at parent p t (some e) tree found

  pub visit_new :
      (parent : Option ndn.Name) (p : ndn.Name) (t : Tree)
      → IsTree ndn hashing t
      → entry_at ndn hashing p t ≡ none
      → visit ndn hashing parent p t
        ≡ enlarge ndn hashing (link ndn hashing parent p (grown ndn hashing p t))
  unfolding count_new insert_unless
  visit_new parent p t tree fresh = visit_at parent p t none tree fresh

  pub n_items-grown-link :
      (parent : Option ndn.Name) (p : ndn.Name) (t : Tree)
      → (link ndn hashing parent p (grown ndn hashing p t)).n_items ≡ t.n_items + 1
  n_items-grown-link parent p t = n_items-link ndn hashing parent p (grown ndn hashing p t)

  pub visit-IsTree :
      (parent : Option ndn.Name) (p : ndn.Name) (t : Tree)
      → t.n_items + 1 ≤ 2 ^ 31
      → IsTree ndn hashing t
      → IsTree ndn hashing (visit ndn hashing parent p t)
  visit-IsTree parent p t few tree = elim (Option-cases (entry_at ndn hashing p t)) [
    | inr found ↦
        rw (visit_old parent p t found.0 tree found.1)
          (enlarge-IsTree ndn hashing t (omega (arith, few)) tree)
    | inl fresh ↦ rw (visit_new parent p t tree fresh) (
        enlarge-IsTree ndn hashing (link ndn hashing parent p (grown ndn hashing p t))
          (omega (arith, few, n_items-grown-link parent p t))
          (link-IsTree ndn hashing parent p (grown ndn hashing p t)
            (grown-IsTree ndn hashing p t fresh tree)))
  ]

  pub n_items-visit :
      (parent : Option ndn.Name) (p : ndn.Name) (t : Tree)
      → IsTree ndn hashing t
      → (visit ndn hashing parent p t).n_items ≤ t.n_items + 1
  n_items-visit parent p t tree = elim (Option-cases (entry_at ndn hashing p t)) [
    | inr found ↦
        rw (visit_old parent p t found.0 tree found.1)
          (omega (arith, n_items-enlarge ndn hashing t))
    | inl fresh ↦ rw (visit_new parent p t tree fresh) (
        omega (
          arith,
          n_items-enlarge ndn hashing (link ndn hashing parent p (grown ndn hashing p t)),
          n_items-grown-link parent p t,
        ))
  ]

  attached_at-grown :
      (p : ndn.Name) (t : Tree)
      → entry_at ndn hashing p t ≡ none
      → IsTree ndn hashing t
      → (q : ndn.Name)
      → attached_at ndn hashing q (grown ndn hashing p t)
        ≡ or_else (attached_at ndn hashing q t) (bare_if (ndn.name_eq q p))
  attached_at-grown p t fresh tree q =
      ap (on_some (λ e. e.attached)) (entry_at-grown ndn hashing p t fresh tree q)
      ∙ split (entry_at ndn hashing q t) (ndn.name_eq q p)
    where
      split :
          (o : Option (Entry ndn hashing)) (b : Bool)
          → on_some
              (λ e. e.attached)
              (or_else o (if b then some (new_entry ndn hashing p) else none))
            ≡ or_else (on_some (λ e. e.attached) o) (bare_if b)
      split (some e) b = refl
      split none true = refl
      split none false = refl

  -- One turn: the entry of the name is there, with nothing attached if it is new, and the others are
  -- as they were.
  attached_at-visit :
      (parent : Option ndn.Name) (p : ndn.Name) (t : Tree)
      → t.n_items + 1 ≤ 2 ^ 31
      → IsTree ndn hashing t
      → (q : ndn.Name)
      → attached_at ndn hashing q (visit ndn hashing parent p t)
        ≡ or_else (attached_at ndn hashing q t) (bare_if (ndn.name_eq q p))
  attached_at-visit parent p t few tree q = elim (Option-cases (entry_at ndn hashing p t)) [
    | inr found ↦ rw (visit_old parent p t found.0 tree found.1) (
        ap (on_some (λ e. e.attached)) (entry_at-enlarge ndn hashing t (omega (arith, few)) tree q)
        ∙ already found.0 found.1)
    | inl fresh ↦
        let linked = link ndn hashing parent p (grown ndn hashing p t) in
        rw (visit_new parent p t tree fresh) (
          ap (on_some (λ e. e.attached)) (
            entry_at-enlarge ndn hashing linked (omega (arith, few, n_items-grown-link parent p t))
              (link-IsTree ndn hashing parent p (grown ndn hashing p t)
                (grown-IsTree ndn hashing p t fresh tree))
              q)
          ∙ (attached_at-link ndn hashing parent p (grown ndn hashing p t) q
              ∙ attached_at-grown p t fresh tree q))
  ]
    where
      already :
          (e : Entry ndn hashing)
          → entry_at ndn hashing p t ≡ some e
          → attached_at ndn hashing q t
            ≡ or_else (attached_at ndn hashing q t) (bare_if (ndn.name_eq q p))
      already e found = elim (Bool-cases (ndn.name_eq q p)) [
        | inr off ↦ rw off (sym (or_else-none _))
        | inl hit ↦ rw ((ndn.name_eq_iff q p).0 hit) (rw found refl)
      ]

  -- One of the prefixes with i to i + rest - 1 components.
  abbrev pub any_visited : ℕ → ℕ → ndn.Name → ndn.Name → Bool
  any_visited zero i p q = false
  any_visited (suc rest) i p q = ndn.name_eq q (ndn.get_prefix p i) || any_visited rest (i + 1) p q

  pub visit_from_lem :
      (rest i : ℕ) (parent : Option ndn.Name) (p : ndn.Name) (t : Tree)
      → t.n_items + rest ≤ 2 ^ 31
      → IsTree ndn hashing t
      → IsTree ndn hashing (visit_from ndn hashing rest i parent p t)
        × ((q : ndn.Name)
            → attached_at ndn hashing q (visit_from ndn hashing rest i parent p t)
              ≡ or_else (attached_at ndn hashing q t) (bare_if (any_visited rest i p q)))
  unfolding visit_from
  visit_from_lem zero i parent p t few tree = (tree, λ q. sym (or_else-none _))
  visit_from_lem (suc rest) i parent p t few tree =
      let temp = ndn.get_prefix p i in
      let next = visit ndn hashing parent temp t in
      let after =
        visit_from_lem rest (i + 1) (some temp) p next
          (omega (arith, few, n_items-visit parent temp t tree))
          (visit-IsTree parent temp t (omega (arith, few)) tree) in
      (
        after.0,
        λ q.
            after.1 q
            ∙ (ap (λ o. or_else o (bare_if (any_visited rest (i + 1) p q)))
                  (attached_at-visit parent temp t (omega (arith, few)) tree q)
                ∙ or_else_assoc (attached_at ndn hashing q t) (ndn.name_eq q temp)
                    (any_visited rest (i + 1) p q) nothing_attached),
      )
