-- ===== src/Rib/Shape.antt =====
-- A table of rib/rib.cpp without its tree: the names of its entries, each with its routes.
use nfd_pitless.Base.{
  ℕ, ◌+◌, ◌≡◌, ◌∙◌, refl, sym, ap, Bool, true, false, ◌||◌, List, [], ◌∷◌, Option, none, some,
  arith, length, if◌then◌else◌, erase_if, Bool-cases, inl, inr,
}
use nfd_pitless.Ndn.{Ndn}
use nfd_pitless.Rib.{Route, RibEntry, same_parent}
use nfd_pitless.Rib.Names.{NameOrder}
use nfd_pitless.Rib.Table.{
  is_named, find, modify, put_entry, add_child, remove_child, add_child_to, remove_child_from,
  adopt, hand_over, erase_entry,
}

module _ (ndn : Ndn) (order : NameOrder ndn) where
  abbrev pub Shape : Type 0
  Shape = List (ndn.Name × List Route)

  abbrev pub shape : List (RibEntry ndn) → Shape
  shape [] = []
  shape (e ∷ es) = (e.name, e.routes) ∷ shape es

  -- The routes of a name, none where it has no entry.
  abbrev pub lookup : ndn.Name → Shape → List Route
  lookup q [] = []
  lookup q ((n, rs) ∷ s) = if ndn.name_eq n q then rs else lookup q s

  abbrev pub has_name : ndn.Name → Shape → Bool
  has_name q [] = false
  has_name q ((n, rs) ∷ s) = ndn.name_eq n q || has_name q s

  abbrev pub total : Shape → ℕ
  total [] = 0
  total ((n, rs) ∷ s) = length rs + total s

  abbrev pub IsDistinct : Shape → Type 0
  IsDistinct [] = Unit {0}
  IsDistinct ((n, rs) ∷ s) = (has_name n s ≡ false) × IsDistinct s

  -- The operations of the table, on shapes.
  abbrev pub change : ndn.Name → (List Route → List Route) → Shape → Shape
  change q g [] = []
  change q g ((n, rs) ∷ s) = if ndn.name_eq n q then (n, g rs) ∷ s else (n, rs) ∷ change q g s

  abbrev pub put : ndn.Name → List Route → Shape → Shape
  put q rs [] = (q, rs) ∷ []
  put q rs ((n, ns) ∷ s) = if order.less q n then (q, rs) ∷ (n, ns) ∷ s else (n, ns) ∷ put q rs s

  abbrev pub drop_name : ndn.Name → Shape → Shape
  drop_name q [] = []
  drop_name q ((n, rs) ∷ s) = if ndn.name_eq n q then s else (n, rs) ∷ drop_name q s

  pub shape-modify :
      (q : ndn.Name) (f : RibEntry ndn → RibEntry ndn) (g : List Route → List Route)
      (es : List (RibEntry ndn))
      → ((e : RibEntry ndn) → (f e).name ≡ e.name)
      → ((e : RibEntry ndn) → (f e).routes ≡ g e.routes)
      → shape (modify ndn order q f es) ≡ change q g (shape es)
  unfolding modify
  shape-modify q f g [] hn hr = refl
  shape-modify q f g (e ∷ es) hn hr = elim (Bool-cases (is_named ndn order q e)) [
    | inl hit ↦ rw (hit, modify) (rw (hn e) (rw (hr e) refl))
    | inr off ↦ rw (off, modify) (ap (λ t. (e.name, e.routes) ∷ t) (shape-modify q f g es hn hr))
  ]

  change_same : (q : ndn.Name) (s : Shape) → change q (λ rs. rs) s ≡ s
  change_same q [] = refl
  change_same q ((n, rs) ∷ s) = elim (Bool-cases (ndn.name_eq n q)) [
    | inl hit ↦ rw hit refl
    | inr off ↦ rw off (ap (λ t. (n, rs) ∷ t) (change_same q s))
  ]

  pub shape-put_entry :
      (e : RibEntry ndn) (es : List (RibEntry ndn))
      → shape (put_entry ndn order e es) ≡ put e.name e.routes (shape es)
  unfolding put_entry
  shape-put_entry e [] = refl
  shape-put_entry e (f ∷ fs) = elim (Bool-cases (order.less e.name f.name)) [
    | inl first ↦ rw (first, put_entry) refl
    | inr later ↦ rw (later, put_entry) (ap (λ t. (f.name, f.routes) ∷ t) (shape-put_entry e fs))
  ]

  pub shape-erase_if :
      (q : ndn.Name) (es : List (RibEntry ndn))
      → shape (erase_if (is_named ndn order q) es) ≡ drop_name q (shape es)
  shape-erase_if q [] = refl
  shape-erase_if q (e ∷ es) = elim (Bool-cases (is_named ndn order q e)) [
    | inl hit ↦ rw hit refl
    | inr off ↦ rw off (ap (λ t. (e.name, e.routes) ∷ t) (shape-erase_if q es))
  ]

  -- The tree's pointers do not show.
  shape_pointer :
      (q : ndn.Name) (f : RibEntry ndn → RibEntry ndn) (es : List (RibEntry ndn))
      → ((e : RibEntry ndn) → (f e).name ≡ e.name)
      → ((e : RibEntry ndn) → (f e).routes ≡ e.routes)
      → shape (modify ndn order q f es) ≡ shape es
  shape_pointer q f es hn hr = shape-modify q f (λ rs. rs) es hn hr ∙ change_same q (shape es)

  shape-add_child :
      (a b : ndn.Name) (es : List (RibEntry ndn)) → shape (add_child ndn order a b es) ≡ shape es
  unfolding add_child
  shape-add_child a b es =
      shape_pointer a _ (modify ndn order b _ es) (λ e. refl) (λ e. refl)
      ∙ shape_pointer b _ es (λ e. refl) (λ e. refl)

  shape-remove_child :
      (a b : ndn.Name) (es : List (RibEntry ndn)) → shape (remove_child ndn order a b es) ≡ shape es
  unfolding remove_child
  shape-remove_child a b es =
      shape_pointer a _ (modify ndn order b _ es) (λ e. refl) (λ e. refl)
      ∙ shape_pointer b _ es (λ e. refl) (λ e. refl)

  pub shape-add_child_to :
      (a : Option ndn.Name) (b : ndn.Name) (es : List (RibEntry ndn))
      → shape (add_child_to ndn order a b es) ≡ shape es
  unfolding add_child_to
  shape-add_child_to none b es = refl
  shape-add_child_to (some a) b es = shape-add_child a b es

  pub shape-remove_child_from :
      (a : Option ndn.Name) (b : ndn.Name) (es : List (RibEntry ndn))
      → shape (remove_child_from ndn order a b es) ≡ shape es
  unfolding remove_child_from
  shape-remove_child_from none b es = refl
  shape-remove_child_from (some a) b es = shape-remove_child a b es

  pub shape-adopt :
      (name : ndn.Name) (parent : Option ndn.Name) (cs es : List (RibEntry ndn))
      → shape (adopt ndn order name parent cs es) ≡ shape es
  unfolding adopt
  shape-adopt name parent [] es = refl
  shape-adopt name parent (c ∷ cs) es = elim (Bool-cases (same_parent ndn c.parent parent)) [
    | inl same ↦
        rw (same, adopt)
          (shape-adopt name parent cs _
            ∙ shape-add_child name c.name _
            ∙ shape-remove_child_from parent c.name es)
    | inr apart ↦ rw (apart, adopt) (shape-adopt name parent cs es)
  ]

  shape-hand_over :
      (name : ndn.Name) (parent : Option ndn.Name) (cs : List ndn.Name) (es : List (RibEntry ndn))
      → shape (hand_over ndn order name parent cs es) ≡ shape es
  unfolding hand_over
  shape-hand_over name parent [] es = refl
  shape-hand_over name parent (c ∷ cs) es =
      shape-hand_over name parent cs _
      ∙ shape-add_child_to parent c _
      ∙ shape-remove_child name c es

  pub shape-erase_entry :
      (e : RibEntry ndn) (es : List (RibEntry ndn))
      → shape (erase_entry ndn order e es) ≡ drop_name e.name (shape es)
  unfolding erase_entry
  shape-erase_entry e es =
      shape-erase_if e.name _
      ∙ ap (drop_name e.name) (
          shape-hand_over e.name e.parent e.children _ ∙ shape-remove_child_from e.parent e.name es)

  -- What a search in the table finds.
  pub find-has_name :
      (q : ndn.Name) (es : List (RibEntry ndn))
      → find ndn order q es ≡ none
      → has_name q (shape es) ≡ false
  find-has_name q [] h = refl
  find-has_name q (e ∷ es) h = elim (Bool-cases (is_named ndn order q e)) [
    | inl hit ↦ absurd (ground arith)
    | inr off ↦ rw off (find-has_name q es (ground arith))
  ]

  pub find-lookup :
      (q : ndn.Name) (es : List (RibEntry ndn)) (e : RibEntry ndn)
      → find ndn order q es ≡ some e
      → (lookup q (shape es) ≡ e.routes) × (has_name q (shape es) ≡ true) × (e.name ≡ q)
  find-lookup q [] e h = absurd (cc)
  find-lookup q (g ∷ gs) e h = elim (Bool-cases (is_named ndn order q g)) [
    | inl hit ↦
        let same : g ≡ e = ground arith in
        rw hit (
          ap (λ r. r.routes) same,
          refl,
          ap (λ r. r.name) (sym same) ∙ (ndn.name_eq_iff g.name q).0 hit,
        )
    | inr off ↦ rw off (find-lookup q gs e (ground arith))
  ]
