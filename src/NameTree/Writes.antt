-- ===== src/NameTree/Writes.antt =====
-- Writes to the entries of daemon/table/name-tree-entry.cpp through pointers to them.
use nfd_pitless.Base.{
  ℕ, ◌≡◌, ◌∙◌, refl, sym, ap, Bool, true, map, Option, none, some, if◌then◌else◌, find_if, count_if,
  Bool-cases, inl, inr,
}
use nfd_pitless.Ndn.{Ndn}
use nfd_pitless.NameTree.{
  Attached, Hashing, flatten, bucket_at, Entry, NameTree, is_named, entry_at, write, link,
}
use nfd_pitless.NameTree.Buckets.{
  on_some, bucket_at-map, find_if-map, count_if-map, flatten-map, All-map, length-map,
}
use nfd_pitless.NameTree.Invariant.{IsPlaced, IsTree}

module _ (ndn : Ndn) (hashing : Hashing ndn) where
  abbrev pub attached_at : ndn.Name → NameTree ndn hashing → Option Attached
  attached_at q t = on_some (λ e. e.attached) (entry_at ndn hashing q t)

  abbrev pub parent_at : ndn.Name → NameTree ndn hashing → Option (Option ndn.Name)
  parent_at q t = on_some (λ e. e.parent) (entry_at ndn hashing q t)

  -- A write that leaves the prefix and the hash.
  abbrev pub IsKeeping : (Entry ndn hashing → Entry ndn hashing) → Type 0
  IsKeeping f = (e : Entry ndn hashing) → ((f e).prefix ≡ e.prefix) × ((f e).hash ≡ e.hash)

  abbrev written :
      ndn.Name → (Entry ndn hashing → Entry ndn hashing) → Entry ndn hashing → Entry ndn hashing
  written name f e = if is_named ndn hashing name e then f e else e

  written-IsKeeping :
      (name : ndn.Name) (f : Entry ndn hashing → Entry ndn hashing)
      → IsKeeping f
      → IsKeeping (written name f)
  written-IsKeeping name f h e = elim (Bool-cases (is_named ndn hashing name e)) [
    | inl hit ↦ rw hit (h e)
    | inr off ↦ rw off (refl, refl)
  ]

  same_name :
      (f : Entry ndn hashing → Entry ndn hashing)
      → IsKeeping f
      → (q : ndn.Name) (e : Entry ndn hashing)
      → is_named ndn hashing q (f e) ≡ is_named ndn hashing q e
  same_name f h q e = ap (ndn.name_eq q) (h e).0

  same_place :
      (f : Entry ndn hashing → Entry ndn hashing)
      → IsKeeping f
      → (n i : ℕ) (e : Entry ndn hashing) → IsPlaced ndn hashing n i e
      → IsPlaced ndn hashing n i (f e)
  same_place f h n i e placed = rw ((h e).0, (h e).1) placed

  count_if-write :
      (name : ndn.Name) (f : Entry ndn hashing → Entry ndn hashing) (t : NameTree ndn hashing)
      (p : Entry ndn hashing → Bool)
      → ((e : Entry ndn hashing) → p (written name f e) ≡ p e)
      → count_if p (flatten (write ndn hashing name f t).buckets) ≡ count_if p (flatten t.buckets)
  count_if-write name f t p h =
      ap (count_if p) (flatten-map (written name f) t.buckets)
      ∙ count_if-map (written name f) p (flatten t.buckets) h

  pub write-IsTree :
      (name : ndn.Name) (f : Entry ndn hashing → Entry ndn hashing) (t : NameTree ndn hashing)
      → IsKeeping f
      → IsTree ndn hashing t
      → IsTree ndn hashing (write ndn hashing name f t)
  write-IsTree name f t h tree =
      let keeps = written-IsKeeping name f h in
      record {
        wide = length-map (map (written name f)) t.buckets ∙ tree.wide;
        power = tree.power;
        loaded = tree.loaded;
        some_minimum = tree.some_minimum;
        placed = λ i. rw (bucket_at-map (written name f) i t.buckets) (
            All-map (written name f) (bucket_at i t.buckets)
              (same_place (written name f) keeps t.n_buckets i) (tree.placed i));
        counted = tree.counted ∙ sym (count_if-write name f t (λ e. true) (λ e. refl));
        once = λ q.
            rw
              (count_if-write name f t (is_named ndn hashing q)
                (same_name (written name f) keeps q))
              (tree.once q);
      }

  pub entry_at-write :
      (name : ndn.Name) (f : Entry ndn hashing → Entry ndn hashing) (t : NameTree ndn hashing)
      → IsKeeping f
      → (q : ndn.Name)
      → entry_at ndn hashing q (write ndn hashing name f t)
        ≡ on_some (λ e. if is_named ndn hashing name e then f e else e) (entry_at ndn hashing q t)
  unfolding entry_at
  entry_at-write name f t h q =
      ap (find_if (is_named ndn hashing q)) (flatten-map (written name f) t.buckets)
      ∙ find_if-map (written name f) (is_named ndn hashing q) (flatten t.buckets)
          (same_name (written name f) (written-IsKeeping name f h) q)

  on_some_same :
      {B : Type 0} (f : Entry ndn hashing → B) (g : Entry ndn hashing → Entry ndn hashing)
      (o : Option (Entry ndn hashing))
      → ((e : Entry ndn hashing) → f (g e) ≡ f e)
      → on_some f (on_some g o) ≡ on_some f o
  on_some_same f g none h = refl
  on_some_same f g (some e) h = ap some (h e)

  -- A write that leaves a field leaves it everywhere.
  field-write :
      {B : Type 0} (field : Entry ndn hashing → B) (name : ndn.Name)
      (f : Entry ndn hashing → Entry ndn hashing) (t : NameTree ndn hashing)
      → IsKeeping f
      → ((e : Entry ndn hashing) → field (f e) ≡ field e)
      → (q : ndn.Name)
      → on_some field (entry_at ndn hashing q (write ndn hashing name f t))
        ≡ on_some field (entry_at ndn hashing q t)
  field-write field name f t h same q =
      ap (on_some field) (entry_at-write name f t h q)
      ∙ on_some_same field (written name f) (entry_at ndn hashing q t) still
    where
      still : (e : Entry ndn hashing) → field (written name f e) ≡ field e
      still e = elim (Bool-cases (is_named ndn hashing name e)) [
        | inl hit ↦ rw hit (same e)
        | inr off ↦ rw off refl
      ]

  pub attached_at-write :
      (name : ndn.Name) (f : Entry ndn hashing → Entry ndn hashing) (t : NameTree ndn hashing)
      → IsKeeping f
      → ((e : Entry ndn hashing) → (f e).attached ≡ e.attached)
      → (q : ndn.Name) → attached_at q (write ndn hashing name f t) ≡ attached_at q t
  attached_at-write name f t h same q = field-write (λ e. e.attached) name f t h same q

  pub parent_at-write :
      (name : ndn.Name) (f : Entry ndn hashing → Entry ndn hashing) (t : NameTree ndn hashing)
      → IsKeeping f
      → ((e : Entry ndn hashing) → (f e).parent ≡ e.parent)
      → (q : ndn.Name) → parent_at q (write ndn hashing name f t) ≡ parent_at q t
  parent_at-write name f t h same q = field-write (λ e. e.parent) name f t h same q

  pub link-IsTree :
      (parent : Option ndn.Name) (child : ndn.Name) (t : NameTree ndn hashing)
      → IsTree ndn hashing t
      → IsTree ndn hashing (link ndn hashing parent child t)
  unfolding link
  link-IsTree none child t tree = write-IsTree child _ t (λ e. (refl, refl)) tree
  link-IsTree (some q) child t tree =
      write-IsTree q _ _ (λ e. (refl, refl)) (write-IsTree child _ t (λ e. (refl, refl)) tree)

  pub attached_at-link :
      (parent : Option ndn.Name) (child : ndn.Name) (t : NameTree ndn hashing) (q : ndn.Name)
      → attached_at q (link ndn hashing parent child t) ≡ attached_at q t
  unfolding link
  attached_at-link none child t q = attached_at-write child _ t (λ e. (refl, refl)) (λ e. refl) q
  attached_at-link (some p) child t q =
      attached_at-write p _ _ (λ e. (refl, refl)) (λ e. refl) q
      ∙ attached_at-write child _ t (λ e. (refl, refl)) (λ e. refl) q

  pub n_items-link :
      (parent : Option ndn.Name) (child : ndn.Name) (t : NameTree ndn hashing)
      → (link ndn hashing parent child t).n_items ≡ t.n_items
  unfolding link
  n_items-link none child t = refl
  n_items-link (some p) child t = refl
