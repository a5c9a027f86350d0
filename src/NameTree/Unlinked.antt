-- ===== src/NameTree/Unlinked.antt =====
-- A node that leaves its chain, and the shrinking of the table, in daemon/table/name-tree.cpp.
use nfd_pitless.Base.{
  ℕ, zero, suc, ◌/◌, ◌%◌, ◌≤◌, ◌<◌, ◌≡◌, ◌∙◌, refl, sym, ap, true, false, ◌&&◌, List, [], ◌∷◌, none,
  some, arith, ltb, leb, ◌==◌, find_if, count_if, erase_if, length, All, All-erase_if, Bool-cases,
  inl, inr,
}
use native.Mathlib.Nat.{two-pow-succ}
use nfd_pitless.Ndn.{Ndn}
use nfd_pitless.NameTree.{
  Hashing, flatten, bucket_at, change_at, compute_hash, Entry, NameTree, is_named, entry_at,
  is_match, find_exact_match,
}
use nfd_pitless.NameTree.Chains.{count_if-erased, find_if-erase_if, none_counted, found_passes}
use nfd_pitless.NameTree.Buckets.{length-change_at, bucket_at-changed, bucket_at_others}
use nfd_pitless.NameTree.Invariant.{IsPower, IsPlaced, IsTree, location_lt, find_exact_match_lem}
use nfd_pitless.NameTree.Resize.{resize-IsTree, entry_at-resize}
use nfd_pitless.NameTree.Growth.{named_in_bucket}
use nfd_pitless.NameTree.Erasure.{unlink, shrink}

halved : (n : ℕ) → IsPower n → 1 ≤ n / 2 → IsPower (n / 2)
halved n (zero, below, same) h = absurd (omega (arith, same, h))
halved n (suc k, below, same) h = (k, omega (arith, below), omega (arith, same, two-pow-succ k))

module _ (ndn : Ndn) (hashing : Hashing ndn) where
  pub shrink-IsTree :
      (t : NameTree ndn hashing)
      → IsTree ndn hashing t
      → IsTree ndn hashing (shrink ndn hashing t)
        × ((q : ndn.Name)
            → entry_at ndn hashing q (shrink ndn hashing t) ≡ entry_at ndn hashing q t)
  unfolding shrink
  shrink-IsTree t tree =
      elim (Bool-cases
        (leb t.min_n_buckets (t.n_buckets / 2) && ltb t.n_items t.shrink_threshold)) [
          | inr off ↦ rw (off, shrink) (tree, λ q. refl)
          | inl hit ↦
              let some_left : 1 ≤ t.n_buckets / 2 = ground (arith, hit, tree.some_minimum) in
              let power = halved t.n_buckets tree.power some_left in
              rw (hit, shrink)
                (
                  resize-IsTree ndn hashing (t.n_buckets / 2) t power tree,
                  entry_at-resize ndn hashing (t.n_buckets / 2) t power tree,
                )
        ]

  abbrev erased_at :
      ndn.Name → Entry ndn hashing → NameTree ndn hashing → List (List (Entry ndn hashing))
  erased_at name e t =
      change_at (e.hash % t.n_buckets) (erase_if (is_named ndn hashing name)) t.buckets

  in_its_bucket :
      (name : ndn.Name) (e : Entry ndn hashing) (t : NameTree ndn hashing)
      → IsTree ndn hashing t
      → entry_at ndn hashing name t ≡ some e
      → e.hash ≡ compute_hash ndn hashing name
      → find_if (is_named ndn hashing name) (bucket_at (e.hash % t.n_buckets) t.buckets) ≡ some e
  in_its_bucket name e t tree found hashed =
      ap (λ h. find_if (is_named ndn hashing name) (bucket_at (h % t.n_buckets) t.buckets)) hashed
      ∙ (named_in_bucket ndn hashing t tree name ∙ found)

  -- The entry that goes has the hash of the name.
  pub found_hash :
      (name : ndn.Name) (e : Entry ndn hashing) (t : NameTree ndn hashing)
      → IsTree ndn hashing t
      → entry_at ndn hashing name t ≡ some e
      → e.hash ≡ compute_hash ndn hashing name
  unfolding find_exact_match
  found_hash name e t tree found =
      let loc = compute_hash ndn hashing name % t.n_buckets in
      let hit : is_match ndn hashing name e ≡ true =
        found_passes (is_match ndn hashing name) e (bucket_at loc t.buckets)
          (find_exact_match_lem ndn hashing t tree name ∙ found) in
      ground (arith, hit)

  pub found_name :
      (name : ndn.Name) (e : Entry ndn hashing) (t : NameTree ndn hashing)
      → entry_at ndn hashing name t ≡ some e
      → is_named ndn hashing name e ≡ true
  unfolding entry_at
  found_name name e t found = found_passes (is_named ndn hashing name) e (flatten t.buckets) found

  pub unlink-IsTree :
      (name : ndn.Name) (e : Entry ndn hashing) (t : NameTree ndn hashing)
      → IsTree ndn hashing t
      → entry_at ndn hashing name t ≡ some e
      → IsTree ndn hashing (unlink ndn hashing name e.hash t)
  unfolding unlink
  unlink-IsTree name e t tree found =
      let there = location_lt ndn hashing t tree e.hash in
      let chain = in_its_bucket name e t tree found (found_hash name e t tree found) in
      record {
        wide = length-change_at (e.hash % t.n_buckets) _ t.buckets ∙ tree.wide;
        power = tree.power;
        loaded = tree.loaded;
        some_minimum = tree.some_minimum;
        placed = still_placed there;
        counted = omega (
          arith,
          tree.counted,
          count_if-erased (λ f. true) (is_named ndn hashing name) e (e.hash % t.n_buckets) t.buckets
              chain,
        );
        once = λ q. omega (
          arith,
          tree.once q,
          count_if-erased (is_named ndn hashing q) (is_named ndn hashing name) e
              (e.hash % t.n_buckets) t.buckets chain,
        );
      }
    where
      still_placed :
          e.hash % t.n_buckets < length t.buckets
          → (i : ℕ) → All (IsPlaced ndn hashing t.n_buckets i) (bucket_at i (erased_at name e t))
      still_placed there i = elim (Bool-cases (i == (e.hash % t.n_buckets))) [
        | inl hit ↦
            let same : i ≡ e.hash % t.n_buckets = ground (arith, hit) in
            rw same (
              rw
                (bucket_at-changed (e.hash % t.n_buckets) (erase_if (is_named ndn hashing name))
                  t.buckets there)
                (All-erase_if (IsPlaced ndn hashing t.n_buckets (e.hash % t.n_buckets))
                  (is_named ndn hashing name) _ (tree.placed (e.hash % t.n_buckets))))
        | inr off ↦
            rw
              (bucket_at_others i (e.hash % t.n_buckets) (erase_if (is_named ndn hashing name))
                t.buckets (ground (arith, off)))
              (tree.placed i)
      ]

  -- The name is gone.
  pub entry_at-unlink_itself :
      (name : ndn.Name) (e : Entry ndn hashing) (t : NameTree ndn hashing)
      → IsTree ndn hashing t
      → entry_at ndn hashing name t ≡ some e
      → entry_at ndn hashing name (unlink ndn hashing name e.hash t) ≡ none
  unfolding unlink entry_at
  entry_at-unlink_itself name e t tree found =
      let chain = in_its_bucket name e t tree found (found_hash name e t tree found) in
      let itself = found_name name e t found in
      let one : count_if (is_named ndn hashing name) (e ∷ []) ≡ 1 = rw itself refl in
      none_counted (is_named ndn hashing name) (flatten (erased_at name e t)) (
        omega (
          arith,
          tree.once name,
          one,
          count_if-erased (is_named ndn hashing name) (is_named ndn hashing name) e
              (e.hash % t.n_buckets) t.buckets chain,
        ))

  find_exact_match-unlink :
      (name : ndn.Name) (e : Entry ndn hashing) (t : NameTree ndn hashing) (q : ndn.Name)
      → IsTree ndn hashing t
      → ndn.name_eq q name ≡ false
      → find_exact_match ndn hashing q (unlink ndn hashing name e.hash t)
        ≡ find_exact_match ndn hashing q t
  unfolding unlink find_exact_match
  find_exact_match-unlink name e t q tree differ =
      elim (Bool-cases ((compute_hash ndn hashing q % t.n_buckets) == (e.hash % t.n_buckets))) [
        | inr off ↦ ap (find_if (is_match ndn hashing q)) (
            bucket_at_others (compute_hash ndn hashing q % t.n_buckets) (e.hash % t.n_buckets)
              (erase_if (is_named ndn hashing name)) t.buckets (ground (arith, off)))
        | inl hit ↦
            let same : compute_hash ndn hashing q % t.n_buckets ≡ e.hash % t.n_buckets =
              ground (arith, hit) in
            rw same (
              ap (find_if (is_match ndn hashing q)) (
                bucket_at-changed (e.hash % t.n_buckets) (erase_if (is_named ndn hashing name))
                  t.buckets (location_lt ndn hashing t tree e.hash))
              ∙ find_if-erase_if (is_match ndn hashing q) (is_named ndn hashing name)
                  (bucket_at (e.hash % t.n_buckets) t.buckets) other)
      ]
    where
      other :
          (f : Entry ndn hashing)
          → is_match ndn hashing q f ≡ true
          → is_named ndn hashing name f ≡ false
      other f hit = elim (Bool-cases (is_named ndn hashing name f)) [
        | inr off ↦ off
        | inl named ↦
            let at_q : q ≡ f.prefix = (ndn.name_eq_iff q f.prefix).0 (ground (arith, hit)) in
            let at_name : name ≡ f.prefix = (ndn.name_eq_iff name f.prefix).0 named in
            let same = (ndn.name_eq_iff q name).1 (at_q ∙ sym at_name) in
            absurd (ground (arith, same, differ))
      ]

  -- The others are as they were.
  pub entry_at-unlink :
      (name : ndn.Name) (e : Entry ndn hashing) (t : NameTree ndn hashing) (q : ndn.Name)
      → IsTree ndn hashing t
      → entry_at ndn hashing name t ≡ some e
      → ndn.name_eq q name ≡ false
      → entry_at ndn hashing q (unlink ndn hashing name e.hash t) ≡ entry_at ndn hashing q t
  entry_at-unlink name e t q tree found differ =
      sym (
        find_exact_match_lem ndn hashing (unlink ndn hashing name e.hash t)
          (unlink-IsTree name e t tree found) q)
      ∙ (find_exact_match-unlink name e t q tree differ ∙ find_exact_match_lem ndn hashing t tree q)
