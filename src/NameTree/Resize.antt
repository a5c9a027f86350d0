-- ===== src/NameTree/Resize.antt =====
-- NameTree::resize of daemon/table/name-tree.cpp.
use Prim.Native.Nat.{◌∣◌}
use nfd_pitless.Base.{
  zero, subst, ℕ, suc, ◌+◌, ◌-◌, ◌*◌, ◌%◌, ◌^◌, ◌≤◌, ◌<◌, ◌≡◌, ◌∙◌, refl, sym, ap, Bool, true, List,
  [], ◌∷◌, ◌++◌, arith, ◌==◌, find_if, copy_if, count_if, length, length-replicate, replicate, All,
  Bool-cases, inl, inr,
}
use mathlib.Core.List.{append_assoc, append-nil}
use native.Mathlib.Nat.{mod-lt, mod-mod_of_dvd, dvd-mul_left, two-pow-succ, add-mul}
use nfd_pitless.Ndn.{Ndn}
use nfd_pitless.NameTree.{
  Hashing, flatten, bucket_at, change_at, compute_hash, Entry, NameTree, is_named, entry_at,
  is_match, find_exact_match, location_in, rehash, resize,
}
use nfd_pitless.NameTree.Buckets.{
  find_if-copy_if, find_if_same, All-weaken, length-change_at, bucket_at-changed, bucket_at_others,
  bucket_at-replicate, flatten-replicate, count_if-append, count_if-pushed,
}
use nfd_pitless.NameTree.Invariant.{
  IsPower, power_positive, IsPlaced, IsTree, match_named, flat_hashed, find_exact_match_lem,
}

pow_add : (m k : ℕ) → 2 ^ m * 2 ^ k ≡ 2 ^ (m + k)
pow_add zero k = let sum : 0 + k ≡ k = omega arith in omega (arith, ap (λ e. 2 ^ e) sum)
pow_add (suc m) k =
    let sum : suc m + k ≡ suc (m + k) = omega arith in
    rw (two-pow-succ m) (
      add-mul (2 ^ m) (2 ^ m) (2 ^ k)
      ∙ omega (arith, pow_add m k, two-pow-succ (m + k), ap (λ e. 2 ^ e) sum))

-- A power of two below 2 ^ 32 sees the low half of a hash alone.
pub low_half : (h n : ℕ) → IsPower n → h % 2 ^ 32 % n ≡ h % n
low_half h n power =
    let sum : 32 - power.0 + power.0 ≡ 32 = omega (arith, power.1) in
    let divides : 2 ^ power.0 ∣ 2 ^ 32 =
      subst (λ m. 2 ^ power.0 ∣ m) (pow_add (32 - power.0) power.0 ∙ ap (λ m. 2 ^ m) sum)
        (dvd-mul_left (2 ^ power.0) (2 ^ (32 - power.0))) in
    rw (power.2) (mod-mod_of_dvd (2 ^ power.0) h divides)

module _ (ndn : Ndn) (hashing : Hashing ndn) where
  length-rehash :
      (n : ℕ) (es : List (Entry ndn hashing)) (bs : List (List (Entry ndn hashing)))
      → length (rehash ndn hashing n es bs) ≡ length bs
  unfolding rehash
  length-rehash n [] bs = refl
  length-rehash n (e ∷ es) bs =
      length-rehash n es _
      ∙ length-change_at (location_in ndn hashing n e) (λ chain. chain ++ e ∷ []) bs

  count_if-rehash :
      (p : Entry ndn hashing → Bool) (n : ℕ) (es : List (Entry ndn hashing))
      (bs : List (List (Entry ndn hashing)))
      → 1 ≤ n
      → length bs ≡ n
      → count_if p (flatten (rehash ndn hashing n es bs)) ≡ count_if p es + count_if p (flatten bs)
  unfolding rehash
  count_if-rehash p n [] bs some_n wide = omega arith
  count_if-rehash p n (e ∷ es) bs some_n wide =
      let loc = location_in ndn hashing n e in
      let there : loc < length bs = omega (arith, mod-lt (e.hash % 2 ^ 32) some_n, wide) in
      omega (
        arith,
        count_if-rehash p n es (change_at loc (λ chain. chain ++ e ∷ []) bs) some_n
            (length-change_at loc (λ chain. chain ++ e ∷ []) bs ∙ wide),
        count_if-pushed p loc e bs there,
        count_if-append p (e ∷ []) es,
      )

  -- A new bucket gets the entries of its location, in their order.
  bucket_at-rehash :
      (n i : ℕ) (es : List (Entry ndn hashing)) (bs : List (List (Entry ndn hashing)))
      → 1 ≤ n
      → length bs ≡ n
      → bucket_at i (rehash ndn hashing n es bs)
        ≡ bucket_at i bs ++ copy_if (λ e. location_in ndn hashing n e == i) es
  unfolding rehash
  bucket_at-rehash n i [] bs some_n wide = sym (append-nil _)
  bucket_at-rehash n i (e ∷ es) bs some_n wide =
      let loc = location_in ndn hashing n e in
      let push : List (Entry ndn hashing) → List (Entry ndn hashing) = λ chain. chain ++ e ∷ [] in
      let there : loc < length bs = omega (arith, mod-lt (e.hash % 2 ^ 32) some_n, wide) in
      let rest =
        bucket_at-rehash n i es (change_at loc push bs) some_n
          (length-change_at loc push bs ∙ wide) in
      elim (Bool-cases (loc == i)) [
        | inl hit ↦
            let same : i ≡ loc = ground (arith, hit) in
            rest
            ∙ rw hit (
                ap (λ xs. xs ++ copy_if (λ e. location_in ndn hashing n e == i) es)
                  (rw same (bucket_at-changed loc push bs there))
                ∙ append_assoc (bucket_at i bs) (e ∷ []) _)
        | inr off ↦
            rest
            ∙ rw off (
                ap (λ xs. xs ++ copy_if (λ e. location_in ndn hashing n e == i) es)
                  (bucket_at_others i loc push bs (ground (arith, off))))
      ]

  -- The buckets after a resizing, one by one.
  bucket_at-resize :
      (n i : ℕ) (t : NameTree ndn hashing)
      → IsPower n
      → bucket_at i (resize ndn hashing n t).buckets
        ≡ copy_if (λ e. location_in ndn hashing n e == i) (flatten t.buckets)
  unfolding resize
  bucket_at-resize n i t power =
      bucket_at-rehash n i (flatten t.buckets) (replicate n []) (power_positive n power)
        (length-replicate n [])
      ∙ rw (bucket_at-replicate {A = Entry ndn hashing} i n) refl

  copied-IsPlaced :
      (n i : ℕ) (es : List (Entry ndn hashing))
      → IsPower n
      → All (λ e. e.hash ≡ compute_hash ndn hashing e.prefix) es
      → All (IsPlaced ndn hashing n i) (copy_if (λ e. location_in ndn hashing n e == i) es)
  copied-IsPlaced n i [] power h = tt
  copied-IsPlaced n i (e ∷ es) power h = elim (Bool-cases (location_in ndn hashing n e == i)) [
    | inr off ↦ rw off (copied-IsPlaced n i es power h.1)
    | inl hit ↦
        let here : location_in ndn hashing n e ≡ i = ground (arith, hit) in
        rw hit ((sym (low_half e.hash n power) ∙ here, h.0), copied-IsPlaced n i es power h.1)
  ]

  -- The entries are as many as before, whichever are counted.
  count_if-resize :
      (p : Entry ndn hashing → Bool) (n : ℕ) (t : NameTree ndn hashing)
      → IsPower n
      → count_if p (flatten (resize ndn hashing n t).buckets) ≡ count_if p (flatten t.buckets)
  unfolding resize
  count_if-resize p n t power =
      let none_there : count_if p (flatten (replicate n [])) ≡ 0 =
        rw (flatten-replicate {A = Entry ndn hashing} n) refl in
      omega (
        arith,
        count_if-rehash p n (flatten t.buckets) (replicate n []) (power_positive n power)
            (length-replicate n []),
        none_there,
      )

  pub resize-IsTree :
      (n : ℕ) (t : NameTree ndn hashing)
      → IsPower n
      → IsTree ndn hashing t
      → IsTree ndn hashing (resize ndn hashing n t)
  unfolding resize
  resize-IsTree n t power tree = record {
    wide = length-rehash n (flatten t.buckets) (replicate n []) ∙ length-replicate n [];
    power = power;
    loaded = refl;
    some_minimum = tree.some_minimum;
    placed = λ i.
        rw (bucket_at-resize n i t power)
          (copied-IsPlaced n i (flatten t.buckets) power (flat_hashed ndn hashing t tree));
    counted = tree.counted ∙ sym (count_if-resize (λ e. true) n t power);
    once = λ q. rw (count_if-resize (is_named ndn hashing q) n t power) (tree.once q);
  }

  -- In a name tree of a power of two of buckets, at most 2 ^ 32, whose entries stand, one for each
  -- name, in the buckets of their hashes: resizing the hash table to another such number of buckets
  -- leaves what findExactMatch returns for every name.
  pub find_exact_match-resize :
      (n : ℕ) (t : NameTree ndn hashing)
      → IsPower n
      → IsTree ndn hashing t
      → (p : ndn.Name)
      → find_exact_match ndn hashing p (resize ndn hashing n t) ≡ find_exact_match ndn hashing p t
  unfolding find_exact_match entry_at resize
  find_exact_match-resize n t power tree p =
      let loc = compute_hash ndn hashing p % n in
      ap (find_if (is_match ndn hashing p)) (bucket_at-resize n loc t power)
      ∙ (find_if-copy_if (is_match ndn hashing p) (λ e. location_in ndn hashing n e == loc)
            (flatten t.buckets) (λ e hit. located e hit)
          ∙ (find_if_same (is_match ndn hashing p) (is_named ndn hashing p) (flatten t.buckets) (
                All-weaken (flatten t.buckets) (match_named ndn hashing p)
                  (flat_hashed ndn hashing t tree))
              ∙ sym (find_exact_match_lem ndn hashing t tree p)))
    where
      located :
          (e : Entry ndn hashing)
          → is_match ndn hashing p e ≡ true
          → (location_in ndn hashing n e == (compute_hash ndn hashing p % n)) ≡ true
      located e hit =
          let same : compute_hash ndn hashing p ≡ e.hash = ground (arith, hit) in
          let here : location_in ndn hashing n e ≡ compute_hash ndn hashing p % n =
            low_half e.hash n power ∙ ap (λ h. h % n) (sym same) in
          ground (arith, here)

  pub entry_at-resize :
      (n : ℕ) (t : NameTree ndn hashing)
      → IsPower n
      → IsTree ndn hashing t
      → (p : ndn.Name) → entry_at ndn hashing p (resize ndn hashing n t) ≡ entry_at ndn hashing p t
  entry_at-resize n t power tree p =
      sym
        (find_exact_match_lem ndn hashing (resize ndn hashing n t) (resize-IsTree n t power tree) p)
      ∙ (find_exact_match-resize n t power tree p ∙ find_exact_match_lem ndn hashing t tree p)
