-- ===== src/DeadNonce/Retention.antt =====
-- How long the Dead Nonce List (daemon/table/dead-nonce-list.cpp) remembers a nonce.
use mathlib.Core.List.{append_assoc}
use nfd_pitless.Base.{
  ℕ, zero, suc, ◌+◌, ◌-◌, ◌≤◌, ◌<◌, ◌≡◌, refl, ◌∙◌, min, Bool, true, List, [], ◌∷◌, ◌++◌, arith,
  length, drop, ◌==◌, any_of, length-append, ==-refl, ap,
}
use nfd_pitless.DeadNonce.{DeadNonceList, evict_entries, make_entry, has, add, evict_limit}
use nfd_pitless.DeadNonce.Bounds.{evict_entries_lem}

drop-append {ℓ} :
    {A : Type ℓ} (k : ℕ) (xs ys : List A) → k ≤ length xs → drop k (xs ++ ys) ≡ drop k xs ++ ys
drop-append zero xs ys h = refl
drop-append (suc k) [] ys h = absurd (omega arith)
drop-append (suc k) (x ∷ xs) ys h = drop-append k xs ys (omega arith)

any_of-here {ℓ} :
    {A : Type ℓ} (p : A → Bool) (xs ys : List A) (a : A)
    → p a ≡ true
    → any_of p (xs ++ a ∷ ys) ≡ true
any_of-here p [] ys a h = rw h
any_of-here p (x ∷ xs) ys a h = ground (arith, any_of-here p xs ys a h)

-- The entry is in the list, with no more than `n` entries behind it.
record Recalls (e n : ℕ) (d : DeadNonceList) : Type 0 where
  front : List ℕ
  back : List ℕ
  split : d.queue ≡ front ++ e ∷ back
  recent : length back ≤ n

-- Entries that are among the last `capacity` outlive an eviction.
evict-Recalls :
    (e n : ℕ) (d : DeadNonceList) → n < d.capacity → Recalls e n d → Recalls e n (evict_entries d)
evict-Recalls e n d h r =
    let k = min (length d.queue - d.capacity) evict_limit in
    record {
      front = drop k r.front;
      back = r.back;
      split =
          (evict_entries_lem d).0
          ∙ ap (drop k) r.split
          ∙ drop-append k r.front _
              (omega (arith, ap length r.split, length-append r.front (e ∷ r.back), r.recent));
      recent = r.recent;
    }

module _ {Name : Type 0} (city_hash : Name → ℕ → ℕ) where
  unfoldable pub add_all : List (Name × ℕ) → DeadNonceList → DeadNonceList
  add_all [] d = d
  add_all ((name, nonce) ∷ more) d = add_all more (add city_hash d name nonce)

  add-Recalls :
      (e n : ℕ) (d : DeadNonceList) (name : Name) (nonce : ℕ)
      → suc n < d.capacity
      → Recalls e n d
      → Recalls e (suc n) (add city_hash d name nonce)
  unfolding add
  add-Recalls e n d name nonce h r = evict-Recalls e (suc n) _ h (record {
    front = r.front;
    back = r.back ++ make_entry city_hash name nonce ∷ [];
    split = rw (r.split) (append_assoc r.front (e ∷ r.back) _);
    recent = omega (arith, r.recent, length-append r.back (make_entry city_hash name nonce ∷ []));
  })

  add_all-Recalls :
      (e n : ℕ) (d : DeadNonceList) (later : List (Name × ℕ))
      → n + length later < d.capacity
      → Recalls e n d
      → Recalls e (n + length later) (add_all later d)
  unfolding add_all add
  add_all-Recalls e n d [] h r = record {
    front = r.front;
    back = r.back;
    split = r.split;
    recent = omega (arith, r.recent);
  }
  add_all-Recalls e n d ((name, nonce) ∷ more) h r =
      let r' = add-Recalls e n d name nonce (omega arith) r in
      let same =
        (evict_entries_lem
          (record d { queue = d.queue ++ make_entry city_hash name nonce ∷ [] })).3 in
      let rest =
        add_all-Recalls e (suc n) (add city_hash d name nonce) more (omega (arith, same)) r' in
      record {
        front = rest.front;
        back = rest.back;
        split = rest.split;
        recent = omega (arith, rest.recent);
      }

  -- A name and nonce that were added are still found after fewer than `capacity` further
  -- additions, whatever these are.
  pub has-add_all :
      (d : DeadNonceList) (name : Name) (nonce : ℕ) (later : List (Name × ℕ))
      → length later < d.capacity
      → has city_hash (add_all later (add city_hash d name nonce)) name nonce ≡ true
  unfolding has add
  has-add_all d name nonce later h =
      let e = make_entry city_hash name nonce in
      let pushed : DeadNonceList = record d { queue = d.queue ++ e ∷ [] } in
      let new : Recalls e 0 (evict_entries pushed) =
        evict-Recalls e 0 pushed (omega arith)
          (record { front = d.queue; back = []; split = refl; recent = omega arith }) in
      let kept = add_all-Recalls e 0 _ later (omega (arith, (evict_entries_lem pushed).3)) new in
      rw (kept.split) (any_of-here (λ x. x == e) kept.front kept.back e (==-refl e))
