-- ===== src/Cs/Cached.antt =====
-- The table of daemon/table/cs.cpp and the queue of cs-policy-lru.cpp.
use nfd_pitless.Base.{
  ℕ, suc, ◌≤◌, ◌≡◌, ◌↔◌, ◌∙◌, refl, sym, ap, Bool, true, false, not, ◌&&◌, ◌||◌, List, [], ◌∷◌,
  arith, ltb, length, length-append, Bool-cases, inl, inr,
}
use nfd_pitless.Ndn.{Ndn, Data}
use nfd_pitless.Rib.Names.{NameOrder}
use nfd_pitless.Cs.{
  EntryImpl, Iterator, iterator_of, same_iterator, Cs, data_less, place, refresh, insert_to_queue,
  evict_from,
}
use nfd_pitless.Cs.Queue

or_swap : (a b c : Bool) → (a || (b || c)) ≡ (b || (a || c))
or_swap true true c = refl
or_swap true false c = refl
or_swap false true c = refl
or_swap false false c = refl

module _ (ndn : Ndn) (order : NameOrder ndn) (digest : Data ndn → ℕ) where
  abbrev pub It : Type 0
  It = Iterator ndn order digest

  pub same_iterator_iff : (i j : It) → (same_iterator ndn order digest i j ≡ true) ↔ (i ≡ j)
  same_iterator_iff i j = (
    λ h.
        let names : i.0 ≡ j.0 = ground (arith, ndn.name_eq_iff i.0 j.0) in
        let digests : i.1 ≡ j.1 = ground arith in λ k. (names k, digests k),
    λ h. rw h (ground (arith, ndn.name_eq_iff j.0 j.0)),
  )

  abbrev pub key : EntryImpl ndn → It
  key e = iterator_of ndn order digest e.packet

  abbrev pub eq : It → It → Bool
  eq i j = same_iterator ndn order digest i j

  eq_swap : (i j : It) → eq i j ≡ eq j i
  eq_swap i j = elim (Bool-cases (eq i j)) [
    | inl hit ↦ rw ((same_iterator_iff i j).0 hit) refl
    | inr off ↦ elim (Bool-cases (eq j i)) [
      | inl hit ↦ rw ((same_iterator_iff j i).0 hit) refl
      | inr off' ↦ off ∙ sym off'
    ]
  ]

  abbrev pub in_table : It → List (EntryImpl ndn) → Bool
  in_table i es = Queue.has_key key eq same_iterator_iff i es

  abbrev pub in_queue : It → List It → Bool
  in_queue i q = Queue.has_key (λ j. j) eq same_iterator_iff i q

  -- The queue has the entries of the table, each once.
  pub record IsQueued (table : List (EntryImpl ndn)) (queue : List It) : Type 0 where
    pub table_once : Queue.NoTwo key eq same_iterator_iff table
    pub queue_once : Queue.NoTwo (λ (j : It). j) eq same_iterator_iff queue
    pub alike : (i : It) → in_queue i queue ≡ in_table i table
    pub even : length queue ≡ length table

  -- And there are no more of them than the limit.
  pub record IsCached (cs : Cs ndn order digest) : Type 0 where
    pub queued : IsQueued cs.table cs.queue
    pub bounded : length cs.table ≤ cs.limit

  in_table-place :
      (i : It) (e : EntryImpl ndn) (es : List (EntryImpl ndn))
      → in_table i (place ndn order digest e es) ≡ (eq (key e) i || in_table i es)
  unfolding place
  in_table-place i e [] = refl
  in_table-place i e (f ∷ fs) = elim (Bool-cases (data_less ndn order digest e.packet f.packet)) [
    | inl hit ↦ rw (hit, place) refl
    | inr off ↦
        rw (off, place)
          (rw (in_table-place i e fs) (or_swap (eq (key f) i) (eq (key e) i) (in_table i fs)))
  ]

  length-place :
      (e : EntryImpl ndn) (es : List (EntryImpl ndn))
      → length (place ndn order digest e es) ≡ suc (length es)
  unfolding place
  length-place e [] = refl
  length-place e (f ∷ fs) = elim (Bool-cases (data_less ndn order digest e.packet f.packet)) [
    | inl hit ↦ rw (hit, place) refl
    | inr off ↦ rw (off, place) (ap suc (length-place e fs))
  ]

  place-NoTwo :
      (e : EntryImpl ndn) (es : List (EntryImpl ndn))
      → in_table (key e) es ≡ false
      → Queue.NoTwo key eq same_iterator_iff es
      → Queue.NoTwo key eq same_iterator_iff (place ndn order digest e es)
  unfolding place
  place-NoTwo e [] fresh h = (refl, tt)
  place-NoTwo e (f ∷ fs) fresh h =
      elim (Bool-cases (data_less ndn order digest e.packet f.packet)) [
        | inl hit ↦ rw (hit, place) (fresh, h)
        | inr off ↦
            rw (off, place)
              (
                in_table-place (key f) e fs ∙ rw (eq_swap (key e) (key f)) (ground (arith, h.0)),
                place-NoTwo e fs (ground arith) h.1,
              )
      ]

  -- The entry at the front of the queue is removed from both.
  pub evicted :
      (i : It) (queue : List It) (table : List (EntryImpl ndn))
      → IsQueued table (i ∷ queue)
      → IsQueued (Queue.erase_key key eq same_iterator_iff i table) queue
  evicted i queue table h =
      let itself : eq i i ≡ true = (same_iterator_iff i i).1 refl in
      let there : in_table i table ≡ true = sym (h.alike i) ∙ rw itself refl in
      record {
        table_once = Queue.erase-NoTwo key eq same_iterator_iff i table h.table_once;
        queue_once = h.queue_once.1;
        alike =
            λ j. others j ∙ sym (Queue.has-erase key eq same_iterator_iff i j table h.table_once);
        even = omega (arith, h.even, Queue.length-erase key eq same_iterator_iff i table there);
      }
    where
      others : (j : It) → in_queue j queue ≡ (not (eq i j) && in_table j table)
      others j = elim (Bool-cases (eq i j)) [
        | inl hit ↦ rw hit (rw⁻¹ ((same_iterator_iff i j).0 hit) h.queue_once.0)
        | inr off ↦ rw off (ground (arith, h.alike j))
      ]

  pub evict_from-IsCached :
      (queue : List It) (limit : ℕ) (table : List (EntryImpl ndn))
      → IsQueued table queue
      → IsCached (evict_from ndn order digest queue limit table)
  unfolding evict_from
  evict_from-IsCached [] limit table h = record { queued = h; bounded = omega (arith, h.even) }
  evict_from-IsCached (i ∷ queue) limit table h = elim (Bool-cases (ltb limit (length table))) [
    | inr fits ↦ rw (fits, evict_from) (record { queued = h; bounded = ground (arith) })
    | inl over ↦ rw (over, evict_from) (evict_from-IsCached queue limit _ (evicted i queue table h))
  ]

  -- An entry that is there goes to the end of the queue.
  pub requeued :
      (i : It) (queue : List It) (table : List (EntryImpl ndn))
      → in_table i table ≡ true
      → IsQueued table queue
      → IsQueued table (insert_to_queue ndn order digest i false queue)
  unfolding insert_to_queue
  requeued i queue table there h =
      let itself : eq i i ≡ true = (same_iterator_iff i i).1 refl in
      let waits : in_queue i queue ≡ true = h.alike i ∙ there in
      let less = Queue.erase_key (λ (j : It). j) eq same_iterator_iff i queue in
      let gone : in_queue i less ≡ false =
        Queue.has-erase (λ (j : It). j) eq same_iterator_iff i i queue h.queue_once
        ∙ rw itself refl in
      rw (waits, insert_to_queue)
        (record {
          table_once = h.table_once;
          queue_once =
              Queue.append-NoTwo (λ (j : It). j) eq same_iterator_iff i less gone
                (Queue.erase-NoTwo (λ (j : It). j) eq same_iterator_iff i queue h.queue_once);
          alike = λ j.
              Queue.has-append (λ (k : It). k) eq same_iterator_iff j less (i ∷ [])
              ∙ (rw (Queue.has-erase (λ (k : It). k) eq same_iterator_iff i j queue h.queue_once)
                    (others waits j)
                  ∙ h.alike j);
          even = omega (
            arith,
            h.even,
            length-append less (i ∷ []),
            Queue.length-erase (λ (j : It). j) eq same_iterator_iff i queue waits,
          );
        })
    where
      or_false : (b : Bool) → (b || false) ≡ b
      or_false true = refl
      or_false false = refl

      others :
          in_queue i queue ≡ true
          → (j : It) → ((not (eq i j) && in_queue j queue) || (eq i j || false)) ≡ in_queue j queue
      others waits j = elim (Bool-cases (eq i j)) [
        | inl hit ↦ rw hit (sym (rw⁻¹ ((same_iterator_iff i j).0 hit) waits))
        | inr off ↦ rw off (or_false (in_queue j queue))
      ]

  -- A new entry goes into both.
  pub placed :
      (e : EntryImpl ndn) (queue : List It) (table : List (EntryImpl ndn))
      → in_table (key e) table ≡ false
      → IsQueued table queue
      → IsQueued
          (place ndn order digest e table)
          (insert_to_queue ndn order digest (key e) true queue)
  unfolding insert_to_queue
  placed e queue table fresh h =
      let absent : in_queue (key e) queue ≡ false = h.alike (key e) ∙ fresh in
      rw (absent, insert_to_queue)
        (record {
          table_once = place-NoTwo e table fresh h.table_once;
          queue_once =
              Queue.append-NoTwo (λ (j : It). j) eq same_iterator_iff (key e) queue absent
                h.queue_once;
          alike = λ j.
              Queue.has-append (λ (k : It). k) eq same_iterator_iff j queue (key e ∷ [])
              ∙ (rw (h.alike j) (to_front (in_table j table) (eq (key e) j))
                  ∙ sym (in_table-place j e table));
          even = omega (arith, h.even, length-append queue (key e ∷ []), length-place e table);
        })
    where
      to_front : (a b : Bool) → (a || (b || false)) ≡ (b || a)
      to_front true true = refl
      to_front true false = refl
      to_front false true = refl
      to_front false false = refl

  pub refreshed :
      (now : ℕ) (u : Bool) (i : It) (queue : List It) (table : List (EntryImpl ndn))
      → IsQueued table queue
      → IsQueued (refresh ndn order digest now u i table) queue
  unfolding refresh
  refreshed now u i queue table h = record {
    table_once = once table h.table_once;
    queue_once = h.queue_once;
    alike = λ j. h.alike j ∙ sym (has table j);
    even = h.even ∙ sym (longs table);
  }
    where
      has :
          (es : List (EntryImpl ndn)) (j : It)
          → in_table j (refresh ndn order digest now u i es) ≡ in_table j es
      has [] j = refl
      has (e ∷ es) j = elim (Bool-cases (eq (key e) i)) [
        | inl hit ↦ rw (hit, refresh) refl
        | inr off ↦ rw (off, refresh) (ap (λ b. eq (key e) j || b) (has es j))
      ]

      longs : (es : List (EntryImpl ndn)) → length (refresh ndn order digest now u i es) ≡ length es
      longs [] = refl
      longs (e ∷ es) = elim (Bool-cases (eq (key e) i)) [
        | inl hit ↦ rw (hit, refresh) refl
        | inr off ↦ rw (off, refresh) (ap suc (longs es))
      ]

      once :
          (es : List (EntryImpl ndn))
          → Queue.NoTwo key eq same_iterator_iff es
          → Queue.NoTwo key eq same_iterator_iff (refresh ndn order digest now u i es)
      once [] k = tt
      once (e ∷ es) k = elim (Bool-cases (eq (key e) i)) [
        | inl hit ↦ rw (hit, refresh) k
        | inr off ↦ rw (off, refresh) (has es (key e) ∙ k.0, once es k.1)
      ]
