-- ===== src/Cs/Runs.antt =====
-- What happens to the Content Store of daemon/table/cs.cpp under cs-policy-lru.cpp.
use nfd_pitless.Base.{
  ℕ, ◌≤◌, ◌≡◌, ◌∙◌, refl, sym, subst, Bool, true, false, ◌||◌, if_keeps, List, [], ◌∷◌, ◌++◌, arith,
  if◌then◌else◌, ◌==◌, ltb, any_of, length, Bool-cases, inl, inr,
}
use nfd_pitless.Ndn.{Ndn, Data}
use nfd_pitless.Rib.Names.{NameOrder}
use nfd_pitless.Cs.{
  EntryImpl, iterator_of, is_at, Cs, stale_time_of, place, insert_to_queue, evict_from,
  evict_entries, set_limit, store, insert, before_use, new_cs,
}
use nfd_pitless.Cs.Queue
use nfd_pitless.Cs.Cached.{
  It, eq, same_iterator_iff, in_table, in_queue, IsQueued, IsCached, evict_from-IsCached, evicted,
  requeued, placed, refreshed,
}

or_true : (b : Bool) → (b || true) ≡ true
or_true true = refl
or_true false = refl

if_false : {A : Type 0} (b : Bool) (x y : A) → b ≡ false → (if b then x else y) ≡ y
if_false b x y off = rw off refl

module _ (ndn : Ndn) (order : NameOrder ndn) (digest : Data ndn → ℕ) where
  pub data Event : Type 0 where
    inserted : ℕ → Data ndn → Bool → Event
    used : It ndn order digest → Event
    limited : ℕ → Event

  -- An entry that is used is one that the table has.
  unfoldable pub step : Event → Cs ndn order digest → Cs ndn order digest
  unfolding insert before_use set_limit
  step (inserted now d is_unsolicited) cs = (insert ndn order digest now d is_unsolicited cs).0
  step (used i) cs =
      if any_of (is_at ndn order digest i) cs.table then before_use ndn order digest i cs else cs
  step (limited n) cs = set_limit ndn order digest n cs

  unfoldable pub run : List Event → Cs ndn order digest → Cs ndn order digest
  unfolding step
  run [] cs = cs
  run (e ∷ es) cs = run es (step e cs)

  store-IsCached :
      (now : ℕ) (d : Data ndn) (u : Bool) (cs : Cs ndn order digest)
      → IsCached ndn order digest cs
      → IsCached ndn order digest (store ndn order digest now d u cs)
  unfolding store evict_entries
  store-IsCached now d u cs h =
      let i = iterator_of ndn order digest d in
      elim (Bool-cases (in_table ndn order digest i cs.table)) [
        | inl there ↦
            let moved = requeued ndn order digest i cs.queue cs.table there h.queued in
            let renewed = refreshed ndn order digest now u i _ cs.table moved in
            rw (there, store)
              (record {
                queued = renewed;
                bounded = omega (arith, h.bounded, moved.even, renewed.even);
              })
        | inr fresh ↦
            rw (fresh, store)
              (evict_from-IsCached ndn order digest _ cs.limit _ (
                placed ndn order digest
                  (record {
                    packet = d;
                    is_unsolicited = u;
                    stale_time = stale_time_of ndn order digest now d;
                  })
                  cs.queue cs.table fresh h.queued))
      ]

  insert-IsCached :
      (now : ℕ) (d : Data ndn) (u : Bool) (cs : Cs ndn order digest)
      → IsCached ndn order digest cs
      → IsCached ndn order digest (insert ndn order digest now d u cs).0
  unfolding insert
  insert-IsCached now d u cs h =
      if_keeps (λ (r : Cs ndn order digest × Bool). IsCached ndn order digest r.0) d.no_cache
        (cs, false) (store ndn order digest now d u cs, true) h (store-IsCached now d u cs h)

  step-IsCached :
      (e : Event) (cs : Cs ndn order digest)
      → IsCached ndn order digest cs
      → IsCached ndn order digest (step e cs)
  unfolding step before_use set_limit evict_entries
  step-IsCached (inserted now d u) cs h = insert-IsCached now d u cs h
  step-IsCached (limited n) cs h =
      if_keeps (IsCached ndn order digest) (n == 0) cs
        (evict_from ndn order digest cs.queue n cs.table) h
        (evict_from-IsCached ndn order digest cs.queue n cs.table h.queued)
  step-IsCached (used i) cs h = elim (Bool-cases (in_table ndn order digest i cs.table)) [
    | inr off ↦ rw (off, step) h
    | inl there ↦
        rw (there, step)
          (record {
            queued = requeued ndn order digest i cs.queue cs.table there h.queued;
            bounded = h.bounded;
          })
  ]

  run_from :
      (es : List Event) (cs : Cs ndn order digest)
      → IsCached ndn order digest cs
      → IsCached ndn order digest (run es cs)
  unfolding run
  run_from [] cs h = h
  run_from (e ∷ es) cs h = run_from es (step e cs) (step-IsCached e cs h)

  -- From the constructor on, whatever Data is inserted, whichever entries are used and whatever limits
  -- are set: no two entries of the table have one full name, the queue has the entries of the table,
  -- each once, and they are no more than the limit.
  pub run-IsCached :
      (limit : ℕ) (es : List Event)
      → IsCached ndn order digest (run es (new_cs ndn order digest limit))
  run-IsCached limit es = run_from es (new_cs ndn order digest limit) (record {
    queued = record { table_once = tt; queue_once = tt; alike = λ i. refl; even = refl };
    bounded = omega arith;
  })

  -- Eviction leaves the last of the queue.
  evict_from_last :
      (queue : List (It ndn order digest)) (i : It ndn order digest) (limit : ℕ)
      (table : List (EntryImpl ndn))
      → 1 ≤ limit
      → IsQueued ndn order digest table (queue ++ i ∷ [])
      → in_table ndn order digest i
          (evict_from ndn order digest (queue ++ i ∷ []) limit table).table
        ≡ true
  unfolding evict_from
  evict_from_last [] i limit table some_room h =
      let fits : ltb limit (length table) ≡ false = ground (arith, h.even) in
      rw (fits, evict_from)
        (sym (h.alike i) ∙ rw ((same_iterator_iff ndn order digest i i).1 refl) refl)
  evict_from_last (j ∷ queue) i limit table some_room h =
      elim (Bool-cases (ltb limit (length table))) [
        | inl over ↦
            rw (over, evict_from)
              (evict_from_last queue i limit _ some_room
                (evicted ndn order digest j (queue ++ i ∷ []) table h))
        | inr fits ↦
            rw (fits, evict_from)
              (sym (h.alike i)
                ∙ (Queue.has-append (λ (k : It ndn order digest). k) (eq ndn order digest)
                      (same_iterator_iff ndn order digest) i (j ∷ queue) (i ∷ [])
                    ∙ rw ((same_iterator_iff ndn order digest i i).1 refl)
                        (or_true (in_queue ndn order digest i (j ∷ queue)))))
      ]

  queued_last :
      (i : It ndn order digest) (queue : List (It ndn order digest))
      → in_queue ndn order digest i queue ≡ false
      → insert_to_queue ndn order digest i true queue ≡ queue ++ i ∷ []
  unfolding insert_to_queue
  queued_last i queue absent = rw (absent, insert_to_queue) refl

  store_has :
      (now : ℕ) (d : Data ndn) (u : Bool) (cs : Cs ndn order digest)
      → IsCached ndn order digest cs
      → 1 ≤ cs.limit
      → in_table ndn order digest
          (iterator_of ndn order digest d)
          (store ndn order digest now d u cs).table
        ≡ true
  unfolding store evict_entries
  store_has now d u cs h some_room =
      let i = iterator_of ndn order digest d in
      elim (Bool-cases (in_table ndn order digest i cs.table)) [
        | inl there ↦
            let moved = requeued ndn order digest i cs.queue cs.table there h.queued in
            let renewed = refreshed ndn order digest now u i _ cs.table moved in
            rw (there, store) (sym (renewed.alike i) ∙ (moved.alike i ∙ there))
        | inr fresh ↦
            let entry : EntryImpl ndn = record {
              packet = d;
              is_unsolicited = u;
              stale_time = stale_time_of ndn order digest now d;
            } in
            let both = placed ndn order digest entry cs.queue cs.table fresh h.queued in
            let last = queued_last i cs.queue (h.queued.alike i ∙ fresh) in
            rw (fresh, store)
              (subst
                (λ q.
                  in_table ndn order digest i
                    (evict_from ndn order digest q cs.limit
                      (place ndn order digest entry cs.table)).table
                  ≡ true)
                (sym last)
                (evict_from_last cs.queue i cs.limit (place ndn order digest entry cs.table)
                  some_room
                  (subst (IsQueued ndn order digest (place ndn order digest entry cs.table)) last
                    both)))
      ]

  -- Data that may be cached is in the table after its insertion, where the limit is not zero and the
  -- table and queue are as they are in any run.
  pub insert_cached :
      (now : ℕ) (d : Data ndn) (u : Bool) (cs : Cs ndn order digest)
      → IsCached ndn order digest cs
      → 1 ≤ cs.limit
      → d.no_cache ≡ false
      → in_table ndn order digest
          (iterator_of ndn order digest d)
          (insert ndn order digest now d u cs).0.table
        ≡ true
  unfolding insert
  insert_cached now d u cs h some_room cacheable =
      let kept : Cs ndn order digest × Bool = (cs, false) in
      let stored : Cs ndn order digest × Bool = (store ndn order digest now d u cs, true) in
      subst
        (λ (r : Cs ndn order digest × Bool).
          in_table ndn order digest (iterator_of ndn order digest d) r.0.table ≡ true)
        (sym (if_false d.no_cache kept stored cacheable)) (store_has now d u cs h some_room)
