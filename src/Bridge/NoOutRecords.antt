-- ===== src/Bridge/NoOutRecords.antt =====
-- Runs of the bridge: its out-records, its Dead Nonce List and the Interests that it sends.
use nfd_pitless.Base.{
  ℕ, ◌+◌, ◌≡◌, ◌∙◌, refl, ap, Bool, true, false, List, [], ◌∷◌, Option, none, some, ℤ, negsuc,
  if_keeps, arith, All, Option-cases, inl, inr,
}
use nfd_pitless.Ndn.{Ndn, Interest, Data}
use nfd_pitless.Face.{Face, same}
use nfd_pitless.DeadNonce.{DeadNonceList, mark, adjust_capacity}
use nfd_pitless.Pit.{
  Entry, new_entry, insert_or_update_in_record, delete_out_record, delete_in_records,
  get_out_record,
}
use nfd_pitless.Pit.Table.{find_entry, insert, find_all_data_matches_by_name}
use nfd_pitless.Pit.Everywhere.{
  Everywhere, find_entry-Everywhere, matches_by_name-Everywhere, insert-Everywhere,
  erase-Everywhere,
}
use nfd_pitless.Fw.{Stores, Forwarder, cs_lookup, cs_add, on_outgoing_data, report_interest_delay}
use nfd_pitless.Forwarder.{
  cancel_timers, set_unsatisfy_timer, set_straggler_timer, modify_entry, insert_dead_nonce_list,
  on_interest_finalize, on_interest_unsatisfied, on_data_unsolicited, pending_downstreams,
}
use nfd_pitless.Forwarder.Pipelines.{satisfy, satisfy_all, send_downstream, satisfy_matches}
use nfd_pitless.Bridge.{
  on_incoming_interest, on_incoming_data, on_content_store_miss, on_content_store_hit, after_lookup,
}
use nfd_pitless.Bridge.Invariant.{
  HasNoOut, IsNamed, IsBridged, modify_entry-IsBridged, interest_delay-IsBridged,
  content_delay-IsBridged, outgoing_data-IsBridged, cs_add-IsBridged, cs_lookup-IsBridged,
  best_route-IsBridged,
}

-- What happens to a bridge: a packet reaches it at a time, a PIT entry's unsatisfy timer or its
-- straggler timer, with its arguments, fires, or a timer of the Dead Nonce List does.
pub data Event (ndn : Ndn) : Type 0 where
  interest_arrives : ℕ → Face → Interest ndn → Event ndn
  data_arrives : ℕ → Face → Data ndn → Event ndn
  unsatisfy_fires : Interest ndn → Event ndn
  straggler_fires : Interest ndn → Bool → ℤ → Event ndn
  mark_fires : Event ndn
  adjust_capacity_fires : Event ndn

module _ (ndn : Ndn) (stores : Stores ndn) (city_hash : ndn.Name → ℕ → ℕ)
    (own_name : ndn.Name) where
  unfoldable pub step : Event ndn → Forwarder ndn stores → Forwarder ndn stores
  step (interest_arrives now face interest) s =
      on_incoming_interest ndn stores city_hash own_name now face interest s
  step (data_arrives now face packet) s =
      on_incoming_data ndn stores city_hash own_name now face packet s
  step (unsatisfy_fires key) s = on_interest_unsatisfied ndn stores city_hash key s
  step (straggler_fires key is_satisfied freshness_period) s =
      on_interest_finalize ndn stores city_hash key is_satisfied freshness_period s
  step mark_fires s = record s { dead_nonces = mark s.dead_nonces }
  step adjust_capacity_fires s = record s { dead_nonces = adjust_capacity s.dead_nonces }

  -- What the event does to the Dead Nonce List if only the list's own timers touch it.
  abbrev pub tick : Event ndn → DeadNonceList → DeadNonceList
  tick mark_fires d = mark d
  tick adjust_capacity_fires d = adjust_capacity d
  tick _ d = d

  unfoldable pub tick_all : List (Event ndn) → DeadNonceList → DeadNonceList
  tick_all [] d = d
  tick_all (e ∷ es) d = tick_all es (tick e d)

  unfoldable pub run : List (Event ndn) → Forwarder ndn stores → Forwarder ndn stores
  run [] s = s
  run (e ∷ es) s = run es (step e s)

  module _ (d : DeadNonceList) where
    abbrev B : Forwarder ndn stores → Type 0
    B = IsBridged ndn stores city_hash own_name d

    no_upstream :
        (e : Entry ndn) (b : Bool) (z : ℤ) (g : Face) (l : DeadNonceList)
        → HasNoOut ndn stores city_hash own_name e
        → insert_dead_nonce_list ndn stores city_hash e b z (some g) l ≡ l
    unfolding insert_dead_nonce_list get_out_record
    no_upstream e b z g l h = ground (arith, h)

    no_upstreams :
        (e : Entry ndn) (b : Bool) (z : ℤ) (l : DeadNonceList)
        → HasNoOut ndn stores city_hash own_name e
        → insert_dead_nonce_list ndn stores city_hash e b z none l ≡ l
    unfolding insert_dead_nonce_list
    no_upstreams e b z l h = ground (arith, h)

    satisfy-IsBridged :
        (now : ℕ) (f : Face) (p : Data ndn) (e : Entry ndn) (s : Forwarder ndn stores)
        → HasNoOut ndn stores city_hash own_name e
        → B s
        → B (satisfy ndn stores city_hash now f p e s)
    unfolding satisfy cancel_timers delete_in_records delete_out_record set_straggler_timer
    satisfy-IsBridged now f p e s none_out h =
        let recorded : Forwarder ndn stores = record s {
          dead_nonces =
              insert_dead_nonce_list ndn stores city_hash e true p.freshness_period (some f)
                s.dead_nonces;
        } in
        modify_entry-IsBridged ndn stores city_hash own_name d e.interest _ recorded
          (λ e' h'. rw h' refl)
          (record {
            no_out = h.no_out;
            same_dead_nonces =
                no_upstream e true p.freshness_period f s.dead_nonces none_out ∙ h.same_dead_nonces;
            named = h.named;
          })

    satisfy_all-IsBridged :
        (now : ℕ) (f : Face) (p : Data ndn) (es : List (Entry ndn)) (s : Forwarder ndn stores)
        → All (HasNoOut ndn stores city_hash own_name) es
        → B s
        → B (satisfy_all ndn stores city_hash now f p es s)
    unfolding satisfy_all
    satisfy_all-IsBridged now f p [] s none_out h = h
    satisfy_all-IsBridged now f p (e ∷ es) s none_out h =
        satisfy_all-IsBridged now f p es _ none_out.1 (satisfy-IsBridged now f p e s none_out.0 h)

    send_downstream-IsBridged :
        (f : Face) (p : Data ndn) (gs : List Face) (s : Forwarder ndn stores)
        → B s
        → B (send_downstream ndn stores city_hash f p gs s)
    unfolding send_downstream
    send_downstream-IsBridged f p [] s h = h
    send_downstream-IsBridged f p (g ∷ gs) s h = send_downstream-IsBridged f p gs _ (
        if_keeps B (same g f) s (on_outgoing_data ndn stores p g s) h
          (outgoing_data-IsBridged ndn stores city_hash own_name d p g s h))

    satisfy_matches-IsBridged :
        (now : ℕ) (f : Face) (p : Data ndn) (es : List (Entry ndn)) (s : Forwarder ndn stores)
        → All (HasNoOut ndn stores city_hash own_name) es
        → B s
        → B (satisfy_matches ndn stores city_hash now f p es s)
    unfolding satisfy_matches
    satisfy_matches-IsBridged now f p es s none_out h =
        let cached = cs_add ndn stores p false s in
        let satisfied = satisfy_all ndn stores city_hash now f p es cached in
        let gs = pending_downstreams ndn now es [] in
        content_delay-IsBridged ndn stores city_hash own_name d
          (send_downstream ndn stores city_hash f p gs satisfied)
          (send_downstream-IsBridged f p gs satisfied (
            satisfy_all-IsBridged now f p es cached none_out
              (cs_add-IsBridged ndn stores city_hash own_name d p false s h)))

    miss-IsBridged :
        (now : ℕ) (f : Face) (i : Interest ndn) (s : Forwarder ndn stores)
        → B s
        → B (on_content_store_miss ndn stores city_hash own_name now f i s)
    unfolding on_content_store_miss set_unsatisfy_timer insert_or_update_in_record
    miss-IsBridged now f i s h =
        let named : Interest ndn = record i { supporting_name = own_name } in
        best_route-IsBridged ndn stores city_hash own_name d f named (s.fib i.name) _ refl (
          modify_entry-IsBridged ndn stores city_hash own_name d i
            (λ e. set_unsatisfy_timer ndn (insert_or_update_in_record ndn now f named e)) s
            (λ e h'. renewed named e h') h)
      where
        renewed :
            (named : Interest ndn) (e : Entry ndn)
            → HasNoOut ndn stores city_hash own_name e
            → HasNoOut ndn stores city_hash own_name
                (set_unsatisfy_timer ndn (insert_or_update_in_record ndn now f named e))
        renewed named e h' = ground (arith, h')

    after_lookup-IsBridged :
        (now : ℕ) (f : Face) (i : Interest ndn) (found : Forwarder ndn stores × Option (Data ndn))
        → B found.0
        → B (after_lookup ndn stores city_hash own_name now f i found)
    unfolding after_lookup on_content_store_hit
    after_lookup-IsBridged now f i (s, none) h = miss-IsBridged now f i s h
    after_lookup-IsBridged now f i (s, some p) h =
        outgoing_data-IsBridged ndn stores city_hash own_name d _ f s h

    interest-IsBridged :
        (now : ℕ) (f : Face) (i : Interest ndn) (s : Forwarder ndn stores)
        → B s
        → B (on_incoming_interest ndn stores city_hash own_name now f i s)
    unfolding on_incoming_interest new_entry cancel_timers
    interest-IsBridged now f i s h =
        let received : Interest ndn = record i { incoming_face_id = f.id } in
        let counted : Forwarder ndn stores = record s { n_in_interests = s.n_in_interests + 1 } in
        let inserted : Forwarder ndn stores = record counted {
          pit = (insert ndn received s.pit).0;
        } in
        let stopped = modify_entry ndn stores city_hash received (cancel_timers ndn) inserted in
        let missed = on_content_store_miss ndn stores city_hash own_name now f received stopped in
        let looked_up =
          after_lookup ndn stores city_hash own_name now f received
            (cs_lookup ndn stores received stopped) in
        let h_counted : B counted = record {
          no_out = h.no_out;
          same_dead_nonces = h.same_dead_nonces;
          named = h.named;
        } in
        let h_inserted : B inserted = record {
          no_out = fresh received;
          same_dead_nonces = h.same_dead_nonces;
          named = h.named;
        } in
        let h_stopped = stops received inserted h_inserted in
        interest_delay-IsBridged ndn stores city_hash own_name d _ (
          if_keeps B _ counted _ h_counted (
            if_keeps B _ inserted _ h_inserted (
              if_keeps B _ missed looked_up (miss-IsBridged now f received stopped h_stopped) (
                after_lookup-IsBridged now f received (cs_lookup ndn stores received stopped) (
                  cs_lookup-IsBridged ndn stores city_hash own_name d received stopped
                    h_stopped)))))
      where
        fresh :
            (received : Interest ndn)
            → Everywhere ndn (HasNoOut ndn stores city_hash own_name) (insert ndn received s.pit).0
        fresh received =
            insert-Everywhere ndn (HasNoOut ndn stores city_hash own_name) received s.pit refl
              h.no_out

        stops :
            (received : Interest ndn) (inserted : Forwarder ndn stores)
            → B inserted
            → B (modify_entry ndn stores city_hash received (cancel_timers ndn) inserted)
        stops received inserted hi =
            modify_entry-IsBridged ndn stores city_hash own_name d received (cancel_timers ndn)
              inserted (λ e he. he) hi

    data-IsBridged :
        (now : ℕ) (f : Face) (p : Data ndn) (s : Forwarder ndn stores)
        → B s
        → B (on_incoming_data ndn stores city_hash own_name now f p s)
    unfolding on_incoming_data on_data_unsolicited
    data-IsBridged now f p s h =
        let received : Data ndn = record p { incoming_face_id = f.id } in
        let counted : Forwarder ndn stores = record s { n_in_datas = s.n_in_datas + 1 } in
        let matches = find_all_data_matches_by_name ndn p.supporting_name s.pit in
        let h_counted : B counted = record {
          no_out = h.no_out;
          same_dead_nonces = h.same_dead_nonces;
          named = h.named;
        } in
        let none_out =
          matches_by_name-Everywhere ndn (HasNoOut ndn stores city_hash own_name) p.supporting_name
            s.pit h.no_out in
        let unsolicited = on_data_unsolicited ndn stores city_hash f received counted in
        let h_unsolicited = interest_delay-IsBridged ndn stores city_hash own_name d unsolicited (
          if_keeps B f.is_local (cs_add ndn stores received true counted) counted
            (cs_add-IsBridged ndn stores city_hash own_name d received true counted h_counted)
            h_counted) in
        if_keeps B _ (report_interest_delay ndn stores counted) _
          (interest_delay-IsBridged ndn stores city_hash own_name d counted h_counted)
          (branches matches (report_interest_delay ndn stores unsolicited) _ h_unsolicited (
            satisfy_matches-IsBridged now f (record received { name = p.supporting_name }) matches
              counted none_out h_counted))
      where
        branches :
            (es : List (Entry ndn)) (t u : Forwarder ndn stores)
            → B t
            → B u
            → B (elim es as (λ _. Forwarder ndn stores) [ [] ↦ t | e ∷ es' ↦ u ])
        branches [] t u ht hu = ht
        branches (e ∷ es) t u ht hu = hu

    finalize-IsBridged :
        (key : Interest ndn) (b : Bool) (z : ℤ) (s : Forwarder ndn stores)
        → B s
        → B (on_interest_finalize ndn stores city_hash key b z s)
    unfolding on_interest_finalize
    finalize-IsBridged key b z s h = elim (Option-cases (find_entry ndn key s.pit)) [
      | inl missing ↦ rw (missing, on_interest_finalize) h
      | inr (e, found) ↦
          rw (found, on_interest_finalize)
            (record {
              no_out =
                  erase-Everywhere ndn (HasNoOut ndn stores city_hash own_name) key s.pit h.no_out;
              same_dead_nonces =
                  no_upstreams e b z s.dead_nonces (
                    find_entry-Everywhere ndn (HasNoOut ndn stores city_hash own_name) key s.pit
                      h.no_out e found)
                  ∙ h.same_dead_nonces;
              named = h.named;
            })
    ]

    step-IsBridged :
        (e : Event ndn) (s : Forwarder ndn stores)
        → B s
        → IsBridged ndn stores city_hash own_name (tick e d) (step e s)
    unfolding step on_interest_unsatisfied
    step-IsBridged (interest_arrives now f i) s h = interest-IsBridged now f i s h
    step-IsBridged (data_arrives now f p) s h = data-IsBridged now f p s h
    step-IsBridged (unsatisfy_fires key) s h = finalize-IsBridged key false (negsuc 0) s h
    step-IsBridged (straggler_fires key b z) s h = finalize-IsBridged key b z s h
    step-IsBridged mark_fires s h = record {
      no_out = h.no_out;
      same_dead_nonces = ap mark h.same_dead_nonces;
      named = h.named;
    }
    step-IsBridged adjust_capacity_fires s h = record {
      no_out = h.no_out;
      same_dead_nonces = ap adjust_capacity h.same_dead_nonces;
      named = h.named;
    }

  run-All :
      (es : List (Event ndn)) (d : DeadNonceList) (s : Forwarder ndn stores)
      → IsBridged ndn stores city_hash own_name d s
      → IsBridged ndn stores city_hash own_name (tick_all es d) (run es s)
  unfolding run tick_all
  run-All [] d s h = h
  run-All (e ∷ es) d s h = run-All es (tick e d) (step e s) (step-IsBridged d e s h)

  -- Whatever packets reach the bridge and whichever timers of PIT entries and of the Dead Nonce List
  -- fire: if no PIT entry has an out-record and each Interest sent before has the bridge's name as
  -- its supporting name, then after it no PIT entry has an out-record, the Dead Nonce List is what
  -- its own timers alone make of it, and each Interest that was sent has the bridge's name as its
  -- supporting name.
  pub run-IsBridged :
      (es : List (Event ndn)) (s : Forwarder ndn stores)
      → Everywhere ndn (HasNoOut ndn stores city_hash own_name) s.pit
      → All (IsNamed ndn stores city_hash own_name) s.outputs
      → IsBridged ndn stores city_hash own_name (tick_all es s.dead_nonces) (run es s)
  run-IsBridged es s no_out named =
      run-All es s.dead_nonces s
        (record { no_out = no_out; same_dead_nonces = refl; named = named })
