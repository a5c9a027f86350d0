-- ===== src/Forwarder.antt =====
-- The pipelines of daemon/fw/forwarder.cpp that work on PIT entries. `now` is the reading of
-- steady_clock during the pipeline. A scheduled event is its due time in the entry; cancelling it
-- clears the field. `key` is the Interest of the PIT entry that a shared pointer points to, and a
-- pointer to an entry that is not in the table is not followed.
pub mod Pipelines
pub mod Downstreams
pub mod Answering
pub mod Picking
pub mod Outgoing
pub mod Arrivals
pub mod Loop
pub mod Hit
mod Examples
use nfd_pitless.Base.{
  ℕ, ◌+◌, ◌*◌, Bool, true, false, not, ◌&&◌, ◌||◌, List, [], ◌∷◌, ◌++◌, Option, none, some, ℤ,
  negsuc, if◌then◌else◌, ltb, leb, ◌==◌, is_negative, pos_part, any_of, find_if, max,
}
use nfd_pitless.Ndn.{Ndn, Interest, Data}
use nfd_pitless.Face.{Face, same, invalid_faceid}
use nfd_pitless.DeadNonce.{DeadNonceList, has, add}
use nfd_pitless.Pit.{
  Entry, InRecord, OutRecord, Straggler, ns_per_ms, violates_scope, has_unexpired_out_records,
  insert_or_update_in_record, insert_or_update_out_record, get_out_record, delete_in_records,
  delete_out_record, find_nonce, is_duplicate,
}
use nfd_pitless.Pit.Table.{Pit, find_entry, insert, modify, erase, find_all_data_matches}
use nfd_pitless.Fw.{
  Stores, Forwarder, Output, send_interest, put, report_interest_delay, report_content_delay,
  cs_lookup, cs_add, on_outgoing_data,
}

-- The delay of the straggler timer: 100 milliseconds.
abbrev pub straggler_time : ℕ
straggler_time = 100 * ns_per_ms

module _ (ndn : Ndn) where
  -- cancelUnsatisfyAndStragglerTimer
  unfoldable pub cancel_timers : Entry ndn → Entry ndn
  cancel_timers e = record e { unsatisfy_timer = none; straggler_timer = none }

  -- The greatest expiry among the in-records, as std::max_element finds it.
  unfoldable pub last_expiry : ℕ → List (InRecord ndn) → ℕ
  last_expiry best [] = best
  last_expiry best (r ∷ rs) =
      last_expiry (if ltb best r.base.expiry then r.base.expiry else best) rs

  -- setUnsatisfyTimer
  unfoldable pub set_unsatisfy_timer : Entry ndn → Entry ndn
  unfolding last_expiry
  set_unsatisfy_timer e = elim e.in_records [
    | [] ↦ e
    | r ∷ rs ↦ record e { unsatisfy_timer = some (last_expiry r.base.expiry rs) }
  ]

  -- setStragglerTimer
  unfoldable pub set_straggler_timer : ℕ → Bool → ℤ → Entry ndn → Entry ndn
  set_straggler_timer now is_satisfied freshness_period e = record e {
    straggler_timer = some (record {
      due = now + straggler_time;
      is_satisfied = is_satisfied;
      freshness_period = freshness_period;
    });
  }

  -- compare_pickInterest, the order by which std::max_element picks an in-record.
  abbrev pub compare_pick_interest : Face → InRecord ndn → InRecord ndn → Bool
  compare_pick_interest out_face a b =
      let is_out_a = same a.base.face out_face in
      let is_out_b = same b.base.face out_face in
      if not is_out_a && is_out_b
      then false
      else if is_out_a && not is_out_b
      then true
      else ltb b.base.last_renewed a.base.last_renewed

  -- std::max_element from the second element on.
  unfoldable pub max_element : Face → InRecord ndn → List (InRecord ndn) → InRecord ndn
  max_element out_face best [] = best
  max_element out_face best (r ∷ rs) =
      max_element out_face (if compare_pick_interest out_face best r then r else best) rs

  -- The Interest of the in-record that is picked. There is none to pick where an assertion says
  -- that there is.
  unfoldable pub picked_interest : Face → List (InRecord ndn) → Option (Interest ndn)
  unfolding max_element
  picked_interest out_face [] = none
  picked_interest out_face (r ∷ rs) = (max_element out_face r rs).interest

  -- The Interest to send: the picked one, or a copy with the random number `new_nonce` where a new
  -- nonce is wanted.
  unfoldable pub sent_interest : Interest ndn → Option ℕ → Interest ndn
  sent_interest picked none = picked
  sent_interest picked (some nonce) = record picked { nonce = nonce }

  -- The in-records that wait for Data: their faces, as a set of pointers in the order of addresses.
  unfoldable pub insert_face : Face → List Face → List Face
  insert_face f [] = f ∷ []
  insert_face f (g ∷ gs) =
      if f.address == g.address
      then g ∷ gs
      else if ltb f.address g.address
      then f ∷ g ∷ gs
      else g ∷ insert_face f gs

  unfoldable pub pending_of : ℕ → List (InRecord ndn) → List Face → List Face
  unfolding insert_face
  pending_of now [] downstreams = downstreams
  pending_of now (r ∷ rs) downstreams =
      pending_of now rs
        (if ltb now r.base.expiry then insert_face r.base.face downstreams else downstreams)

  unfoldable pub pending_downstreams : ℕ → List (Entry ndn) → List Face → List Face
  unfolding pending_of
  pending_downstreams now [] downstreams = downstreams
  pending_downstreams now (e ∷ es) downstreams =
      pending_downstreams now es (pending_of now e.in_records downstreams)

module _ (ndn : Ndn) (stores : Stores ndn) (city_hash : ndn.Name → ℕ → ℕ) where
  abbrev pub modify_entry :
      Interest ndn → (Entry ndn → Entry ndn) → Forwarder ndn stores → Forwarder ndn stores
  modify_entry key f s = record s { pit = modify ndn key f s.pit }

  -- The test of insertDeadNonceList.
  unfoldable pub needs_dead_nonce : DeadNonceList → Entry ndn → Bool → ℤ → Bool
  needs_dead_nonce d e is_satisfied freshness_period =
      if is_satisfied
      then ndn.must_be_fresh e.interest.selectors
        && (not (is_negative freshness_period)
            && ltb (pos_part freshness_period * ns_per_ms) d.lifetime)
      else true

  add_all_nonces : ndn.Name → List OutRecord → DeadNonceList → DeadNonceList
  add_all_nonces name [] d = d
  add_all_nonces name (r ∷ rs) d = add_all_nonces name rs (add city_hash d name r.last_nonce)

  -- insertDeadNonceList; no upstream stands for the null pointer, all out-records.
  unfoldable pub insert_dead_nonce_list :
      Entry ndn → Bool → ℤ → Option Face → DeadNonceList → DeadNonceList
  unfolding needs_dead_nonce add_all_nonces
  insert_dead_nonce_list e is_satisfied freshness_period upstream d =
      let all_added = add_all_nonces e.interest.name e.out_records d in
      let one_added : Face → DeadNonceList = λ face. elim (get_out_record ndn face e) [
        | none ↦ d
        | some r ↦ add city_hash d e.interest.name r.last_nonce
      ] in
      if needs_dead_nonce d e is_satisfied freshness_period
      then elim upstream [ none ↦ all_added | some face ↦ one_added face ]
      else d

  unfoldable pub on_interest_finalize :
      Interest ndn → Bool → ℤ → Forwarder ndn stores → Forwarder ndn stores
  unfolding insert_dead_nonce_list
  on_interest_finalize key is_satisfied freshness_period s = elim (find_entry ndn key s.pit) [
    | none ↦ s
    | some e ↦ record s {
      dead_nonces = insert_dead_nonce_list e is_satisfied freshness_period none s.dead_nonces;
      pit = erase ndn key s.pit;
    }
  ]

  -- onInterestUnsatisfied; the signal and the strategy's trigger have no effect on the tables. The
  -- default freshness period of onInterestFinalize is -1.
  unfoldable pub on_interest_unsatisfied :
      Interest ndn → Forwarder ndn stores → Forwarder ndn stores
  unfolding on_interest_finalize
  on_interest_unsatisfied key s = on_interest_finalize key false (negsuc 0) s

  unfoldable pub on_interest_reject : ℕ → Interest ndn → Forwarder ndn stores → Forwarder ndn stores
  unfolding cancel_timers set_straggler_timer
  on_interest_reject now key s = elim (find_entry ndn key s.pit) [
    | none ↦ s
    | some e ↦
        if has_unexpired_out_records ndn now e
        then s
        else modify_entry key
            (λ e. set_straggler_timer ndn now false (negsuc 0) (cancel_timers ndn e)) s
  ]

  unfoldable pub on_data_unsolicited : Face → Data ndn → Forwarder ndn stores → Forwarder ndn stores
  on_data_unsolicited in_face packet s =
      if in_face.is_local then cs_add ndn stores packet true s else s

  -- What onOutgoingInterest does with it.
  unfoldable pub send_picked :
      ℕ
      → Interest ndn
      → Face
      → Option ℕ
      → Interest ndn
      → Forwarder ndn stores
      → Forwarder ndn stores
  send_picked now key out_face new_nonce picked s =
      let interest = sent_interest ndn picked new_nonce in
      let recorded = modify_entry key (insert_or_update_out_record ndn now out_face interest) s in
      record (put ndn stores (send_interest out_face interest) recorded) {
        n_out_interests = s.n_out_interests + 1;
      }

  unfoldable pub on_outgoing_interest :
      ℕ → Interest ndn → Face → Option ℕ → Forwarder ndn stores → Forwarder ndn stores
  unfolding send_picked
  on_outgoing_interest now key out_face new_nonce s = elim (find_entry ndn key s.pit) [
    | none ↦ s
    | some e ↦
        if out_face.id == invalid_faceid
        then s
        else if violates_scope ndn e out_face
        then s
        else elim (picked_interest ndn out_face e.in_records) [
          | none ↦ s
          | some picked ↦ send_picked now key out_face new_nonce picked s
        ]
  ]
