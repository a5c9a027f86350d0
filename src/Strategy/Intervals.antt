-- ===== src/Strategy/Intervals.antt =====
-- The suppression interval of a PIT entry over many decisions of
-- daemon/fw/retx-suppression-exponential.cpp.
use native.Mathlib.Nat.{pow-suc}
use nfd_pitless.Base.{
  ℕ, suc, ◌+◌, ◌-◌, ◌*◌, ◌^◌, ◌≤◌, ◌≡◌, ◌∙◌, ap, min, List, [], ◌∷◌, none, arith, ltb, Bool-cases,
  inl, inr,
}
use nfd_pitless.Ndn.{Ndn}
use nfd_pitless.Pit.{Entry, OutRecord, has_unexpired_out_records}
use nfd_pitless.Strategy.Retx.{
  Result, new, forward, suppress, Exponential, interval_of, lengthen, get_last_outgoing, ns_per_us,
  decide_exponential,
}

-- A decision at a time, on the out-records that the entry then has.
pub record Round : Type 0 where
  pub now : ℕ
  pub out_records : List OutRecord

module _ (ndn : Ndn) (retx : Exponential) where
  abbrev pub is_forward : Result → ℕ
  is_forward forward = 1
  is_forward new = 0
  is_forward suppress = 0

  abbrev pub decide : Round → Entry ndn → Result × Entry ndn
  decide r e = decide_exponential ndn retx r.now (record e { out_records = r.out_records })

  -- The entry after the decisions of the rounds, and how many of them forward.
  unfoldable pub decide_all : List Round → Entry ndn → Entry ndn
  decide_all [] e = e
  decide_all (r ∷ rs) e = decide_all rs (decide r e).1

  unfoldable pub count_forwards : List Round → Entry ndn → ℕ
  count_forwards [] e = 0
  count_forwards (r ∷ rs) e = is_forward (decide r e).0 + count_forwards rs (decide r e).1

  abbrev doubled : ℕ → ℕ
  doubled k = min retx.max_interval (retx.initial_interval * 2 ^ k)

  decide-doubled :
      (r : Round) (e : Entry ndn) (k : ℕ)
      → ((n : ℕ) → n ≤ 2 ^ 24 → retx.scaled n ≡ n * 2)
      → retx.max_interval ≤ 2 ^ 24
      → interval_of ndn retx e ≡ doubled k
      → interval_of ndn retx (decide r e).1 ≡ doubled (is_forward (decide r e).0 + k)
  unfolding decide_exponential
  decide-doubled r e k two most h =
      let e' : Entry ndn = record e { out_records = r.out_records } in
      elim (Bool-cases (has_unexpired_out_records ndn r.now e')) [
        | inr fresh ↦ rw (fresh, decide_exponential) (h ∙ ap doubled (omega arith))
        | inl pending ↦
            elim (Bool-cases (
              ltb (r.now - get_last_outgoing r.out_records) (interval_of ndn retx e * ns_per_us))) [
                | inl soon ↦
                    rw (pending, decide_exponential) (rw soon (h ∙ ap doubled (omega arith)))
                | inr late ↦ rw (pending, decide_exponential) (rw late (longer k h))
              ]
      ]
    where
      longer :
          (k : ℕ)
          → interval_of ndn retx e ≡ doubled k
          → lengthen ndn retx (interval_of ndn retx e) ≡ doubled (1 + k)
      longer k h =
          let s : 1 + k ≡ suc k = omega arith in
          let p : 2 ^ suc k ≡ 2 ^ k * 2 = pow-suc 2 k in
          let q : retx.initial_interval * (2 ^ k * 2) ≡ retx.initial_interval * 2 ^ k * 2 =
            grind arith in
          rw h (rw s (rw p (rw q (rw (two (doubled k) (omega arith)) (omega arith)))))

  all-doubled :
      (rs : List Round) (e : Entry ndn) (k : ℕ)
      → ((n : ℕ) → n ≤ 2 ^ 24 → retx.scaled n ≡ n * 2)
      → retx.max_interval ≤ 2 ^ 24
      → interval_of ndn retx e ≡ doubled k
      → interval_of ndn retx (decide_all rs e) ≡ doubled (count_forwards rs e + k)
  unfolding decide_all count_forwards
  all-doubled [] e k two most h = h ∙ ap doubled (omega arith)
  all-doubled (r ∷ rs) e k two most h =
      all-doubled rs (decide r e).1 (is_forward (decide r e).0 + k) two most
        (decide-doubled r e k two most h)
      ∙ ap doubled (omega arith)

  -- Where the multiplication by the multiplier doubles intervals of at most 2 ^ 24 microseconds, as
  -- that by the float 2 does, the maximum interval is at most that long and the initial one at most
  -- the maximum, on an entry that has had no retransmission: the interval after any decisions is the
  -- initial one doubled as often as a retransmission was forwarded, up to the maximum.
  pub decide_all_lem :
      (rs : List Round) (e : Entry ndn)
      → ((n : ℕ) → n ≤ 2 ^ 24 → retx.scaled n ≡ n * 2)
      → retx.max_interval ≤ 2 ^ 24
      → retx.initial_interval ≤ retx.max_interval
      → e.suppression_interval ≡ none
      → interval_of ndn retx (decide_all rs e)
        ≡ min retx.max_interval (retx.initial_interval * 2 ^ count_forwards rs e)
  decide_all_lem rs e two most within untouched =
      all-doubled rs e 0 two most (rw untouched (omega arith)) ∙ ap doubled (omega arith)
