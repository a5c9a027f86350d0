-- ===== src/Strategy/Retx.antt =====
-- Retransmission suppression: daemon/fw/retx-suppression.cpp, retx-suppression-fixed.cpp and
-- retx-suppression-exponential.cpp. The product of an interval and the multiplier, a float, is a
-- parameter, since floats have 24 bits only: `scaled`.
use nfd_pitless.Base.{ℕ, ◌-◌, ◌*◌, min, List, [], ◌∷◌, none, some, ltb, if◌then◌else◌}
use nfd_pitless.Ndn.{Ndn}
use nfd_pitless.Pit.{Entry, OutRecord, has_unexpired_out_records}

pub data Result : Type 0 where
  new forward suppress : Result

abbrev pub ns_per_us : ℕ
ns_per_us = 1000

-- Intervals are microseconds.
pub record Exponential : Type 0 where
  pub initial_interval : ℕ
  -- time::duration_cast<Duration>(interval * m_multiplier)
  pub scaled : ℕ → ℕ
  pub max_interval : ℕ

-- DEFAULT_INITIAL_INTERVAL, DEFAULT_MULTIPLIER and DEFAULT_MAX_INTERVAL. Intervals are at most
-- 250_000, which floats hold and double exactly.
abbrev pub default_exponential : Exponential
default_exponential = record {
  initial_interval = 1000;
  scaled = λ interval. interval * 2;
  max_interval = 250_000;
}

-- The greatest time of last renewal, as std::max_element finds it.
unfoldable pub last_renewed : ℕ → List OutRecord → ℕ
last_renewed best [] = best
last_renewed best (r ∷ rs) =
    last_renewed (if ltb best r.last_renewed then r.last_renewed else best) rs

-- RetxSuppression::getLastOutgoing; an entry without out-records is new, so that its case is not met.
unfoldable pub get_last_outgoing : List OutRecord → ℕ
unfolding last_renewed
get_last_outgoing [] = 0
get_last_outgoing (r ∷ rs) = last_renewed r.last_renewed rs

module _ (ndn : Ndn) where
  -- RetxSuppressionFixed::decide
  unfoldable pub decide_fixed : ℕ → ℕ → Entry ndn → Result
  unfolding get_last_outgoing
  decide_fixed min_retx_interval now e =
      if has_unexpired_out_records ndn now e
      then if ltb (now - get_last_outgoing e.out_records) min_retx_interval
        then suppress
        else forward
      else new

  -- The interval of the PitInfo that getOrCreateStrategyInfo returns.
  abbrev pub interval_of : Exponential → Entry ndn → ℕ
  interval_of retx e = elim e.suppression_interval [
    | none ↦ retx.initial_interval
    | some interval ↦ interval
  ]

  abbrev pub lengthen : Exponential → ℕ → ℕ
  lengthen retx interval = min retx.max_interval (retx.scaled interval)

  -- RetxSuppressionExponential::decide
  unfoldable pub decide_exponential : Exponential → ℕ → Entry ndn → Result × Entry ndn
  unfolding get_last_outgoing
  decide_exponential retx now e =
      let interval = interval_of retx e in
      let since = now - get_last_outgoing e.out_records in
      if has_unexpired_out_records ndn now e
      then if ltb since (interval * ns_per_us)
        then (suppress, record e { suppression_interval = some interval })
        else (forward, record e { suppression_interval = some (lengthen retx interval) })
      else (new, e)
