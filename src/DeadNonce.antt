-- ===== src/DeadNonce.antt =====
-- The Dead Nonce List, daemon/table/dead-nonce-list.cpp: a FIFO of 64-bit hashes with marks in it,
-- whose capacity follows the number of marks that it holds.
-- CityHash64WithSeed over a Name's wire form is the parameter `city_hash`. The capacity times 0.9
-- or 1.2, truncated, is a quotient of integers: both agree up to the largest capacity, 2^24.
pub mod Bounds
pub mod Retention
mod Examples
use nfd_pitless.Base.{
  ℕ, ◌+◌, ◌-◌, ◌*◌, ◌/◌, ◌^◌, min, max, Bool, not, List, [], ◌∷◌, ◌++◌, Option, none, some,
  if◌then◌else◌, ltb, leb, ◌==◌, length, drop, replicate, any_of, count_if,
}

-- Durations are in nanoseconds.
abbrev pub default_lifetime : ℕ
default_lifetime = 6_000_000_000

abbrev pub min_lifetime : ℕ
min_lifetime = 1_000_000

abbrev pub initial_capacity : ℕ
initial_capacity = 2 ^ 7

abbrev pub min_capacity : ℕ
min_capacity = 2 ^ 3

abbrev pub max_capacity : ℕ
max_capacity = 2 ^ 24

abbrev pub mark' : ℕ
mark' = 0

abbrev pub expected_mark_count : ℕ
expected_mark_count = 5

abbrev pub evict_limit : ℕ
evict_limit = 2 ^ 6

-- The head of `queue` is its front. `actual_mark_counts` is a multiset.
pub record DeadNonceList : Type 0 where
  pub lifetime : ℕ
  pub queue : List ℕ
  pub capacity : ℕ
  pub actual_mark_counts : List ℕ
  pub mark_interval : ℕ
  pub adjust_capacity_interval : ℕ

-- `none` is the std::invalid_argument of a lifetime that is too short.
unfoldable pub new : ℕ → Option DeadNonceList
new lifetime =
    if ltb lifetime min_lifetime
    then none
    else some (record {
      lifetime = lifetime;
      queue = replicate expected_mark_count mark';
      capacity = initial_capacity;
      actual_mark_counts = [];
      mark_interval = lifetime / expected_mark_count;
      adjust_capacity_interval = lifetime;
    })

unfoldable pub count_marks : DeadNonceList → ℕ
count_marks d = count_if (λ e. e == mark') d.queue

unfoldable pub size : DeadNonceList → ℕ
unfolding count_marks
size d = length d.queue - count_marks d

unfoldable pub evict_entries : DeadNonceList → DeadNonceList
evict_entries d =
    let over_capacity = length d.queue - d.capacity in
    if leb (length d.queue) d.capacity
    then d
    else record d { queue = drop (min over_capacity evict_limit) d.queue }

unfoldable pub mark : DeadNonceList → DeadNonceList
unfolding count_marks
mark d =
    let marked : DeadNonceList = record d { queue = d.queue ++ mark' ∷ [] } in
    record marked { actual_mark_counts = count_marks marked ∷ d.actual_mark_counts }

-- The first test is that the range of EXPECTED_MARK_COUNT ends at the start of the multiset, the
-- second that it starts at the end.
unfoldable pub adjusted_capacity : DeadNonceList → ℕ
adjusted_capacity d =
    if not (any_of (λ n. leb n expected_mark_count) d.actual_mark_counts)
    then max min_capacity (d.capacity * 9 / 10)
    else if not (any_of (λ n. leb expected_mark_count n) d.actual_mark_counts)
    then min max_capacity (d.capacity * 12 / 10)
    else d.capacity

unfoldable pub adjust_capacity : DeadNonceList → DeadNonceList
unfolding adjusted_capacity evict_entries
adjust_capacity d =
    evict_entries (record d { capacity = adjusted_capacity d; actual_mark_counts = [] })

module _ {Name : Type 0} (city_hash : Name → ℕ → ℕ) where
  unfoldable pub make_entry : Name → ℕ → ℕ
  make_entry name nonce = city_hash name nonce

  unfoldable pub has : DeadNonceList → Name → ℕ → Bool
  unfolding make_entry
  has d name nonce = any_of (λ e. e == make_entry name nonce) d.queue

  unfoldable pub add : DeadNonceList → Name → ℕ → DeadNonceList
  unfolding make_entry
  add d name nonce = evict_entries (record d { queue = d.queue ++ make_entry name nonce ∷ [] })
