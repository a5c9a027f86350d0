-- ===== src/DeadNonce/Bounds.antt =====
-- The capacity of the Dead Nonce List (daemon/table/dead-nonce-list.cpp), and its eviction.
use nfd_pitless.Base.{ℕ, ◌-◌, ◌≤◌, ◌≡◌, min, max, some, arith, length, drop, length-drop}
use nfd_pitless.DeadNonce.{
  DeadNonceList, new, evict_entries, mark, adjusted_capacity, adjust_capacity, add, min_capacity,
  max_capacity, evict_limit,
}

-- The operations that a running forwarder and its scheduler make.
pub data Step {Name : Type 0} (city_hash : Name → ℕ → ℕ) (d : DeadNonceList)
    : DeadNonceList → Type 0 where
  adds : (name : Name) (nonce : ℕ) → Step city_hash d (add city_hash d name nonce)
  marks : Step city_hash d (mark d)
  adjusts : Step city_hash d (adjust_capacity d)

pub data Reach {Name : Type 0} (city_hash : Name → ℕ → ℕ) (d : DeadNonceList)
    : DeadNonceList → Type 0 where
  here : Reach city_hash d d
  next : {e f : DeadNonceList} → Reach city_hash d e → Step city_hash e f → Reach city_hash d f

-- The capacity lies between MIN_CAPACITY and MAX_CAPACITY.
pub record IsBounded (d : DeadNonceList) : Type 0 where
  pub least : min_capacity ≤ d.capacity
  pub most : d.capacity ≤ max_capacity

adjusted_capacity_bounds :
    (d : DeadNonceList)
    → IsBounded d
    → (min_capacity ≤ adjusted_capacity d) × (adjusted_capacity d ≤ max_capacity)
unfolding adjusted_capacity
adjusted_capacity_bounds d v = ground arith

evict-IsBounded : (d : DeadNonceList) → IsBounded d → IsBounded (evict_entries d)
unfolding evict_entries
evict-IsBounded d v = ground arith

pub Step-IsBounded :
    {Name : Type 0} {city_hash : Name → ℕ → ℕ} {d e : DeadNonceList}
    → Step city_hash d e
    → IsBounded d
    → IsBounded e
unfolding add mark adjust_capacity
Step-IsBounded (adds name nonce) v = evict-IsBounded _ (record { least = v.least; most = v.most })
Step-IsBounded marks v = record { least = v.least; most = v.most }
Step-IsBounded {d} adjusts v =
    let b = adjusted_capacity_bounds d v in evict-IsBounded _ (record { least = b.0; most = b.1 })

Reach-IsBounded :
    {Name : Type 0} {city_hash : Name → ℕ → ℕ} {d e : DeadNonceList}
    → IsBounded d
    → Reach city_hash d e
    → IsBounded e
Reach-IsBounded v here = v
Reach-IsBounded v (next r s) = Step-IsBounded s (Reach-IsBounded v r)

-- From the constructor on, whatever nonces are added and however often the timers fire, the
-- capacity stays between MIN_CAPACITY and MAX_CAPACITY.
pub new-Reach-IsBounded :
    {Name : Type 0} {city_hash : Name → ℕ → ℕ} (lifetime : ℕ) (d e : DeadNonceList)
    → new lifetime ≡ some d
    → Reach city_hash d e
    → IsBounded e
unfolding new
new-Reach-IsBounded lifetime d e h r = Reach-IsBounded (ground arith) r

-- Eviction takes entries from the front only: as many as are over the capacity, but at most
-- EVICT_LIMIT. What is left is no shorter than the capacity or the list before, whichever is less,
-- and no longer than the capacity or the list before less EVICT_LIMIT, whichever is more.
pub evict_entries_lem :
    (d : DeadNonceList)
    → ((evict_entries d).queue ≡ drop (min (length d.queue - d.capacity) evict_limit) d.queue)
      × (min d.capacity (length d.queue) ≤ length (evict_entries d).queue)
      × (length (evict_entries d).queue ≤ max d.capacity (length d.queue - evict_limit))
      × ((evict_entries d).capacity ≡ d.capacity)
unfolding evict_entries
evict_entries_lem d = (
  ground arith,
  ground (arith, length-drop (min (length d.queue - d.capacity) evict_limit) d.queue),
  ground (arith, length-drop (min (length d.queue - d.capacity) evict_limit) d.queue),
  ground arith,
)
