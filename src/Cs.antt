-- ===== src/Cs.antt =====
-- The Content Store: daemon/table/cs.cpp and cs-entry.cpp with the policy of cs-policy-lru.cpp.
-- The table is a list in the order of its std::set; an iterator into it is the name and digest of its
-- Data, which no two entries share. The clock is in nanoseconds.
pub mod Queue
pub mod Cached
pub mod Runs
mod Examples
use nfd_pitless.Base.{
  ℕ, ◌+◌, ◌*◌, Bool, true, false, not, ◌&&◌, List, [], ◌∷◌, ◌++◌, Option, none, some, if◌then◌else◌,
  ltb, ◌==◌, any_of, find_if, erase_if, length, is_negative, pos_part,
}
use nfd_pitless.Ndn.{Ndn, Interest, Data}
use nfd_pitless.Rib.Names.{NameOrder}

-- cs::Entry. No stale time stands for the end of time.
pub record EntryImpl (ndn : Ndn) : Type 0 where
  pub packet : Data ndn
  pub is_unsolicited : Bool
  pub stale_time : Option ℕ

-- `digest` is the implicit digest of the Data, the last component of its full name.
module _ (ndn : Ndn) (order : NameOrder ndn) (digest : Data ndn → ℕ) where
  abbrev pub Iterator : Type 0
  Iterator = ndn.Name × ℕ

  abbrev pub iterator_of : Data ndn → Iterator
  iterator_of d = (d.name, digest d)

  abbrev pub same_iterator : Iterator → Iterator → Bool
  same_iterator i j = ndn.name_eq i.0 j.0 && i.1 == j.1

  pub record Cs : Type 0 where
    pub table : List (EntryImpl ndn)
    pub queue : List Iterator
    pub limit : ℕ

  abbrev pub is_at : Iterator → EntryImpl ndn → Bool
  is_at i e = same_iterator (iterator_of e.packet) i

  -- Entry::updateStaleTime, Entry::isStale, Entry::canSatisfy
  abbrev pub stale_time_of : ℕ → Data ndn → Option ℕ
  stale_time_of now d =
      if is_negative d.freshness_period
      then none
      else some (now + pos_part d.freshness_period * 1_000_000)

  abbrev pub update_stale_time : ℕ → EntryImpl ndn → EntryImpl ndn
  update_stale_time now e = record e { stale_time = stale_time_of now e.packet }

  abbrev pub is_stale : ℕ → EntryImpl ndn → Bool
  is_stale now e = elim e.stale_time [ none ↦ false | some t ↦ ltb t now ]

  unfoldable pub can_satisfy : ℕ → Interest ndn → EntryImpl ndn → Bool
  can_satisfy now interest e =
      ndn.matches_data interest e.packet
      && not (ndn.must_be_fresh interest.selectors && is_stale now e)

  -- Cs::findLeftmost
  abbrev pub find_leftmost : ℕ → Interest ndn → List (EntryImpl ndn) → Option (EntryImpl ndn)
  find_leftmost now interest range = find_if (can_satisfy now interest) range

  -- compareDataWithData, for less.
  abbrev pub data_less : Data ndn → Data ndn → Bool
  data_less lhs rhs =
      if ndn.name_eq lhs.name rhs.name
      then ltb (digest lhs) (digest rhs)
      else order.less lhs.name rhs.name

  -- m_table.insert, for Data that is not there.
  unfoldable pub place : EntryImpl ndn → List (EntryImpl ndn) → List (EntryImpl ndn)
  place e [] = e ∷ []
  place e (f ∷ fs) = if data_less e.packet f.packet then e ∷ f ∷ fs else f ∷ place e fs

  -- The changes to the entry at an iterator.
  unfoldable pub refresh : ℕ → Bool → Iterator → List (EntryImpl ndn) → List (EntryImpl ndn)
  refresh now is_unsolicited i [] = []
  refresh now is_unsolicited i (e ∷ es) =
      if is_at i e
      then record (update_stale_time now e) { is_unsolicited = e.is_unsolicited && is_unsolicited }
        ∷ es
      else e ∷ refresh now is_unsolicited i es

  -- LruPolicy::insertToQueue: m_queue.push_back, and relocate where the entry is not new.
  unfoldable pub insert_to_queue : Iterator → Bool → List Iterator → List Iterator
  insert_to_queue i is_new_entry queue =
      if any_of (λ j. same_iterator j i) queue
      then if is_new_entry then queue else erase_if (λ j. same_iterator j i) queue ++ i ∷ []
      else queue ++ i ∷ []

  -- LruPolicy::evictEntries, over the queue. An assertion says that the queue does not run out.
  unfoldable pub evict_from : List Iterator → ℕ → List (EntryImpl ndn) → Cs
  evict_from [] limit table = record { table = table; queue = []; limit = limit }
  evict_from (i ∷ queue) limit table =
      let rest = evict_from queue limit (erase_if (is_at i) table) in
      if ltb limit (length table)
      then rest
      else record { table = table; queue = i ∷ queue; limit = limit }

  unfoldable pub evict_entries : Cs → Cs
  unfolding evict_from
  evict_entries cs = evict_from cs.queue cs.limit cs.table

  -- Policy::setLimit, with the assertion that the limit is above 0.
  unfoldable pub set_limit : ℕ → Cs → Cs
  unfolding evict_entries
  set_limit n_max_entries cs =
      if n_max_entries == 0 then cs else evict_entries (record cs { limit = n_max_entries })

  -- Cs::insert, after the test of the caching policy.
  unfoldable pub store : ℕ → Data ndn → Bool → Cs → Cs
  unfolding place refresh insert_to_queue evict_entries
  store now d is_unsolicited cs =
      let i = iterator_of d in
      let entry : EntryImpl ndn = record {
        packet = d;
        is_unsolicited = is_unsolicited;
        stale_time = stale_time_of now d;
      } in
      if any_of (is_at i) cs.table
      then record cs {
        table = refresh now is_unsolicited i cs.table;
        queue = insert_to_queue i false cs.queue;
      }
      else evict_entries
          (record cs { table = place entry cs.table; queue = insert_to_queue i true cs.queue })

  unfoldable pub insert : ℕ → Data ndn → Bool → Cs → Cs × Bool
  unfolding store
  insert now d is_unsolicited cs =
      if d.no_cache then (cs, false) else (store now d is_unsolicited cs, true)

  -- Policy::beforeUse, for the entry that Cs::find has found.
  unfoldable pub before_use : Iterator → Cs → Cs
  unfolding insert_to_queue
  before_use i cs = record cs { queue = insert_to_queue i false cs.queue }

  -- Cs::Cs
  abbrev pub new_cs : ℕ → Cs
  new_cs n_max_packets = record { table = []; queue = []; limit = n_max_packets }
