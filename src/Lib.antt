-- ===== src/Lib.antt =====
-- A model of the forwarding core of NFD-PITless: the PITless forwarder, the base forwarder with its
-- Pending Interest Table, the bridge between the two kinds of network, the link fragmentation NDNLP,
-- the Routing Information Base with the updates that it sends to the FIB, the name tree with the FIB
-- on it, and the Content Store.
--
-- Parts and how they interact. A forwarder (daemon/fw/forwarder.cpp and its two subclasses) receives
-- packets from faces, reads the FIB and the Content Store, keeps state for pending Interests in the
-- PIT, remembers nonces in the Dead Nonce List, and sends packets to faces. The PITless forwarder
-- works without a PIT: Data carries a supporting name and is routed by the FIB as
-- Interests are. The bridge keeps PIT entries for consumers behind it and stamps its own name on the
-- Interests that it sends, so that Data finds its way back to it. The RIB (rib/) keeps routes for
-- names in a tree of namespaces; for each registration it computes which next hops the FIB needs,
-- its descendants' inherited ones included, sends them to the forwarder as commands, and applies the
-- registration to itself when all are answered, one registration at a time. The name tree is a hash
-- table of names, on whose entries the FIB, the PIT and two other tables hang their own entries; a
-- name in it has its prefixes in it, and an entry goes when nothing hangs on it and on its children.
--
-- Files and the code they model:
--   Base          shared notation: tests on numbers, lists with native lengths, integers
--   Ndn           names, Interests and Data of ndn-cxx, as far as the forwarders use them
--   Face          daemon/face/face.hpp: the address, id and locality of a face
--   DeadNonce     daemon/table/dead-nonce-list.cpp; Bounds, Retention: its theorems
--   Fib           daemon/table/fib-entry.cpp, fib-nexthop.cpp; Laws: addNextHop, removeNextHop
--   Pit           daemon/table/pit-entry.cpp and the records; Nonces, Records: its theorems
--   Pit.Table     daemon/table/pit.cpp, name-tree-entry.cpp; Everywhere, Lookup: its theorems
--   Fw            what the three forwarders share: state, outputs, the outgoing Data pipeline
--   Pitless       daemon/fw/pitless-forwarder.cpp, pitless-best-route-strategy.cpp,
--                 pitless-multicast-strategy.cpp; Stateless, Answers, Packets, Routing, Scope,
--                 Multicast: its theorems
--   Forwarder     daemon/fw/forwarder.cpp: the pipelines on PIT entries; Pipelines: the incoming
--                 ones; Downstreams, Answering, Picking, Outgoing, Arrivals, Loop, Hit: theorems
--   Strategy      daemon/fw/best-route-strategy.cpp, best-route-strategy2.cpp,
--                 multicast-strategy.cpp; Retx: retx-suppression.cpp and its two policies;
--                 Intervals, Eligible: theorems
--   Bridge        daemon/fw/bridge-forwarder.cpp, bridge-best-route-strategy.cpp; Naming, Invariant,
--                 NoOutRecords, Leak: its theorems
--   Ndnlp         daemon/face/ndnlp-data.cpp; Slicer: ndnlp-slicer.cpp, ndnlp-sequence-generator.cpp;
--                 Partial: ndnlp-partial-message-store.cpp; Wire, Fits, Pieces, Sound, Slots,
--                 Reassembly, Isolation: its theorems
--   Rib           rib/route.hpp, rib-entry.cpp; Names: the order of names; Table: the table and tree
--                 of rib/rib.cpp; Updater, Updated: the computation of FIB updates of
--                 rib/fib-updater.cpp; Sending, Queue: the queue of rib/rib.cpp, the commands of
--                 rib/fib-updater.cpp and their answers; Shape, Lookups, Changes, Refines, Capture,
--                 NullRoute, FaceLost, Inserted, Erased, Heights, Deep, Walks, Computed, Separated,
--                 Counts, Started, Serial, Answered, Orderly, Progress, Refused: theorems
--   NameTree      daemon/table/name-tree.cpp, name-tree-entry.cpp; Matching: the longest prefix
--                 match; Erasure: eraseEntryIfEmpty; Buckets, Chains, Invariant, Started, Resize,
--                 Writes, Growth, Lookup, Prefixes, HashSet, Longest, Unlinked, Erased, Emptied,
--                 Erasing, Rising, Ending: theorems; Toy: hashes for tests
--   FibTable      daemon/table/fib.cpp; Entries, EraseAll, Map, Routes, Removal, Longest, Refines,
--                 Forwarding: theorems
--   Cs            daemon/table/cs.cpp, cs-entry.cpp, cs-entry-impl.cpp and cs-policy-lru.cpp:
--                 insertion, refresh, eviction; Queue, Cached, Runs: theorems
--   Toy           an instance of the parameters, for the witnesses in the files named Examples
--
-- Code and model. An object is a record, and a member function a function from the object and its
-- arguments to the object; the order of the calls in a function is that of the code. A forwarder's
-- packets and delay readings go to the list `outputs`, the oldest first. The clock is a parameter
-- of the functions that read it, in nanoseconds; a scheduled event is its due time in the object
-- that holds its handle, and a run is a list of the events that happen. Interests and Data are
-- values; where the code changes a packet through a const_cast, the changed packet is what the later
-- steps of the pipeline see. Faces compare by address where the code compares pointers and by id
-- where it compares ids. Sizes and sequence numbers of NDNLP wrap around at 16 and 64 bits; counters
-- of packets do not. Factors such as 1.2 of the Dead Nonce List are quotients of numbers.
--
-- Parameters, for code that is not in the repository: names, selectors and the match of Data against
-- an Interest (Ndn); std::sort (Fib); CityHash64WithSeed on a name's wire form (DeadNonce, the
-- forwarders); the two Content Stores (Stores), of which the forwarders only look up and insert;
-- the TLV encoding and byte order (Ndnlp.Encoding); the components of a name and the hash of one
-- (NameTree.Hashing), which core/city-hash.cpp, a copy of a library, computes. For the forwarders the
-- FIB is a function, the next hops that findLongestPrefixMatch finds for a name, as FibTable computes
-- them. The strategy of the base forwarder is the parameter `trigger` of the incoming Interest
-- pipeline, which the functions of Strategy can stand for. For the RIB: the order of names
-- (Rib.Names), the route that std::nth_element puts in the second place, and ERROR_TIMEOUT of
-- ndn-cxx; for the Content Store the implicit digest of Data; for the strategies the product of an
-- interval and the multiplier, a float of 24 bits, which is exact up to 2 ^ 24 microseconds where the
-- multiplier is 2. The controller answers each command once, in any order; a state of the RIB's queue
-- comes with whether it ever said that there is no such face to a command for the batch's face while
-- others waited, to which the code reacts by ending the item at once.
--
-- The buckets of the name tree are lists of entries, each the chain of its nodes, and a pointer to an
-- entry is the entry's prefix; no two entries have one prefix while the number of buckets is a power
-- of two of at most 2 ^ 32, as it is from the default of 1024 on. Hashes have any size. The load
-- factors 0.5 and 0.1 are divisions, exact below 2 ^ 50 buckets.
--
-- The RIB's table is a list in the order of its std::map, and a pointer to an entry is its name. A
-- batch has one update, as the code asserts. A callback of a command is the item of the queue that it
-- is bound to. Null pointers that are followed and exceptions are results of their own; where an
-- assertion of the code would fail, or an end iterator is erased, the model leaves the object alone.
-- The second cheapest route of a face is a
-- route in the model, where rib/rib-entry.cpp returns a pointer into a vector that is gone.
--
-- The PIT's searches for Data find every prefix of the name that is in the name tree, by name. The
-- code starts them from findLongestPrefixMatch, whose hashes can make it stop short (NameTree.Matching
-- models that search); names whose prefixes share a hash are set aside there.
--
-- Recursion is structural, but for the walks through the two trees of names, which are on fuel. In
-- the RIB's: from a name up, as much as the name has components, and down, one more than the longest
-- name of the table has. In the name tree, from an entry up: one more than its prefix has components.
-- It is enough since parents are shorter than their children.
--
-- Not modelled: the Content Store's search for a range and its priority-FIFO policy, the
-- enumerations of the name tree, the strategy choice and measurements tables, the broadcast, ncc,
-- access and client-control strategies, the RIB manager, management, sockets, configuration and
-- logging. The values of the delay readings, packet tags and debug output are left out.
pub mod Base
pub mod NameTree
pub mod FibTable
pub mod Ndn
pub mod Face
pub mod DeadNonce
pub mod Fib
pub mod Pit
mod Toy
pub mod Fw
pub mod Pitless
pub mod Forwarder
pub mod Strategy
pub mod Bridge
pub mod Ndnlp
pub mod Rib
pub mod Cs
