-- ===== src/Toy.antt =====
-- An instance of the ndn-cxx parameter for tests: a name is a list of numbers, and Data matches an
-- Interest whose name is a prefix of its own.
use nfd_pitless.Base.{
  ℕ, ◌≡◌, ◌↔◌, Bool, true, false, ◌&&◌, List, [], ◌∷◌, arith, pos, ◌==◌, ==-refl, none, find_if,
  length, take, refl, ap,
}
use nfd_pitless.Ndn.{Ndn, Interest, Data}
use nfd_pitless.Face.{Face}
use nfd_pitless.Fib.{NextHop}
use nfd_pitless.DeadNonce.{DeadNonceList, default_lifetime}
use nfd_pitless.Fw.{Stores, Forwarder}

abbrev pub list_eq : List ℕ → List ℕ → Bool
list_eq [] [] = true
list_eq (x ∷ xs) (y ∷ ys) = x == y && list_eq xs ys
list_eq _ _ = false

list_eq-to : (xs ys : List ℕ) → list_eq xs ys ≡ true → xs ≡ ys
list_eq-to [] [] h = cc
list_eq-to [] (y ∷ ys) h = cc
list_eq-to (x ∷ xs) [] h = cc
list_eq-to (x ∷ xs) (y ∷ ys) h = ground (arith, list_eq-to xs ys)

list_eq_refl : (xs : List ℕ) → list_eq xs xs ≡ true
list_eq_refl [] = cc
list_eq_refl (x ∷ xs) = ground (arith, list_eq_refl xs, ==-refl x)

pub list_eq_iff : (xs ys : List ℕ) → (list_eq xs ys ≡ true) ↔ (xs ≡ ys)
list_eq_iff xs ys = (list_eq-to xs ys, λ e. rw e (list_eq_refl ys))

abbrev pub is_list_prefix : List ℕ → List ℕ → Bool
is_list_prefix [] ys = true
is_list_prefix (x ∷ xs) [] = false
is_list_prefix (x ∷ xs) (y ∷ ys) = x == y && is_list_prefix xs ys

-- Selectors are the MustBeFresh flag.
abbrev pub bool_eq : Bool → Bool → Bool
bool_eq true b = b
bool_eq false true = false
bool_eq false false = true

pub bool_eq_iff : (a b : Bool) → (bool_eq a b ≡ true) ↔ (a ≡ b)
bool_eq_iff true true = ground arith
bool_eq_iff true false = ground arith
bool_eq_iff false true = ground arith
bool_eq_iff false false = ground arith

pub take-length : (xs : List ℕ) → take (length xs) xs ≡ xs
take-length [] = refl
take-length (x ∷ xs) = ap (◌∷◌ x) (take-length xs)

-- 1 stands for "localhost", 2 for "localhop".
abbrev pub toy : Ndn
toy = record {
  Name = List ℕ;
  Selectors = Bool;
  Content = ℕ;
  name_eq = list_eq;
  name_eq_iff = list_eq_iff;
  selectors_eq = bool_eq;
  selectors_eq_iff = bool_eq_iff;
  size = length;
  get_prefix = λ name n. take n name;
  get_prefix-size = take-length;
  is_prefix_of = is_list_prefix;
  must_be_fresh = λ b. b;
  matches_data = λ i d. is_list_prefix i.name d.name;
  default_interest_lifetime = 4000;
  localhost_name = 1 ∷ [];
  localhop_name = 2 ∷ [];
}

abbrev pub interest_for : List ℕ → ℕ → Interest toy
interest_for name nonce = record {
  name = name;
  supporting_name = [];
  selectors = false;
  nonce = nonce;
  lifetime = pos 4000;
  incoming_face_id = 0;
}

abbrev pub data_for : List ℕ → List ℕ → Data toy
data_for name supporting_name = record {
  name = name;
  supporting_name = supporting_name;
  freshness_period = pos 1000;
  incoming_face_id = 0;
  no_cache = false;
  content = 42;
}

abbrev pub local_face : Face
local_face = record { address = 10; id = 256; is_local = true }

abbrev pub west : Face
west = record { address = 11; id = 257; is_local = false }

abbrev pub east : Face
east = record { address = 12; id = 258; is_local = false }

-- A store is a list of Data, searched from the front.
abbrev pub toy_stores : Stores toy
toy_stores = record {
  Cs = List (Data toy);
  cs_find = λ cs i. (cs, find_if (λ d. is_list_prefix i.name d.name) cs);
  cs_insert = λ cs d is_unsolicited. d ∷ cs;
  SimCs = List (Data toy);
  sim_lookup = λ cs i. (cs, find_if (λ d. is_list_prefix i.name d.name) cs);
  sim_add = λ cs d. d ∷ cs;
}

-- Everything is routed to the east at cost 5 and to the west at cost 7.
abbrev pub two_ways : List NextHop
two_ways = record { face = east; cost = 5 } ∷ record { face = west; cost = 7 } ∷ []

abbrev pub idle_dead_nonces : DeadNonceList
idle_dead_nonces = record {
  lifetime = default_lifetime;
  queue = 0 ∷ 0 ∷ 0 ∷ 0 ∷ 0 ∷ [];
  capacity = 128;
  actual_mark_counts = [];
  mark_interval = 1_200_000_000;
  adjust_capacity_interval = default_lifetime;
}

abbrev pub idle : Forwarder toy toy_stores
idle = record {
  fib = λ name. two_ways;
  pit = record { nodes = []; n_items = 0 };
  dead_nonces = idle_dead_nonces;
  cs = [];
  cs_from_ndn_sim = none;
  n_in_interests = 0;
  n_out_interests = 0;
  n_in_datas = 0;
  n_out_datas = 0;
  has_interest_callback = true;
  has_content_callback = false;
  outputs = [];
}
