-- ===== src/Ndn.antt =====
-- ndn-cxx, the library of names and packets, as a parameter: names, selectors and packet contents
-- are abstract types, and what the forwarder asks of them are functions. A packet is the record of
-- what its getters return.
use nfd_pitless.Base.{ℕ, ◌≡◌, ◌↔◌, Bool, true, ℤ}

-- Interest. The lifetime is in milliseconds, and negative where the packet has none.
pub record InterestOf (Name Selectors : Type 0) : Type 0 where
  pub name : Name
  pub supporting_name : Name
  pub selectors : Selectors
  pub nonce : ℕ
  pub lifetime : ℤ
  pub incoming_face_id : ℕ

-- Data. The freshness period is in milliseconds, and negative where the packet has none;
-- `no_cache` is the CachingPolicy NO_CACHE of the local control header.
pub record DataOf (Name Content : Type 0) : Type 0 where
  pub name : Name
  pub supporting_name : Name
  pub freshness_period : ℤ
  pub incoming_face_id : ℕ
  pub no_cache : Bool
  pub content : Content

pub record Ndn : Type 1 where
  pub Name : Type 0
  pub Selectors : Type 0
  pub Content : Type 0
  -- Name::operator== and Selectors::operator==
  pub name_eq : Name → Name → Bool
  pub name_eq_iff : (a b : Name) → (name_eq a b ≡ true) ↔ (a ≡ b)
  pub selectors_eq : Selectors → Selectors → Bool
  pub selectors_eq_iff : (a b : Selectors) → (selectors_eq a b ≡ true) ↔ (a ≡ b)
  -- Name::size and Name::getPrefix
  pub size : Name → ℕ
  pub get_prefix : Name → ℕ → Name
  -- a prefix as long as the name is the name
  pub get_prefix-size : (a : Name) → get_prefix a (size a) ≡ a
  -- Name::isPrefixOf
  pub is_prefix_of : Name → Name → Bool
  -- Selectors::getMustBeFresh
  pub must_be_fresh : Selectors → Bool
  -- Interest::matchesData
  pub matches_data : InterestOf Name Selectors → DataOf Name Content → Bool
  -- DEFAULT_INTEREST_LIFETIME, in milliseconds
  pub default_interest_lifetime : ℕ
  -- the Names that "ndn:/localhost" and "ndn:/localhop" are parsed to
  pub localhost_name : Name
  pub localhop_name : Name

abbrev pub Interest : Ndn → Type 0
Interest ndn = InterestOf ndn.Name ndn.Selectors

abbrev pub Data : Ndn → Type 0
Data ndn = DataOf ndn.Name ndn.Content
