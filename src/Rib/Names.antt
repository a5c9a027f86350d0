-- ===== src/Rib/Names.antt =====
-- What rib/rib.cpp needs to know of names: the order of its std::map, and how prefixes shorten.
use nfd_pitless.Base.{ℕ, ◌≤◌, ◌<◌, ◌≡◌, Bool, true, false}
use nfd_pitless.Ndn.{Ndn}

pub record NameOrder (ndn : Ndn) : Type 0 where
  -- Name::operator<
  pub less : ndn.Name → ndn.Name → Bool
  -- a prefix of n components has n components
  pub size-get_prefix : (a : ndn.Name) (n : ℕ) → n ≤ ndn.size a → ndn.size (ndn.get_prefix a n) ≡ n
  -- a name is longer than each of its prefixes but itself
  pub size_lt :
      (a b : ndn.Name)
      → ndn.is_prefix_of a b ≡ true
      → ndn.name_eq a b ≡ false
      → ndn.size a < ndn.size b
