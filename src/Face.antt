-- ===== src/Face.antt =====
-- Faces, daemon/face/face.hpp, as the forwarder sees them. A shared pointer to a Face is compared
-- by `address`; `id` is the FaceId that the face table gave out. A FaceId is an int that is only
-- compared for equality, and is kept as its 32-bit pattern.
use nfd_pitless.Base.{ℕ, ◌-◌, ◌^◌, Bool, ◌==◌}

pub record Face : Type 0 where
  pub address : ℕ
  pub id : ℕ
  pub is_local : Bool

-- -1
abbrev pub invalid_faceid : ℕ
invalid_faceid = 2 ^ 32 - 1

abbrev pub faceid_content_store : ℕ
faceid_content_store = 254

-- The test `a.get() == &b`.
abbrev pub same : Face → Face → Bool
same a b = a.address == b.address
