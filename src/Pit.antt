-- ===== src/Pit.antt =====
-- A PIT entry: daemon/table/pit-entry.cpp, pit-face-record.cpp, pit-in-record.cpp and
-- pit-out-record.cpp. Time points are nanoseconds since TimePoint::min(), and `now` is the reading
-- of steady_clock in the call. Lists of records have the front at their head.
pub mod Nonces
pub mod Records
pub mod Table
pub mod Everywhere
pub mod Lookup
mod Examples
use nfd_pitless.Base.{
  ℕ, ◌+◌, ◌*◌, Bool, true, false, not, ◌&&◌, ◌||◌, List, [], ◌∷◌, Option, none, some, ℤ,
  if◌then◌else◌, ltb, leb, ◌==◌, is_negative, pos_part, any_of, find_if, erase_if,
}
use nfd_pitless.Ndn.{Ndn, Interest}
use nfd_pitless.Face.{Face, same}

abbrev pub ns_per_ms : ℕ
ns_per_ms = 1_000_000

pub record FaceRecord : Type 0 where
  pub face : Face
  pub last_nonce : ℕ
  pub last_renewed : ℕ
  pub expiry : ℕ

abbrev pub new_face_record : Face → FaceRecord
new_face_record face = record { face = face; last_nonce = 0; last_renewed = 0; expiry = 0 }

-- An out-record has nothing of its own.
abbrev pub OutRecord : Type 0
OutRecord = FaceRecord

-- A straggler timer's due time, with the arguments that it hands to onInterestFinalize.
pub record Straggler : Type 0 where
  pub due : ℕ
  pub is_satisfied : Bool
  pub freshness_period : ℤ

-- The set of DuplicateNonceWhere bits of an int.
pub record DuplicateNonceWhere : Type 0 where
  pub in_same : Bool
  pub in_other : Bool
  pub out_same : Bool
  pub out_other : Bool

abbrev pub duplicate_nonce_none : DuplicateNonceWhere
duplicate_nonce_none = record {
  in_same = false;
  in_other = false;
  out_same = false;
  out_other = false;
}

-- The test `dnw != DUPLICATE_NONCE_NONE`.
abbrev pub is_duplicate : DuplicateNonceWhere → Bool
is_duplicate dnw = dnw.in_same || dnw.in_other || dnw.out_same || dnw.out_other

abbrev pub out_to : Face → OutRecord → Bool
out_to face r = same r.face face

module _ (ndn : Ndn) where
  open ndn use {is_prefix_of, localhost_name, localhop_name, default_interest_lifetime}

  pub record InRecord : Type 0 where
    pub base : FaceRecord
    pub interest : Option (Interest ndn)

  pub record Entry : Type 0 where
    pub interest : Interest ndn
    pub in_records : List InRecord
    pub out_records : List OutRecord
    pub unsatisfy_timer : Option ℕ
    pub straggler_timer : Option Straggler
    -- StrategyInfo of RetxSuppressionExponential, in microseconds
    pub suppression_interval : Option ℕ

  unfoldable pub new_entry : Interest ndn → Entry
  new_entry interest = record {
    interest = interest;
    in_records = [];
    out_records = [];
    unsatisfy_timer = none;
    straggler_timer = none;
    suppression_interval = none;
  }

  -- FaceRecord::update
  unfoldable pub update : ℕ → Interest ndn → FaceRecord → FaceRecord
  update now interest r =
      let lifetime =
        if is_negative interest.lifetime
        then default_interest_lifetime
        else pos_part interest.lifetime in
      record r {
        last_nonce = interest.nonce;
        last_renewed = now;
        expiry = now + lifetime * ns_per_ms;
      }

  -- InRecord::update
  unfoldable pub update_in : ℕ → Interest ndn → InRecord → InRecord
  unfolding update
  update_in now interest r = record { base = update now interest r.base; interest = some interest }

  unfoldable pub has_local_in_record : Entry → Bool
  has_local_in_record e = any_of (λ r. r.base.face.is_local) e.in_records

  unfoldable pub violates_scope : Entry → Face → Bool
  unfolding has_local_in_record
  violates_scope e face =
      if not face.is_local && is_prefix_of localhost_name e.interest.name
      then true
      else not face.is_local
        && is_prefix_of localhop_name e.interest.name
        && not (has_local_in_record e)

  unfoldable pub has_unexpired_out_records : ℕ → Entry → Bool
  has_unexpired_out_records now e = any_of (λ r. leb now r.expiry) e.out_records

  unfoldable pub can_forward_to : ℕ → Entry → Face → Bool
  unfolding violates_scope
  can_forward_to now e face =
      let unexpired_out = any_of (λ r. same r.face face && leb now r.expiry) e.out_records in
      let unexpired_other_in =
        any_of (λ r. not (same r.base.face face) && leb now r.base.expiry) e.in_records in
      if unexpired_out
      then false
      else if not unexpired_other_in
      then false
      else not (violates_scope e face)

  find_nonce_in : ℕ → Face → List InRecord → DuplicateNonceWhere → DuplicateNonceWhere
  find_nonce_in nonce face [] dnw = dnw
  find_nonce_in nonce face (r ∷ rs) dnw = find_nonce_in nonce face rs (
      if r.base.last_nonce == nonce
      then if same r.base.face face
        then record dnw { in_same = true }
        else record dnw { in_other = true }
      else dnw)

  find_nonce_out : ℕ → Face → List OutRecord → DuplicateNonceWhere → DuplicateNonceWhere
  find_nonce_out nonce face [] dnw = dnw
  find_nonce_out nonce face (r ∷ rs) dnw = find_nonce_out nonce face rs (
      if r.last_nonce == nonce
      then if same r.face face
        then record dnw { out_same = true }
        else record dnw { out_other = true }
      else dnw)

  unfoldable pub find_nonce : ℕ → Face → Entry → DuplicateNonceWhere
  unfolding find_nonce_in find_nonce_out
  find_nonce nonce face e =
      find_nonce_out nonce face e.out_records
        (find_nonce_in nonce face e.in_records duplicate_nonce_none)

  abbrev pub in_from : Face → InRecord → Bool
  in_from face r = same r.base.face face

  -- `it->update(interest)` for the in-record that find_if returns.
  unfoldable pub renew_in : ℕ → Interest ndn → Face → List InRecord → List InRecord
  unfolding update_in
  renew_in now interest face [] = []
  renew_in now interest face (r ∷ rs) =
      if in_from face r then update_in now interest r ∷ rs else r ∷ renew_in now interest face rs

  unfoldable pub insert_or_update_in_record : ℕ → Face → Interest ndn → Entry → Entry
  unfolding renew_in
  insert_or_update_in_record now face interest e =
      let fresh : InRecord = record { base = new_face_record face; interest = none } in
      if any_of (in_from face) e.in_records
      then record e { in_records = renew_in now interest face e.in_records }
      else record e { in_records = update_in now interest fresh ∷ e.in_records }

  unfoldable pub renew_out : ℕ → Interest ndn → Face → List OutRecord → List OutRecord
  unfolding update
  renew_out now interest face [] = []
  renew_out now interest face (r ∷ rs) =
      if out_to face r then update now interest r ∷ rs else r ∷ renew_out now interest face rs

  unfoldable pub insert_or_update_out_record : ℕ → Face → Interest ndn → Entry → Entry
  unfolding renew_out
  insert_or_update_out_record now face interest e =
      if any_of (out_to face) e.out_records
      then record e { out_records = renew_out now interest face e.out_records }
      else record e { out_records = update now interest (new_face_record face) ∷ e.out_records }

  unfoldable pub get_in_record : Face → Entry → Option InRecord
  get_in_record face e = find_if (in_from face) e.in_records

  unfoldable pub get_out_record : Face → Entry → Option OutRecord
  get_out_record face e = find_if (out_to face) e.out_records

  unfoldable pub delete_in_records : Entry → Entry
  delete_in_records e = record e { in_records = [] }

  unfoldable pub delete_out_record : Face → Entry → Entry
  delete_out_record face e = record e { out_records = erase_if (out_to face) e.out_records }
