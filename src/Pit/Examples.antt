-- ===== src/Pit/Examples.antt =====
-- PIT entries at concrete inputs.
use nfd_pitless.Base.{◌≡◌, refl, true, false, [], ◌∷◌, some, none, arith, ◌==◌, count_if}
use nfd_pitless.Toy.{toy, interest_for, west, east}
use nfd_pitless.Pit.{
  InRecord, Entry, new_entry, find_nonce, insert_or_update_in_record, get_in_record,
}
use nfd_pitless.Pit.Nonces.{find_nonce_lem}
use nfd_pitless.Pit.Records.{IsUnique, IsRenewed, other_in, insert_or_update_in_record_lem}

-- One Interest from the west at time 5.
abbrev pending : Entry toy
pending = record {
  interest = interest_for (7 ∷ []) 31;
  in_records =
      record {
        base = record { face = west; last_nonce = 31; last_renewed = 5; expiry = 4_000_000_005 };
        interest = some (interest_for (7 ∷ []) 31);
      }
      ∷ [];
  out_records = [];
  unsatisfy_timer = none;
  straggler_timer = none;
  suppression_interval = none;
}

pending_run :
    insert_or_update_in_record toy 5 west
      (interest_for (7 ∷ []) 31)
      (new_entry toy (interest_for (7 ∷ []) 31))
    ≡ pending
unfolding insert_or_update_in_record new_entry
pending_run = refl

pending-IsUnique : IsUnique toy pending
pending-IsUnique = record { once_in = λ g. ground arith; once_out = λ g. omega arith }

find_nonce_lem_example :
    find_nonce toy 31 east pending
    ≡ record { in_same = false; in_other = true; out_same = false; out_other = false }
find_nonce_lem_example = find_nonce_lem toy 31 east pending

insert_or_update_in_record_lem_example :
    IsUnique toy (insert_or_update_in_record toy 9 east (interest_for (7 ∷ []) 32) pending)
    × ((r : InRecord toy) × (get_in_record toy east
            (insert_or_update_in_record toy 9 east (interest_for (7 ∷ []) 32) pending)
          ≡ some r)
        × IsRenewed toy 9 (interest_for (7 ∷ []) 32) east r)
    × (count_if
          (other_in toy east (λ r. r.base.last_nonce == 31))
          (insert_or_update_in_record toy 9 east (interest_for (7 ∷ []) 32) pending).in_records
        ≡ 1)
    × ((insert_or_update_in_record toy 9 east (interest_for (7 ∷ []) 32) pending).out_records ≡ [])
insert_or_update_in_record_lem_example =
    insert_or_update_in_record_lem toy 9 (interest_for (7 ∷ []) 32) east pending
      (λ r. r.base.last_nonce == 31) pending-IsUnique
