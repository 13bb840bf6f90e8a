-- ===== src/Pending/Tests.antt =====
-- Runs of the pending table, and its theorems at concrete inputs.
use edgehost.Prelude.{◌≡◌, ◌↔◌, ◌⊎◌, refl, true, false, [], ◌∷◌, none, some, if◌then◌else◌, ◌==◌}
use edgehost.Prelude.Text.{text}
use edgehost.Prelude.Table.{find_index}
use edgehost.Pending.{
  Entry, Table, Request, create, insert, scan, filled, find_inbound, release, release_outbound,
  release_inbound, zero_entry,
}
use edgehost.Pending.Invariant.{IsValid, Accepts, create-IsValid, insert-IsValid}
use edgehost.Pending.Lookup.{by_inbound, by_outbound, insert_lem, find-insert}
use edgehost.Pending.Release.{Released, release_outbound-Released, release_inbound-Released}
use edgehost.Pending.Run.{inserts, releases_outbound, run, run-create-IsValid}

abbrev two_slots : Table
two_slots = record { slots = zero_entry ∷ zero_entry ∷ []; cap = 2; count = 0 }

abbrev first_request : Request
first_request = record {
  inbound_slot = 3;
  outbound_id = 11;
  plugin = 1;
  user_tag = 5;
  timeout_ms = 100;
  started_ms = 7;
  principal_sub = some (text "lab");
}

abbrev second_request : Request
second_request = record first_request { inbound_slot = 4; outbound_id = 12 }

abbrev nested : Request
nested = record first_request { outbound_id = 13 }

one_parked : Table
one_parked = (insert two_slots first_request).1

two_slots-IsValid : IsValid two_slots
unfolding create
two_slots-IsValid = (create-IsValid 2 refl).0

one_parked-IsValid : IsValid one_parked
unfolding one_parked
one_parked-IsValid = insert-IsValid first_request two_slots-IsValid

nested_is_refused : (insert one_parked nested).0 ≡ false
unfolding one_parked insert scan filled
nested_is_refused = refl

second_is_placed : (insert one_parked second_request).0 ≡ true
unfolding one_parked insert scan filled
second_is_placed = refl

released_slot_is_free : (release_inbound one_parked 3).1 ≡ two_slots
unfolding one_parked insert scan filled release_inbound find_inbound find_index release
released_slot_is_free = refl

insert_lem_example :
    (((insert one_parked nested).0 ≡ true) ↔ Accepts one_parked nested)
    × ((insert one_parked nested).0 ≡ false → (insert one_parked nested).1 ≡ one_parked)
insert_lem_example = insert_lem one_parked nested one_parked-IsValid

find-insert_example :
    (by_inbound (insert one_parked second_request).1 4
      ≡ (if 4 == 4 then some (filled second_request) else by_inbound one_parked 4))
    × (by_outbound (insert one_parked second_request).1 11
        ≡ (if 12 == 11 then some (filled second_request) else by_outbound one_parked 11))
find-insert_example = find-insert second_request one_parked-IsValid second_is_placed 4 11

release_outbound-Released_example :
    ((by_outbound one_parked 11 ≡ none) × (release_outbound one_parked 11 ≡ (false, one_parked)))
    ⊎ ((e : Entry) × (by_outbound one_parked 11 ≡ some e)
        × Released one_parked e (release_outbound one_parked 11))
release_outbound-Released_example = release_outbound-Released one_parked 11 one_parked-IsValid

release_inbound-Released_example :
    ((by_inbound one_parked 3 ≡ none) × (release_inbound one_parked 3 ≡ (false, one_parked)))
    ⊎ ((e : Entry) × (by_inbound one_parked 3 ≡ some e)
        × Released one_parked e (release_inbound one_parked 3))
release_inbound-Released_example = release_inbound-Released one_parked 3 one_parked-IsValid

run-create-IsValid_example :
    IsValid (run two_slots (inserts first_request ∷ inserts nested ∷ releases_outbound 11 ∷ []))
unfolding create
run-create-IsValid_example =
    run-create-IsValid 2 (inserts first_request ∷ inserts nested ∷ releases_outbound 11 ∷ []) refl
