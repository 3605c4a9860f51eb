-- ===== src/Erasure/Examples.antt =====
-- Runs of a confirmation on a small table.
use undelete.Base.{ℕ, ◌≡◌, refl, Bool, true, false, some, [], ◌∷◌, string_comparable}
use undelete.Base.Int.{pos}
use undelete.Erasure.Requests.{pending, Request, spent, scrubbed}
use undelete.Erasure.Confirm.{
  World, Steps, Store, answer, fails, erased, already_erased, attachments, run_steps, confirm_hash,
}
use undelete.Erasure.Rows.{codes, requests_of, can_start, refusal}
use undelete.Erasure.Lifecycle.{
  confirm_hash-refuses, confirm_hash-erases_once, confirm_hash-interrupted,
}

abbrev live_request : Request
live_request = record {
  owner = pos 7;
  telegram_user = some (pos 70);
  connection = some "c1";
  hash = "h1";
  status = pending;
  expires_at = 100;
}

-- The data is a number of records; a request of another tenant stands beside.
abbrev store : Store ℕ
store = record {
  requests = live_request ∷ record live_request { owner = pos 8; hash = "h2" } ∷ [];
  data_of = 5;
}

-- Each deletion takes some of the data; the third one fails when it is told to.
abbrev deletions : Bool → Steps ℕ
deletions media_fails = record {
  disable_owner = λ owner s. (s, false);
  delete_alerts = λ owner s. (3, false);
  erase_media = λ owner s. (2, media_fails);
  delete_messages = λ owner s. (0, false);
}

abbrev world : Bool → World ℕ
world media_fails = record {
  now = 50;
  steps = deletions media_fails;
  guard_fails = false;
  claim_fails = false;
  requests_fail = false;
  complete_fails = false;
}

-- Data that came in after the erasure.
abbrev refilled : Store ℕ
refilled = record (confirm_hash (world false) (pos 7) "h1" store).0 { data_of = 9 }

confirm_hash-erases_once_example :
    let first = confirm_hash (world false) (pos 7) "h1" store in
    (first.1 ≡ answer erased)
    × (first.0.data_of ≡ 0)
    × (requests_of (pos 7) first.0 ≡ scrubbed live_request ∷ [])
    × (confirm_hash (world true) (pos 7) "h1" refilled ≡ (refilled, answer already_erased))
confirm_hash-erases_once_example =
    confirm_hash-erases_once (pos 7) "h1" (world false) (world true) store refilled live_request 5 3
      2 0 refl refl refl refl refl refl refl refl refl refl refl refl refl

confirm_hash-interrupted_example :
    let first = confirm_hash (world true) (pos 7) "h1" store in
    (first.1 ≡ fails erased attachments)
    × (first.0.data_of ≡ (run_steps (deletions true) (pos 7) 5).0)
    × (codes (pos 7) "h1" first.0 ≡ spent live_request ∷ [])
    × (can_start 500 (spent live_request) ≡ true)
unfolding run_steps
confirm_hash-interrupted_example =
    confirm_hash-interrupted (pos 7) "h1" (world true) store live_request attachments 500 refl refl
      refl refl refl

-- The code of another tenant.
confirm_hash-refuses_example :
    confirm_hash (world false) (pos 7) "h2" store
    ≡ (store, answer (refusal (codes (pos 7) "h2" store)))
confirm_hash-refuses_example = confirm_hash-refuses (pos 7) "h2" (world false) store refl refl refl
