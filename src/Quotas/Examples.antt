-- ===== src/Quotas/Examples.antt =====
-- Runs of the tracker with small limits.
use undelete.Base.{refl, true, false, none, some, List, [], ◌∷◌, arith}
use undelete.Base.Int.{pos}
use undelete.Base.Dict.{lookup}
use undelete.Quotas.Limits.{messages, Limits, limit_of}
use undelete.Quotas.Ledger.{Tenant}
use undelete.Quotas.Tracker.{Tracker, Readings, new_tracker, usage}
use undelete.Quotas.Admit.{Gap, admit_volume, admit_capture}
use undelete.Quotas.Invariant.{Inv, Respects}
use undelete.Quotas.Sections.{Operation, capture, media_file, run, run-new_tracker-Inv}
use undelete.Quotas.Volume.{Answers, admit_volume-Answers}
use undelete.Quotas.Memo.{quiet, answers}
use undelete.Quotas.Rate.{Checked, admit_rate-Checked}
use undelete.Quotas.Isolation.{Spares, admit_capture-Spares}

abbrev small : Limits
small = record {
  max_messages = pos 2;
  max_media_files = pos 2;
  max_media_bytes = pos 1000;
  captures_per_minute = pos 2;
  warn_percent = pos 80;
}

-- A seeded ledger that is at its limit of messages.
abbrev full_tenant : Tenant
full_tenant = record {
  message_count = pos 2;
  media_file_count = pos 0;
  media_byte_count = pos 0;
  seeded = true;
  rate = [];
  warned = λ kind. false;
  blocked = λ kind. some 100;
  last_seen = 5;
}

abbrev fresh_tenant : Tenant
fresh_tenant = record full_tenant { seeded = false; blocked = λ kind. none }

abbrev tracker_with : Tenant → Tracker
tracker_with te = record { limits = small; has_source = true; tenants = (pos 7, te) ∷ [] }

-- No other goroutine runs; the database answers one message.
abbrev calm : Gap
calm = quiet (answers (pos 1) (pos 0) (pos 0))

calm-Respects : Respects small calm
calm-Respects = record {
  before_keeps = λ t h. h;
  after_keeps = λ t h. h;
  messages_read = omega arith;
  files_read = omega arith;
  bytes_read = omega arith;
}

full-Inv : Inv small (tracker_with full_tenant)
full-Inv = record {
  same_limits = refl;
  bounded = omega arith;
  ledgers = (
    record {
      messages_fit = omega arith;
      files_fit = omega arith;
      bytes_fit = omega arith;
      rate_bounded = omega arith;
    },
    tt,
  );
}

abbrev no_others : Tracker → Tracker
no_others t = t

abbrev two_captures : List Operation
two_captures = capture (pos 7) 10 no_others calm calm ∷ media_file (pos 7) 20 calm calm ∷ []

run-new_tracker-Inv_example : Inv small (run (new_tracker small true) two_captures)
run-new_tracker-Inv_example =
    run-new_tracker-Inv small true two_captures
      ((λ t h. h, calm-Respects, calm-Respects), ((calm-Respects, calm-Respects), tt))

admit_volume-Answers_example :
    Answers small
      (pos 7)
      messages
      (admit_volume (tracker_with full_tenant) (pos 7) 50 messages true calm calm)
unfolding limit_of
admit_volume-Answers_example =
    admit_volume-Answers small (pos 7) messages (omega arith) (tracker_with full_tenant) 50 true
      calm calm calm-Respects calm-Respects full-Inv

-- The first query fails.
abbrev outage : Readings
outage = record {
  count_messages = none;
  count_media_files = some (pos 0);
  sum_stored_media_bytes = some (pos 0);
}

admit_rate-Checked_example : Checked (tracker_with full_tenant) (pos 7) 60 []
unfolding usage lookup
admit_rate-Checked_example =
    admit_rate-Checked (tracker_with full_tenant) (pos 7) 50 60 [] (omega arith)
      (full_tenant, refl, refl)

admit_capture-Spares_example :
    Spares
      (pos 8)
      (pos 7)
      (tracker_with full_tenant)
      (admit_capture (tracker_with full_tenant) (pos 8) 60 (λ u. u) (quiet outage) (quiet outage)).0
admit_capture-Spares_example =
    admit_capture-Spares (pos 8) (pos 7) (ground arith) (tracker_with full_tenant) 60 outage outage
