-- ===== src/App/Examples.antt =====
-- Updates and retries with concrete answers.
use undelete.Base.{
  ◌+◌, ◌≤◌, ◌≡◌, refl, true, false, none, some, [], All, arith, nat_beq, if◌then◌else◌, ltb,
}
use undelete.Base.Int.{pos}
use undelete.Telegram.Alert.{runes}
use undelete.Telegram.Command.{Unicode, parse_command, command_argument}
use undelete.Business.Cache.{Connection}
use undelete.Erasure.Confirm.{erased}
use undelete.App.Transient.{Failure, World as RetryWorld, is_transient, retry_loop, run, throttled}
use undelete.App.Retry.{Retried, run_lem, wait-panics}
use undelete.Base.{Bool, ◌∷◌, ◌⊎◌, length}
use undelete.App.Effects.{Deletion, User, Chat, Message, resolved, Config, World}
use undelete.App.Commands.{message_text}
use undelete.App.Control.{is_confirmation}
use undelete.App.Handler.{handle_update, handle_deleted}
use undelete.App.Save.{save_message, rechecked, enter_save, write_message, save_media}
use undelete.App.Answers.{Authorised}
use undelete.App.Authority.{handle_update-Authorised}
use undelete.App.Fence.{Fenced, Enabled, Anything, saves-Fenced}
use undelete.App.Secrecy.{Unstored, handle_update-secret}

abbrev ascii : Unicode
ascii = record {
  is_space = λ r. nat_beq r 32;
  lower = λ r. if ltb r 65 then r else if ltb r 91 then r + 32 else r;
}

abbrev owner_user : User
owner_user = record { id = pos 70; first_name = runes "Ann"; last_name = []; username = [] }

abbrev private_chat : Chat
private_chat = record {
  id = pos 3;
  title = [];
  first_name = runes "Bob";
  last_name = [];
  username = [];
  kind = runes "private";
}

abbrev code_message : Message
code_message = record {
  connection = "bc";
  chat = private_chat;
  message_id = pos 11;
  sender = some owner_user;
  text = runes "/Delete_my_data ABCD2345";
  caption = [];
  date = pos 1000;
  attachments = [];
}

abbrev connection : Connection
connection = record {
  id = "bc";
  owner = pos 7;
  owner_telegram = pos 70;
  can_reply = true;
  is_enabled = true;
}

abbrev everything : Config
everything = record {
  has_media = true;
  has_sender = true;
  has_eraser = true;
  has_retention = true;
  has_guard = true;
  has_quota = true;
  backup_days = 14;
}

abbrev answers : World
answers = record {
  handles_connection = true;
  control = resolved connection;
  lookup = resolved connection;
  relookup = resolved connection;
  shares = true;
  admits_capture = true;
  admits_media = λ i. true;
  saves = true;
  saves_media = λ i. true;
  marks = true;
  sends = λ i. true;
  privacy_chunks = 2;
  requests = none;
  confirms = some erased;
  reads_retention = none;
  sets_retention = true;
}

is_code : is_confirmation ascii (message_text code_message) ≡ true
unfolding parse_command command_argument message_text
is_code = refl

handle_update-secret_example :
    Unstored
      (handle_update ascii everything answers (record {
        has_connection = false;
        message = some code_message;
        edited = none;
        deleted = none;
      })).0
    × Unstored
        (handle_update ascii everything answers (record {
          has_connection = false;
          message = none;
          edited = some code_message;
          deleted = none;
        })).0
handle_update-secret_example = handle_update-secret ascii everything answers code_message is_code

handle_update-Authorised_example :
    All
      (Authorised answers code_message)
      (handle_update ascii everything answers (record {
        has_connection = false;
        message = some code_message;
        edited = none;
        deleted = none;
      })).0
handle_update-Authorised_example = handle_update-Authorised ascii everything answers code_message

abbrev rate_limited : Failure
rate_limited = record {
  is_canceled = false;
  is_deadline = false;
  api = some (record { code = pos 429; retry_after = pos 2 });
  pg_code = none;
  pg_timeout = false;
  pg_connect = false;
  pg_safe_to_retry = false;
  net = none;
  is_unexpected_eof = false;
}

abbrev outage : RetryWorld
outage = record {
  attempt = λ i. some rate_limited;
  sleeps = λ i. true;
  degraded_until = 0;
  checked_at = 5;
  ended_at = 6;
}

three_attempts : (run outage).attempts ≡ 3
unfolding run retry_loop is_transient
three_attempts = refl

run_lem_example :
    Retried outage 1 (run outage)
    × ((run outage).attempts ≤ 3)
    × ((outage.degraded_until ≤ outage.checked_at) ⊎ ((run outage).attempts ≡ 1))
run_lem_example = run_lem outage

wait-panics_example : throttled (λ n. 0) (pos 10000000000) ≡ none
wait-panics_example = wait-panics (λ n. 0) 10000000000 (omega arith) (omega arith)

abbrev deletion : Deletion
deletion = record { connection = "bc"; chat_id = pos 3; message_ids = pos 11 ∷ [] }

one_owner :
    (a b : Connection)
    → answers.lookup ≡ resolved a
    → answers.relookup ≡ resolved b
    → b.owner ≡ a.owner
one_owner a b e f = cc

saves-Fenced_example :
    ((msg : Message) (edited : Bool)
      → Fenced Enabled answers msg.connection (save_message everything answers msg edited).0)
    × ((del : Deletion)
        → Fenced Anything answers del.connection (handle_deleted everything answers del).0)
saves-Fenced_example = saves-Fenced everything answers refl one_owner

-- The lock, the second resolution, the message, and the release.
saves_under_lock : length (save_message everything answers code_message false).0 ≡ 4
unfolding save_message rechecked enter_save write_message save_media
saves_under_lock = refl
