-- ===== src/App/Commands.antt =====
-- bot/internal/app/handler.go: the answers to the owner's commands.
use undelete.Base.{
  ℕ, zero, suc, Bool, true, false, Option, none, some, List, [], ◌∷◌, if◌then◌else◌, not, ◌&&◌,
  nat_beq, ◌==◌,
}
use undelete.Base.Int.{ℤ, int_comparable}
use undelete.Telegram.Split.{Text}
use undelete.Telegram.Alert.{runes}
use undelete.Telegram.Command.{Unicode, parse_command, command_argument}
use undelete.Business.Cache.{Connection}
use undelete.Erasure.Confirm.{Outcome, erased, already_erased, was_expired, was_unknown}
use undelete.Users.Retention.{days, refused, parse_retention_days}
use undelete.App.Effects.{
  Message, refused, Answer, privacy_chunk, challenge, confirmation, replay, expired_notice,
  unknown_notice, failed_notice, retention_usage, retention_status, retention_changed, Effect, sent,
  erasure_requested, erasure_confirmed, retention_read, retention_set, Config, World,
}

abbrev pub is_text : Text → Text → Bool
is_text [] [] = true
is_text (a ∷ s) (b ∷ t) = nat_beq a b && is_text s t
is_text _ _ = false

abbrev pub command_privacy : Text
command_privacy = runes "/privacy"

abbrev pub command_delete_my_data : Text
command_delete_my_data = runes "/delete_my_data"

abbrev pub command_retention : Text
command_retention = runes "/retention"

unfoldable pub message_text : Message → Text
message_text msg = elim msg.text [ [] ↦ msg.caption | r ∷ text ↦ r ∷ text ]

abbrev pub is_from : Connection → Message → Bool
is_from conn msg = elim msg.sender [ none ↦ false | some user ↦ user.id == conn.owner_telegram ]

-- The chunks go out in order until one fails.
unfoldable pub send_command_answer : World → ℤ → ℕ → List Answer → List Effect × Bool
send_command_answer w to index [] = ([], true)
send_command_answer w to index (a ∷ answers) =
    let rest = send_command_answer w to (suc index) answers in
    if w.sends index then (sent to a ∷ rest.0, rest.1) else (sent to a ∷ [], false)

abbrev privacy_answers : ℕ → ℕ → List Answer
privacy_answers index zero = []
privacy_answers index (suc n) = privacy_chunk index ∷ privacy_answers (suc index) n

unfoldable pub send_privacy_policy : World → Connection → List Effect
send_privacy_policy w conn =
    (send_command_answer w conn.owner_telegram 0 (privacy_answers 0 w.privacy_chunks)).0

unfoldable pub request_erasure : World → Connection → List Effect
request_erasure w conn = elim w.requests [
  | none ↦ erasure_requested conn.owner conn.owner_telegram ∷ []
  | some code ↦
      erasure_requested conn.owner conn.owner_telegram
      ∷ (send_command_answer w conn.owner_telegram 0 (challenge code ∷ [])).0
]

abbrev outcome_answer : ℕ → Option Outcome → Answer
outcome_answer backup none = failed_notice
outcome_answer backup (some erased) = confirmation backup
outcome_answer backup (some already_erased) = replay backup
outcome_answer backup (some was_expired) = expired_notice
outcome_answer backup (some was_unknown) = unknown_notice

unfoldable pub confirm_erasure : Config → World → Connection → Text → List Effect
confirm_erasure c w conn code =
    erasure_confirmed conn.owner conn.owner_telegram code
    ∷ (send_command_answer w conn.owner_telegram 0 (outcome_answer c.backup_days w.confirms ∷ [])).0

unfoldable pub handle_delete_my_data : Unicode → Config → World → Connection → Text → List Effect
handle_delete_my_data u c w conn text =
    if not c.has_eraser then [] else elim (command_argument u text) [
      | [] ↦ request_erasure w conn
      | r ∷ code ↦ confirm_erasure c w conn (r ∷ code)
    ]

unfoldable pub answer_retention : Config → World → Connection → List Effect
answer_retention c w conn = elim w.reads_retention [
  | none ↦ retention_read conn.owner ∷ []
  | some n ↦
      retention_read conn.owner
      ∷ (send_command_answer w conn.owner_telegram 0 (retention_status n c.backup_days ∷ [])).0
]

unfoldable pub apply_retention : Config → World → Connection → ℕ → List Effect
apply_retention c w conn n =
    retention_set conn.owner n
    ∷ (if w.sets_retention
        then (send_command_answer w conn.owner_telegram 0
            (retention_changed n c.backup_days ∷ [])).0
        else [])

unfoldable pub handle_retention : Unicode → Config → World → Connection → Text → List Effect
handle_retention u c w conn text =
    if not c.has_retention then [] else elim (command_argument u text) [
      | [] ↦ answer_retention c w conn
      | r ∷ argument ↦ elim (parse_retention_days u.is_space (r ∷ argument)) [
        | refused e ↦ (send_command_answer w conn.owner_telegram 0 (retention_usage ∷ [])).0
        | days n ↦ apply_retention c w conn n
      ]
    ]

abbrev pub serve_command : Unicode → Config → World → Connection → Message → Text → List Effect
serve_command u c w conn msg command =
    if is_text command command_privacy
    then send_privacy_policy w conn
    else if is_text command command_delete_my_data
    then handle_delete_my_data u c w conn (message_text msg)
    else if is_text command command_retention
    then handle_retention u c w conn (message_text msg)
    else []

unfoldable pub answer_command : Unicode → Config → World → Connection → Message → List Effect
answer_command u c w conn msg =
    if not c.has_sender then [] else elim (parse_command u (message_text msg)) [
      | none ↦ []
      | some command ↦ if not (is_from conn msg) then [] else serve_command u c w conn msg command
    ]
