-- ===== src/App/Control.antt =====
-- bot/internal/app/handler.go: the commands that are resolved before a message is saved.
use undelete.Base.{
  Bool, true, false, none, some, [], ◌∷◌, if◌then◌else◌, not, ◌&&◌, string_comparable,
}
use undelete.Base.Int.{int_comparable}
use undelete.Telegram.Split.{Text}
use undelete.Telegram.Command.{Unicode, parse_command, command_argument}
use undelete.Business.Cache.{Connection}
use undelete.App.Effects.{
  Message, resolved, refused, unavailable, Config, World, Returned, value, failure, Handling,
}
use undelete.App.Commands.{
  is_text, command_delete_my_data, command_retention, message_text, is_from, handle_delete_my_data,
}
use undelete.App.Save.{is_blank}

-- A text with a code: the command of an erasure and an argument.
abbrev pub has_argument : Unicode → Text → Bool
has_argument u text = elim (command_argument u text) [ [] ↦ false | _ ∷ _ ↦ true ]

abbrev pub is_command : Unicode → Text → Text → Bool
is_command u name text = elim (parse_command u text) [
  | none ↦ false
  | some command ↦ is_text command name
]

abbrev pub is_confirmation : Unicode → Text → Bool
is_confirmation u text = is_command u command_delete_my_data text && has_argument u text

-- /delete_my_data before the capture.
abbrev pub control_erasure : Unicode → Config → World → Connection → Message → Handling Bool
control_erasure u c w conn msg =
    if not (is_from conn msg)
    then ([], value true)
    else if has_argument u (message_text msg)
    then (handle_delete_my_data u c w conn (message_text msg), value true)
    else if conn.is_enabled
    then ([], value false)
    else (handle_delete_my_data u c w conn (message_text msg), value true)

unfoldable pub handle_control_command : Unicode → Config → World → Message → Handling Bool
handle_control_command u c w msg = if is_blank msg then ([], value false) else elim w.control [
  | refused ↦ ([], value true)
  | unavailable ↦ ([], failure)
  | resolved conn ↦
      if is_command u command_retention (message_text msg)
      then ([], value (not (is_from conn msg)))
      else if is_command u command_delete_my_data (message_text msg)
      then control_erasure u c w conn msg
      else ([], value false)
]

unfoldable pub drop_confirm_edit : Unicode → World → Message → Returned Bool
drop_confirm_edit u w msg =
    if is_blank msg
    then value false
    else if not (is_confirmation u (message_text msg))
    then value false
    else elim w.control [
      | refused ↦ value true
      | unavailable ↦ failure
      | resolved conn ↦ value true
    ]
