-- ===== src/App/Handler.antt =====
-- bot/internal/app/handler.go: the deletion mark, and the handling of one update.
use undelete.Base.{
  Bool, true, false, Option, none, some, List, [], ◌∷◌, ◌++◌, if◌then◌else◌, ◌||◌, ◌==◌,
  string_comparable,
}
use undelete.Base.Int.{ℤ, pos, int_comparable}
use undelete.Telegram.Command.{Unicode}
use undelete.Business.Cache.{Connection}
use undelete.App.Effects.{
  Message, Deletion, Update, resolved, refused, unavailable, Effect, handled_connection, marked,
  Config, World, value, failure, Handling,
}
use undelete.App.Commands.{answer_command}
use undelete.App.Save.{Entered, skipped, broken, entered, released, enter_save, save_message}
use undelete.App.Control.{handle_control_command, drop_confirm_edit}

abbrev pub mark_entered : Config → World → Deletion → ℤ → List Effect × Entered → Handling Bool
mark_entered c w del owner (before, skipped) = (before, value true)
mark_entered c w del owner (before, broken) = (before, failure)
mark_entered c w del owner (before, entered conn) =
    let mark = marked conn.owner conn.owner_telegram del.connection del.chat_id del.message_ids in
    (before ++ mark ∷ released c owner, if w.marks then value true else failure)

unfoldable pub handle_deleted : Config → World → Deletion → Handling Bool
handle_deleted c w del =
    if (del.connection == "") || (is_none del.message_ids || (del.chat_id == pos 0))
    then ([], value true)
    else elim w.lookup [
      | refused ↦ ([], value true)
      | unavailable ↦ ([], failure)
      | resolved conn ↦ mark_entered c w del conn.owner (enter_save c w del.connection conn)
    ]
  where
    is_none : List ℤ → Bool
    is_none [] = true
    is_none (m ∷ ms) = false

-- After the save of a message: a command on a connection that captures is answered.
abbrev pub after_save :
    Unicode → Config → World → Message → Handling (Option Connection) → Handling Bool
after_save u c w msg (before, failure) = (before, failure)
after_save u c w msg (before, value none) = (before, value true)
after_save u c w msg (before, value (some conn)) =
    (before ++ answer_command u c w conn msg, value true)

abbrev pub handle_message : Unicode → Config → World → Message → Handling Bool
handle_message u c w msg =
    let control = handle_control_command u c w msg in
    elim control.1 [
      | failure ↦ (control.0, failure)
      | value handled ↦
          if handled
          then (control.0, value true)
          else (let saved = after_save u c w msg (save_message c w msg false) in
              (control.0 ++ saved.0, saved.1))
    ]

abbrev succeeded : Handling (Option Connection) → Handling Bool
succeeded (before, failure) = (before, failure)
succeeded (before, value conn) = (before, value true)

abbrev pub handle_edited : Unicode → Config → World → Message → Handling Bool
handle_edited u c w msg = elim (drop_confirm_edit u w msg) [
  | failure ↦ ([], failure)
  | value drop ↦ if drop then ([], value true) else succeeded (save_message c w msg true)
]

unfoldable pub handle_update : Unicode → Config → World → Update → Handling Bool
handle_update u c w update =
    if update.has_connection
    then (handled_connection ∷ [], if w.handles_connection then value true else failure)
    else elim update.message [
      | some msg ↦ handle_message u c w msg
      | none ↦ elim update.edited [
        | some msg ↦ handle_edited u c w msg
        | none ↦ elim update.deleted [ some del ↦ handle_deleted c w del | none ↦ ([], value true) ]
      ]
    ]
