-- ===== src/App/Authority.antt =====
-- Who is answered and for whom app/handler.go writes.
use undelete.Base.{
  ◌≡◌, refl, Bool, true, false, Option, none, some, [], ◌++◌, if◌then◌else◌, not, All, arith, inl,
  if-both, if-split,
}
use undelete.Base.Int.{int_comparable}
use undelete.Base.Rows.{append-All}
use undelete.Telegram.Command.{Unicode}
use undelete.Business.Cache.{Connection}
use undelete.App.Effects.{
  Message, Resolution, resolved, refused, unavailable, Config, World, value, failure, Handling,
}
use undelete.App.Commands.{is_from, message_text, command_delete_my_data, command_retention}
use undelete.App.Save.{is_blank, save_message}
use undelete.App.Control.{has_argument, is_command, control_erasure, handle_control_command}
use undelete.App.Handler.{after_save, handle_update}
use undelete.App.Answers.{Authorised, handle_delete_my_data-All, answer_command-All}
use undelete.App.Tenancy.{Allowed, Saved, owner-Answers, save_message-Saved}

module _ (u : Unicode) (c : Config) (w : World) (msg : Message) where
  control-Allowed : Allowed c w msg (handle_control_command u c w msg).0
  unfolding handle_control_command
  control-Allowed = if-both Calls (is_blank msg) _ _ tt (go w.control refl)
    where
      Calls : Handling Bool → Type 0
      Calls r = Allowed c w msg r.0

      go :
          (r : Resolution)
          → w.control ≡ r
          → Calls (elim r [
            | refused ↦ ([], value true)
            | unavailable ↦ ([], failure)
            | resolved conn ↦
                if is_command u command_retention (message_text msg)
                then ([], value (not (is_from conn msg)))
                else if is_command u command_delete_my_data (message_text msg)
                then control_erasure u c w conn msg
                else ([], value false)
          ])
      go refused e = tt
      go unavailable e = tt
      go (resolved conn) e =
          if-both Calls (is_command u command_retention (message_text msg)) _ _ tt (
            if-both Calls (is_command u command_delete_my_data (message_text msg)) _ _
              (if-split Calls (not (is_from conn msg)) _ _ (λ f. tt)
                (λ f.
                  let served =
                    handle_delete_my_data-All (Authorised w msg) u c w conn
                      (owner-Answers c w msg conn (inl e) (ground (arith, f))) (message_text msg) in
                  if-both Calls (has_argument u (message_text msg)) _ _ served
                    (if-both Calls conn.is_enabled _ _ tt served)))
              tt)

  after_save-Allowed :
      (r : Handling (Option Connection))
      → Saved c w msg r
      → Allowed c w msg (after_save u c w msg r).0
  after_save-Allowed (before, failure) h = h.0
  after_save-Allowed (before, value none) h = h.0
  after_save-Allowed (before, value (some conn)) h = append-All _ before _ h.0 (
      answer_command-All (Authorised w msg) u c w conn msg
        (owner-Answers c w msg conn (h.1 conn refl)))

  -- Whatever the dependencies answer, what a message leads to is authorised: an answer goes to the
  -- owner of a connection that the update resolved to, and a request, a confirmation of an erasure
  -- or a retention is read or set for that owner's tenant, only when that owner sent the message;
  -- a message or a media record is saved only for the tenant of a connection that was resolved and
  -- enabled.
  pub handle_update-Authorised :
      All
        (Authorised w msg)
        (handle_update u c w
          (record { has_connection = false; message = some msg; edited = none; deleted = none })).0
  unfolding handle_update
  handle_update-Authorised = go (handle_control_command u c w msg) control-Allowed
    where
      go :
          (r : Handling Bool)
          → Allowed c w msg r.0
          → Allowed c w msg (
              (elim r.1 as (λ x. Handling Bool) [
                | failure ↦ (r.0, failure)
                | value handled ↦
                    if handled
                    then (r.0, value true)
                    else (let saved = after_save u c w msg (save_message c w msg false) in
                        (r.0 ++ saved.0, saved.1))
              ]).0)
      go (before, failure) h = h
      go (before, value true) h = h
      go (before, value false) h =
          append-All _ before _ h
            (after_save-Allowed (save_message c w msg false) (save_message-Saved c w msg false))
