-- ===== src/App/Secrecy.antt =====
-- The saves of app/handler.go and texts with the code of an erasure.
use undelete.Base.{
  ◌≡◌, refl, Bool, true, false, Option, none, some, List, [], ◌∷◌, ◌++◌, if◌then◌else◌, not, All,
  arith, Bool-cases, inl, inr, ◌⊎◌, if-both, if-split,
}
use undelete.Telegram.Split.{Text}
use undelete.Telegram.Command.{Unicode, parse_command}
use undelete.Business.Cache.{Connection}
use undelete.App.Effects.{
  Message, Resolution, resolved, refused, unavailable, Effect, handled_connection, locked, unlocked,
  re_resolved, saved_message, saved_media, marked, sent, erasure_requested, erasure_confirmed,
  retention_read, retention_set, Config, World, Returned, value, failure, Handling,
}
use undelete.App.Commands.{
  is_text, command_delete_my_data, command_retention, message_text, is_from,
}
use undelete.App.Save.{is_blank, save_message}
use undelete.App.Control.{
  has_argument, is_command, is_confirmation, control_erasure, handle_control_command,
  drop_confirm_edit,
}
use undelete.App.Handler.{after_save, handle_message, handle_edited, handle_update}
use undelete.App.Answers.{Answers, handle_delete_my_data-All}

-- A call that stores nothing of the message.
abbrev pub stores : Effect → Bool
stores (saved_message owner r edited) = true
stores (saved_media key a) = true
stores handled_connection = false
stores (locked owner) = false
stores (unlocked owner) = false
stores (re_resolved id) = false
stores (marked owner telegram connection chat ids) = false
stores (sent to answer) = false
stores (erasure_requested owner telegram) = false
stores (erasure_confirmed owner telegram code) = false
stores (retention_read owner) = false
stores (retention_set owner n) = false

abbrev pub Unstored : List Effect → Type 0
Unstored effects = All (λ (e : Effect). stores e ≡ false) effects

is_text-same : (s t : Text) → is_text s t ≡ true → s ≡ t
is_text-same [] [] e = refl
is_text-same [] (b ∷ t) e = absurd cc
is_text-same (a ∷ s) [] e = absurd cc
is_text-same (a ∷ s) (b ∷ t) e =
    let first : a ≡ b = ground (arith, e) in
    let rest = is_text-same s t (ground (arith, e)) in rw (first, rest) refl

-- A text is one command.
one_command :
    (u : Unicode) (text : Text)
    → is_command u command_delete_my_data text ≡ true
    → is_command u command_retention text ≡ false
one_command u text = go (parse_command u text)
  where
    go :
        (parsed : Option Text)
        → (elim parsed [ none ↦ false | some command ↦ is_text command command_delete_my_data ])
          ≡ true
        → (elim parsed [ none ↦ false | some command ↦ is_text command command_retention ]) ≡ false
    go none e = refl
    go (some command) e = rw (is_text-same command command_delete_my_data e) refl

silent-Answers : (conn : Connection) → Answers (λ e. stores e ≡ false) conn
silent-Answers conn = record {
  sends = λ a. refl;
  requests = refl;
  confirms = λ code. refl;
  reads = refl;
  sets = λ n. refl;
}

module _ (u : Unicode) (c : Config) (w : World) (msg : Message)
    (secret : is_confirmation u (message_text msg) ≡ true) where
  -- The control path takes the message, unless it is blank or the resolution fails.
  abbrev Taken : Handling Bool → Type 0
  Taken (before, failure) = Unstored before
  Taken (before, value handled) = Unstored before × (handled ≡ true)

  control-Taken : is_blank msg ≡ false → Taken (handle_control_command u c w msg)
  unfolding handle_control_command
  control-Taken full = if-split Taken (is_blank msg) _ _ (λ e. absurd cc) (λ e. go w.control)
    where
      erases : is_command u command_delete_my_data (message_text msg) ≡ true
      erases = ground (arith, secret)

      coded : has_argument u (message_text msg) ≡ true
      coded = ground (arith, secret)

      go :
          (r : Resolution)
          → Taken (elim r [
            | refused ↦ ([], value true)
            | unavailable ↦ ([], failure)
            | resolved conn ↦
                if is_command u command_retention (message_text msg)
                then ([], value (not (is_from conn msg)))
                else if is_command u command_delete_my_data (message_text msg)
                then control_erasure u c w conn msg
                else ([], value false)
          ])
      go refused = (tt, refl)
      go unavailable = tt
      go (resolved conn) =
          if-split Taken (is_command u command_retention (message_text msg)) _ _
            (λ e. let other = one_command u (message_text msg) erases in absurd cc)
            (λ e.
              if-split Taken (is_command u command_delete_my_data (message_text msg)) _ _
                (λ f.
                  if-both Taken (not (is_from conn msg)) _ _ (tt, refl)
                    (if-split Taken (has_argument u (message_text msg)) _ _
                      (λ g. (
                        handle_delete_my_data-All (λ e. stores e ≡ false) u c w conn
                            (silent-Answers conn) (message_text msg),
                        refl,
                      ))
                      (λ g. absurd cc)))
                (λ f. absurd cc))

  message-Unstored :
      (r : Handling Bool)
      → Taken r
      → Unstored (
          (elim r.1 as (λ x. Handling Bool) [
            | failure ↦ (r.0, failure)
            | value handled ↦
                if handled
                then (r.0, value true)
                else (let saved = after_save u c w msg (save_message c w msg false) in
                    (r.0 ++ saved.0, saved.1))
          ]).0)
  message-Unstored (before, failure) h = h
  message-Unstored (before, value true) h = h.0
  message-Unstored (before, value false) h = absurd cc

  edit_dropped :
      is_blank msg ≡ false
      → (drop_confirm_edit u w msg ≡ value true) ⊎ (drop_confirm_edit u w msg ≡ failure)
  unfolding drop_confirm_edit
  edit_dropped full =
      if-split (λ (r : Returned Bool). (r ≡ value true) ⊎ (r ≡ failure)) (is_blank msg) _ _
        (λ e. absurd cc)
        (λ e.
          if-split (λ (r : Returned Bool). (r ≡ value true) ⊎ (r ≡ failure))
            (not (is_confirmation u (message_text msg))) _ _
            (λ f. absurd (ground (arith, f, secret))) (λ f. go w.control))
    where
      go :
          (r : Resolution)
          → ((elim r as (λ x. Returned Bool) [
            | refused ↦ value true
            | unavailable ↦ failure
            | resolved conn ↦ value true
          ])
              ≡ value true)
            ⊎ ((elim r as (λ x. Returned Bool) [
              | refused ↦ value true
              | unavailable ↦ failure
              | resolved conn ↦ value true
            ])
                ≡ failure)
      go refused = inl refl
      go unavailable = inr refl
      go (resolved conn) = inl refl

  edit-Unstored : is_blank msg ≡ false → Unstored (handle_edited u c w msg).0
  edit-Unstored full = elim (edit_dropped full) [
    | inl e ↦ rw (e, handle_edited) tt
    | inr e ↦ rw (e, handle_edited) tt
  ]

-- Of a message without a connection, a chat or an id, nothing is stored either.
blank-save :
    (c : Config) (w : World) (msg : Message) (edited : Bool)
    → is_blank msg ≡ true
    → save_message c w msg edited ≡ ([], value none)
unfolding save_message
blank-save c w msg edited e =
    if-split (λ (r : Handling (Option Connection)). r ≡ ([], value none)) (is_blank msg) _ _
      (λ f. refl) (λ f. absurd cc)

blank-control :
    (u : Unicode) (c : Config) (w : World) (msg : Message)
    → is_blank msg ≡ true
    → handle_control_command u c w msg ≡ ([], value false)
unfolding handle_control_command
blank-control u c w msg e =
    if-split (λ (r : Handling Bool). r ≡ ([], value false)) (is_blank msg) _ _ (λ f. refl)
      (λ f. absurd cc)

blank-edit :
    (u : Unicode) (w : World) (msg : Message)
    → is_blank msg ≡ true
    → drop_confirm_edit u w msg ≡ value false
unfolding drop_confirm_edit
blank-edit u w msg e =
    if-split (λ (r : Returned Bool). r ≡ value false) (is_blank msg) _ _ (λ f. refl)
      (λ f. absurd cc)

-- A message or an edit whose text is /delete_my_data with a code is never stored, whatever the
-- sender, the connection and the answers of the dependencies are: no message and no media row is
-- saved for it.
pub handle_update-secret :
    (u : Unicode) (c : Config) (w : World) (msg : Message)
    → is_confirmation u (message_text msg) ≡ true
    → Unstored
        (handle_update u c w
          (record { has_connection = false; message = some msg; edited = none; deleted = none })).0
      × Unstored
          (handle_update u c w (record {
            has_connection = false;
            message = none;
            edited = some msg;
            deleted = none;
          })).0
unfolding handle_update
handle_update-secret u c w msg secret = elim (Bool-cases (is_blank msg)) [
  | inl blank ↦
      let message : Unstored (handle_message u c w msg).0 =
        rw
          (
            blank-control u c w msg blank,
            handle_message,
            blank-control u c w msg blank,
            blank-save c w msg false blank,
          )
          tt in
      let edit : Unstored (handle_edited u c w msg).0 =
        rw (blank-edit u w msg blank, handle_edited, blank-save c w msg true blank) tt in
      (message, edit)
  | inr full ↦ (
    message-Unstored u c w msg secret (handle_control_command u c w msg)
        (control-Taken u c w msg secret full),
    edit-Unstored u c w msg secret full,
  )
]
