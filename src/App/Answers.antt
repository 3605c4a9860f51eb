-- ===== src/App/Answers.antt =====
-- The calls of app/handler.go that answer a command.
use undelete.Base.{
  ℕ, suc, ◌≡◌, Bool, true, Option, none, some, List, [], ◌∷◌, if◌then◌else◌, not, All, arith, ◌⊎◌,
  if-both, if-split,
}
use undelete.Base.Int.{ℤ, int_comparable}
use undelete.Telegram.Split.{Text}
use undelete.Telegram.Command.{Unicode, parse_command, command_argument}
use undelete.Business.Cache.{Connection}
use undelete.Users.Retention.{Parsed, days, refused, parse_retention_days}
use undelete.App.Effects.{
  Message, resolved, refused, Answer, Effect, handled_connection, locked, unlocked, re_resolved,
  saved_message, saved_media, marked, sent, erasure_requested, erasure_confirmed, retention_read,
  retention_set, Config, World, challenge, retention_status, retention_usage,
}
use undelete.App.Commands.{
  is_text, command_privacy, command_delete_my_data, command_retention, message_text, is_from,
  send_command_answer, send_privacy_policy, request_erasure, confirm_erasure, handle_delete_my_data,
  answer_retention, apply_retention, handle_retention, answer_command, serve_command,
}

abbrev pub IsResolved : World → Connection → Type 0
IsResolved w conn =
    (w.control ≡ resolved conn) ⊎ ((w.lookup ≡ resolved conn) ⊎ (w.relookup ≡ resolved conn))

-- The owner of a connection that was resolved, who sent the message.
abbrev pub IsOwner : World → Message → (Connection → Type 0) → Type 0
IsOwner w msg P = (conn : Connection) × IsResolved w conn × (is_from conn msg ≡ true) × P conn

-- The calls that a message may lead to.
abbrev pub Authorised : World → Message → Effect → Type 0
Authorised w msg (sent to answer) = IsOwner w msg (λ conn. to ≡ conn.owner_telegram)
Authorised w msg (erasure_requested owner telegram) = IsOwner w msg (λ conn. owner ≡ conn.owner)
Authorised w msg (erasure_confirmed owner telegram code) =
    IsOwner w msg (λ conn. owner ≡ conn.owner)
Authorised w msg (retention_read owner) = IsOwner w msg (λ conn. owner ≡ conn.owner)
Authorised w msg (retention_set owner n) = IsOwner w msg (λ conn. owner ≡ conn.owner)
Authorised w msg (saved_message owner r edited) =
    (conn : Connection) × IsResolved w conn × (conn.is_enabled ≡ true) × (owner ≡ conn.owner)
Authorised w msg (saved_media key a) =
    (conn : Connection) × IsResolved w conn × (conn.is_enabled ≡ true) × (key.owner ≡ conn.owner)
Authorised w msg handled_connection = Unit
Authorised w msg (locked owner) = Unit
Authorised w msg (unlocked owner) = Unit
Authorised w msg (re_resolved id) = Unit
Authorised w msg (marked owner telegram connection chat ids) = Unit

send_command_answer-All :
    (P : Effect → Type 0) (w : World) (to : ℤ) (index : ℕ) (answers : List Answer)
    → ((a : Answer) → P (sent to a))
    → All P (send_command_answer w to index answers).0
unfolding send_command_answer
send_command_answer-All P w to index [] h = tt
send_command_answer-All P w to index (a ∷ answers) h =
    if-both (λ (r : List Effect × Bool). All P r.0) (w.sends index) _ _
      (h a, send_command_answer-All P w to (suc index) answers h) (h a, tt)

-- What the answer to a command may be: a message to the owner, and a call for the tenant.
pub record Answers (P : Effect → Type 0) (conn : Connection) : Type 0 where
  pub sends : (a : Answer) → P (sent conn.owner_telegram a)
  pub requests : P (erasure_requested conn.owner conn.owner_telegram)
  pub confirms : (code : Text) → P (erasure_confirmed conn.owner conn.owner_telegram code)
  pub reads : P (retention_read conn.owner)
  pub sets : (n : ℕ) → P (retention_set conn.owner n)

module _ (P : Effect → Type 0) (u : Unicode) (c : Config) (w : World) (conn : Connection)
    (h : Answers P conn) where
  pub handle_delete_my_data-All : (text : Text) → All P (handle_delete_my_data u c w conn text)
  unfolding handle_delete_my_data request_erasure confirm_erasure
  handle_delete_my_data-All text =
      if-both (All P) (not c.has_eraser) _ _ tt (go (command_argument u text))
    where
      asked :
          (code : Option Text)
          → All P (elim code [
            | none ↦ erasure_requested conn.owner conn.owner_telegram ∷ []
            | some code ↦
                erasure_requested conn.owner conn.owner_telegram
                ∷ (send_command_answer w conn.owner_telegram 0 (challenge code ∷ [])).0
          ])
      asked none = (h.requests, tt)
      asked (some code) = (h.requests, send_command_answer-All P w conn.owner_telegram 0 _ h.sends)

      go :
          (argument : Text)
          → All P (elim argument [
            | [] ↦ request_erasure w conn
            | r ∷ code ↦ confirm_erasure c w conn (r ∷ code)
          ])
      go [] = asked w.requests
      go (r ∷ code) =
          (h.confirms (r ∷ code), send_command_answer-All P w conn.owner_telegram 0 _ h.sends)

  handle_retention-All : (text : Text) → All P (handle_retention u c w conn text)
  unfolding handle_retention answer_retention apply_retention
  handle_retention-All text =
      if-both (All P) (not c.has_retention) _ _ tt (go (command_argument u text))
    where
      read :
          (n : Option ℕ)
          → All P (elim n [
            | none ↦ retention_read conn.owner ∷ []
            | some n ↦
                retention_read conn.owner
                ∷ (send_command_answer w conn.owner_telegram 0
                    (retention_status n c.backup_days ∷ [])).0
          ])
      read none = (h.reads, tt)
      read (some n) = (h.reads, send_command_answer-All P w conn.owner_telegram 0 _ h.sends)

      set :
          (parsed : Parsed)
          → All P (elim parsed [
            | refused e ↦ (send_command_answer w conn.owner_telegram 0 (retention_usage ∷ [])).0
            | days n ↦ apply_retention c w conn n
          ])
      set (refused e) = send_command_answer-All P w conn.owner_telegram 0 _ h.sends
      set (days n) = (
        h.sets n,
        if-both (All P) w.sets_retention _ _
            (send_command_answer-All P w conn.owner_telegram 0 _ h.sends) tt,
      )

      go :
          (argument : Text)
          → All P (elim argument [
            | [] ↦ answer_retention c w conn
            | r ∷ argument ↦ elim (parse_retention_days u.is_space (r ∷ argument)) [
              | refused e ↦ (send_command_answer w conn.owner_telegram 0 (retention_usage ∷ [])).0
              | days n ↦ apply_retention c w conn n
            ]
          ])
      go [] = read w.reads_retention
      go (r ∷ argument) = set (parse_retention_days u.is_space (r ∷ argument))

-- A command is answered to the owner only.
pub answer_command-All :
    (P : Effect → Type 0) (u : Unicode) (c : Config) (w : World) (conn : Connection) (msg : Message)
    → (is_from conn msg ≡ true → Answers P conn)
    → All P (answer_command u c w conn msg)
unfolding answer_command send_privacy_policy
answer_command-All P u c w conn msg h =
    if-both (All P) (not c.has_sender) _ _ tt (go (parse_command u (message_text msg)))
  where
    served : Answers P conn → (command : Text) → All P (serve_command u c w conn msg command)
    served a command =
        if-both (All P) (is_text command command_privacy) _ _
          (send_command_answer-All P w conn.owner_telegram 0 _ a.sends)
          (if-both (All P) (is_text command command_delete_my_data) _ _
            (handle_delete_my_data-All P u c w conn a (message_text msg))
            (if-both (All P) (is_text command command_retention) _ _
              (handle_retention-All P u c w conn a (message_text msg)) tt))

    go :
        (command : Option Text)
        → All P (elim command [
          | none ↦ []
          | some command ↦
              if not (is_from conn msg) then [] else serve_command u c w conn msg command
        ])
    go none = tt
    go (some command) =
        if-split (All P) (not (is_from conn msg)) _ _ (λ e. tt)
          (λ e. served (h (ground (arith, e))) command)
