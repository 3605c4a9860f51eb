-- ===== src/Outbox/Delivery.antt =====
-- What a delivery sends, and to whom.
use undelete.Base.{
  ◌≡◌, ◌≢◌, refl, sym, ap, subst, true, false, Option, none, some, List, [], ◌∷◌, ◌++◌, arith, ◌⊎◌,
  inl, inr, Option-cases, All, map, if-both, ◌==◌,
}
use undelete.Base.Int.{ℤ, pos, int_comparable}
use undelete.Outbox.Row.{PayloadKind, text_kind, media_kind, MediaItem, MediaPayload, Job}
use undelete.Telegram.Note.{with_media_unavailable_note}
use undelete.Telegram.Upload.{
  SendError, no_media_delivery, media_unavailable, other, MediaAlertItem, Request, message, files,
  plan_media_batches, send_media_once,
}
use undelete.Telegram.Batches.{
  concat, IsBatch, plan_media_batches_lem, IsPartOf, Uploaded, send_batches-Uploaded,
}
use undelete.Outbox.Worker.{
  World, media_is_hopeless, alert_item, check_paths, send_media, send_text, after_media, deliver,
}

-- The batches are the files of a media job in their order, each at most one album. A job without
-- media has none.
abbrev pub IsMediaOf : World → Option MediaPayload → List (List MediaAlertItem) → Type 0
IsMediaOf w none batches = batches ≡ []
IsMediaOf w (some payload) batches =
    (concat batches ≡ map (alert_item w) payload.items) × All IsBatch batches

-- What the calls of a delivery come to. A text job is one message, or none when it fails. A media
-- job that fails has sent the first of its batches, or none; one that succeeds has sent them all, or
-- the first of them and then its text with the note.
abbrev pub Delivered : World → Job → PayloadKind → Option SendError × List Request → Type 0
Delivered w job text_kind (none, sent) = sent ≡ message job.owner_telegram_user job.text ∷ []
Delivered w job text_kind (some e, sent) = sent ≡ []
Delivered w job media_kind (some e, sent) =
    (batches : List (List MediaAlertItem)) × IsMediaOf w job.media batches
    × IsPartOf job.owner_telegram_user sent batches
Delivered w job media_kind (none, sent) =
    (batches : List (List MediaAlertItem)) × IsMediaOf w job.media batches
    × (((sent ≢ []) × (sent ≡ map (files job.owner_telegram_user) batches))
        ⊎ ((before : List Request) × IsPartOf job.owner_telegram_user before batches
            × (sent
                ≡ before
                  ++ message job.owner_telegram_user (with_media_unavailable_note job.text) ∷ [])))

-- What an upload comes to, before the fallback.
abbrev IsUpload : Job → List (List MediaAlertItem) → Option SendError × List Request → Type 0
IsUpload job batches (none, sent) =
    (sent ≢ []) × (sent ≡ map (files job.owner_telegram_user) batches)
IsUpload job batches (some e, sent) = IsPartOf job.owner_telegram_user sent batches

-- The batches of a payload.
abbrev batches_of : World → Option MediaPayload → List (List MediaAlertItem)
batches_of w none = []
batches_of w (some payload) = plan_media_batches (map (alert_item w) payload.items)

batches_of-IsMediaOf :
    (w : World) (media : Option MediaPayload) → IsMediaOf w media (batches_of w media)
batches_of-IsMediaOf w none = refl
batches_of-IsMediaOf w (some payload) = plan_media_batches_lem (map (alert_item w) payload.items)

requests_exist :
    (chat : ℤ) (batches : List (List MediaAlertItem)) (i : MediaAlertItem)
    (items : List MediaAlertItem)
    → concat batches ≡ i ∷ items
    → map (files chat) batches ≢ []
requests_exist chat [] i items e = absurd cc
requests_exist chat (b ∷ bs) i items e = cc

Uploaded-IsUpload :
    (job : Job) (batches : List (List MediaAlertItem)) (r : Option SendError × List Request)
    → map (files job.owner_telegram_user) batches ≢ []
    → Uploaded job.owner_telegram_user batches r
    → IsUpload job batches r
Uploaded-IsUpload job batches (none, sent) n h = (subst (λ (l : List Request). l ≢ []) (sym h) n, h)
Uploaded-IsUpload job batches (some e, sent) n h = h

nothing-IsUpload :
    (job : Job) (batches : List (List MediaAlertItem)) (e : SendError)
    → IsUpload job batches (some e, [])
nothing-IsUpload job batches e = (map (files job.owner_telegram_user) batches, refl)

send_media_once-IsUpload :
    (w : World) (job : Job) (items : List MediaAlertItem)
    → IsUpload job
        (plan_media_batches items)
        (send_media_once w.lstat w.send_batch job.owner_telegram_user items)
unfolding send_media_once
send_media_once-IsUpload w job [] =
    if-both (IsUpload job (plan_media_batches [])) (job.owner_telegram_user == pos 0) _ _
      (nothing-IsUpload job (plan_media_batches []) other)
      (nothing-IsUpload job (plan_media_batches []) media_unavailable)
send_media_once-IsUpload w job (i ∷ items) =
    let bs = plan_media_batches (i ∷ items) in
    if-both (IsUpload job bs) (job.owner_telegram_user == pos 0) _ _ (nothing-IsUpload job bs other)
      (Uploaded-IsUpload job bs _
        (requests_exist job.owner_telegram_user bs i items (plan_media_batches_lem (i ∷ items)).0)
        (send_batches-Uploaded w.lstat w.send_batch job.owner_telegram_user 0 bs))

send_media-IsUpload :
    (w : World) (job : Job) → IsUpload job (batches_of w job.media) (send_media w job)
unfolding send_media
send_media-IsUpload w job =
    if-both (IsUpload job (batches_of w job.media)) w.uploads _ _ (go job.media)
      (nothing-IsUpload job (batches_of w job.media) no_media_delivery)
  where
    checked :
        (items : List MediaItem) (unsafe : Option SendError)
        → let sends = map (alert_item w) items in
          IsUpload job (plan_media_batches sends) (elim unsafe [
            | some e ↦ (some e, [])
            | none ↦ send_media_once w.lstat w.send_batch job.owner_telegram_user sends
          ])
    checked items none = send_media_once-IsUpload w job (map (alert_item w) items)
    checked items (some e) = nothing-IsUpload job (plan_media_batches (map (alert_item w) items)) e

    go :
        (media : Option MediaPayload)
        → IsUpload job (batches_of w media) (elim media [
          | none ↦ (some no_media_delivery, [])
          | some payload ↦ elim (check_paths payload.items) [
            | some e ↦ (some e, [])
            | none ↦
                send_media_once w.lstat w.send_batch job.owner_telegram_user
                  (map (alert_item w) payload.items)
          ]
        ])
    go none = nothing-IsUpload job [] no_media_delivery
    go (some payload) = checked payload.items (check_paths payload.items)

append_nil : (l : List Request) → l ++ [] ≡ l
append_nil [] = refl
append_nil (r ∷ l) = ap (λ t. r ∷ t) (append_nil l)

after_media-Delivered :
    (w : World) (job : Job) (batches : List (List MediaAlertItem))
    (r : Option SendError × List Request)
    → IsMediaOf w job.media batches
    → IsUpload job batches r
    → Delivered w job media_kind (after_media w job r)
unfolding after_media send_text
after_media-Delivered w job batches (none, sent) m h = (batches, m, inl h)
after_media-Delivered w job batches (some e, sent) m h =
    if-both (Delivered w job media_kind) (media_is_hopeless w.dead_at_media e) _ _
      (elim (Option-cases w.send_message) [
        | inl f ↦ rw f (batches, m, inr (sent, h, refl))
        | inr (x, f) ↦ rw f (
          batches,
          m,
          subst (λ l. IsPartOf job.owner_telegram_user l batches) (sym (append_nil sent)) h,
        )
      ])
      (batches, m, h)

-- The requests that one delivery makes with success. A text job that succeeds has sent its text to
-- the owner's own chat with the bot, and nothing else; one that fails has sent nothing. A media job
-- that succeeds has sent that chat the payload's files in their order, in calls of one file or of up
-- to ten of one class; or the first of these calls, if any, and then the text with the note that
-- media is missing. One that fails has sent the first of these calls, or none.
pub deliver-Delivered : (w : World) (job : Job) → Delivered w job job.payload_kind (deliver w job)
unfolding deliver send_text
deliver-Delivered w job = by_kind job.payload_kind
  where
    by_kind :
        (kind : PayloadKind)
        → Delivered w job kind (elim kind [
          | text_kind ↦ send_text w job false
          | media_kind ↦ after_media w job (send_media w job)
        ])
    by_kind text_kind = elim (Option-cases w.send_message) [
      | inl e ↦ rw e refl
      | inr (x, e) ↦ rw e refl
    ]
    by_kind media_kind =
        after_media-Delivered w job (batches_of w job.media) (send_media w job)
          (batches_of-IsMediaOf w job.media) (send_media-IsUpload w job)

-- A delivery that succeeds has sent something.
pub Delivered-some :
    (w : World) (job : Job) (kind : PayloadKind) → Delivered w job kind (none, []) → ⊥
Delivered-some w job text_kind h = cc
Delivered-some w job media_kind (bs, m, inl (n, e)) = n refl
Delivered-some w job media_kind (bs, m, inr ([], part, e)) = cc
Delivered-some w job media_kind (bs, m, inr (r ∷ before, part, e)) = cc

-- A failed delivery of a media job is never one that falls back to text: if the upload failed
-- for a reason that no retry clears, outside a shutdown, the failure is that of the text itself.
pub deliver-fallback :
    (w : World) (job : Job) (e : SendError)
    → job.payload_kind ≡ media_kind
    → (send_media w job).0 ≡ some e
    → media_is_hopeless w.dead_at_media e ≡ true
    → (deliver w job).0 ≡ w.send_message
unfolding deliver after_media send_text
deliver-fallback w job e k f h = ground arith
