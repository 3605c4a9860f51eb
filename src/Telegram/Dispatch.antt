-- ===== src/Telegram/Dispatch.antt =====
-- bot/internal/telegram/shard.go: the two passes of Dispatch. An update is its position in the batch
-- and `shard` the worker of a position. What each `select` finds is an `Attempt`: room in the queue, a
-- full queue, or a context that is cancelled. The waiting of `collect` is left out.
use undelete.Base.{ℕ, Bool, true, false, ◌||◌, List, [], ◌∷◌, ◌++◌, if◌then◌else◌, nat_beq}

pub data Attempt : Type 0 where
  accepted full cancelled : Attempt

-- What the passes leave: the sends in their order, the updates deferred, those that report
-- ErrUpdateNotSubmitted, and whether the context was found cancelled.
pub record Pass : Type 0 where
  pub sent : List ℕ
  pub deferred : List ℕ
  pub refused : List ℕ
  pub aborted : Bool

abbrev pub send : ℕ → Pass → Pass
send i p = record p { sent = i ∷ p.sent }

abbrev pub defer : ℕ → Pass → Pass
defer i p = record p { deferred = i ∷ p.deferred }

abbrev pub finished : Pass
finished = record { sent = []; deferred = []; refused = []; aborted = false }

-- The return of an aborted pass: the update at hand and the rest of the list.
abbrev pub abort : List ℕ → Pass
abort is = record { sent = []; deferred = []; refused = is; aborted = true }

-- `deferredShard[idx]`.
abbrev pub is_marked : ℕ → List ℕ → Bool
is_marked s [] = false
is_marked s (x ∷ xs) = nat_beq x s || is_marked s xs

module _ (shard : ℕ → ℕ) (first : ℕ → Attempt) where
  -- The loop that does not block.
  unfoldable pub first_pass : List ℕ → List ℕ → Pass
  first_pass marked [] = finished
  first_pass marked (i ∷ is) =
      let skipped = first_pass marked is in
      let parked = first_pass (shard i ∷ marked) is in
      if is_marked (shard i) marked then defer i skipped else elim (first i) [
        | accepted ↦ send i skipped
        | cancelled ↦ abort (i ∷ is)
        | full ↦ defer i parked
      ]

-- The loop over the deferred updates: it blocks until there is room.
unfoldable pub second_pass : (ℕ → Attempt) → List ℕ → Pass
second_pass second [] = finished
second_pass second (i ∷ is) =
    let rest = second_pass second is in
    elim (second i) [ cancelled ↦ abort (i ∷ is) | accepted ↦ send i rest | full ↦ send i rest ]

abbrev pub join_passes : Pass → Pass → Pass
join_passes p q = record {
  sent = p.sent ++ q.sent;
  deferred = [];
  refused = q.refused;
  aborted = q.aborted;
}

unfoldable pub dispatch : (ℕ → ℕ) → (ℕ → Attempt) → (ℕ → Attempt) → List ℕ → Pass
dispatch shard first second is =
    let p = first_pass shard first [] is in
    if p.aborted then p else join_passes p (second_pass second p.deferred)
