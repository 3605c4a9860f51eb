-- ===== src/Erasure/Confirm.antt =====
-- bot/internal/erasure/erasure.go: Request, Confirm and erase. The tenant's data beside the requests
-- is of any type: the four deletions of other packages are the fields of `Steps`.
use undelete.Base.{ℕ, ◌+◌, Bool, Option, none, some, List, [], ◌∷◌, if◌then◌else◌, String}
use undelete.Base.Int.{ℤ}
use undelete.Erasure.Requests.{
  Request, ClaimState, unknown, expired, granted, resumable, finished, issue, claim, complete,
  delete_others, challenge_ttl,
}
use undelete.Erasure.Code.{normalise_code, hash_code, new_code}

pub data Outcome : Type 0 where
  erased already_erased was_expired was_unknown : Outcome

pub data Failure : Type 0 where
  exclusion claiming connections alerts attachments messages requests completion : Failure
  generation issuing : Failure

-- `DisableOwner`, `DeleteTenant` of the outbox, `EraseTenant` and `DeleteTenant` of the messages, each
-- with whether it failed, as one run of `erase` finds them.
pub record Steps {ℓ} (S : Type ℓ) : Type ℓ where
  pub disable_owner : ℤ → S → S × Bool
  pub delete_alerts : ℤ → S → S × Bool
  pub erase_media : ℤ → S → S × Bool
  pub delete_messages : ℤ → S → S × Bool

-- What the calls of one request meet.
pub record World {ℓ} (S : Type ℓ) : Type ℓ where
  pub now : ℕ
  pub steps : Steps S
  pub guard_fails : Bool
  pub claim_fails : Bool
  pub requests_fail : Bool
  pub complete_fails : Bool

pub record Store {ℓ} (S : Type ℓ) : Type ℓ where
  pub requests : List Request
  pub data_of : S

pub record Tenant : Type 0 where
  pub owner : ℤ
  pub telegram_user : ℤ
  pub connection : String

-- The answer of `Confirm`: its outcome with its error.
pub record Answer : Type 0 where
  pub outcome : Outcome
  pub error : Option Failure

abbrev pub answer : Outcome → Answer
answer o = record { outcome = o; error = none }

abbrev pub fails : Outcome → Failure → Answer
fails o e = record { outcome = o; error = some e }

module _ {ℓ} {S : Type ℓ} where
  -- The deletions outside the table of requests, up to the first failure.
  unfoldable pub run_steps : Steps S → ℤ → S → S × Option Failure
  run_steps st owner s =
      let (a, failed_a) = st.disable_owner owner s in
      let (b, failed_b) = st.delete_alerts owner a in
      let (c, failed_c) = st.erase_media owner b in
      let (d, failed_d) = st.delete_messages owner c in
      if failed_a
      then (a, some connections)
      else (if failed_b
          then (b, some alerts)
          else (if failed_c
              then (c, some attachments)
              else (if failed_d then (d, some messages) else (d, none))))

  -- The end of `erase`: the other requests of the tenant.
  abbrev pub erase_requests :
      World S → ℤ → String → List Request → S × Option Failure → Store S × Option Failure
  erase_requests w owner hash rs (s, some e) = (record { requests = rs; data_of = s }, some e)
  erase_requests w owner hash rs (s, none) =
      if w.requests_fail
      then (record { requests = rs; data_of = s }, some requests)
      else (record { requests = (delete_others owner hash rs).0; data_of = s }, none)

  unfoldable pub erase : World S → ℤ → String → Store S → Store S × Option Failure
  erase w owner hash t = erase_requests w owner hash t.requests (run_steps w.steps owner t.data_of)

  -- `Confirm` after `erase`.
  abbrev pub finish : World S → ℤ → String → Store S × Option Failure → Store S × Answer
  finish w owner hash (t, some e) = (t, fails erased e)
  finish w owner hash (t, none) =
      if w.complete_fails
      then (t, fails erased completion)
      else (record t { requests = complete owner hash t.requests }, answer erased)

  -- The `switch` on the state of the claim.
  unfoldable pub decide : World S → ℤ → String → S → List Request × ClaimState → Store S × Answer
  decide w owner hash s (rs, unknown) = (record { requests = rs; data_of = s }, answer was_unknown)
  decide w owner hash s (rs, expired) = (record { requests = rs; data_of = s }, answer was_expired)
  decide w owner hash s (rs, finished) =
      (record { requests = rs; data_of = s }, answer already_erased)
  decide w owner hash s (rs, resumable) =
      finish w owner hash (erase w owner hash (record { requests = rs; data_of = s }))
  decide w owner hash s (rs, granted) =
      finish w owner hash (erase w owner hash (record { requests = rs; data_of = s }))

  -- `Confirm` past the normalisation of the code.
  unfoldable pub confirm_hash : World S → ℤ → String → Store S → Store S × Answer
  confirm_hash w owner hash t =
      if w.guard_fails
      then (t, fails was_unknown exclusion)
      else (if w.claim_fails
          then (t, fails was_unknown claiming)
          else decide w owner hash t.data_of (claim owner hash w.now t.requests))

  module _ (to_upper : ℕ → ℕ) (is_space : ℕ → Bool) (sha256_hex : List ℕ → String) where
    unfoldable pub confirm : World S → Tenant → List ℕ → Store S → Store S × Answer
    confirm w tenant code t =
        let normalised = normalise_code to_upper is_space code in
        elim normalised [
          | [] ↦ (t, answer was_unknown)
          | r ∷ rs ↦ confirm_hash w tenant.owner (hash_code to_upper is_space sha256_hex (r ∷ rs)) t
        ]

    -- `Request`: the code of the random bytes, if the exclusion is had and the row is written.
    unfoldable pub request :
        World S → Tenant → Option (List ℕ) → Bool → Store S → Store S × Option (List ℕ × ℕ)
    request w tenant none issue_fails t = (t, none)
    request w tenant (some raw) issue_fails t =
        let code = new_code raw in
        if w.guard_fails
        then (t, none)
        else (if issue_fails then (t, none) else (
          record t {
            requests =
                issue tenant.owner tenant.telegram_user tenant.connection
                  (hash_code to_upper is_space sha256_hex code) w.now challenge_ttl t.requests;
          },
          some (code, w.now + challenge_ttl),
        ))
