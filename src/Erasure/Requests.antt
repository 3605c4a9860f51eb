-- ===== src/Erasure/Requests.antt =====
-- bot/internal/erasure/repository.go: the table data_erasure_requests and its statements. The
-- timestamps that nothing reads are left out; `now` is the clock of the database.
use undelete.Base.{
  ℕ, ◌+◌, ◌*◌, ◌^◌, Bool, true, false, ◌&&◌, not, Option, none, some, List, [], ◌∷◌, if◌then◌else◌,
  ltb, String, ◌==◌, string_comparable, length, keep,
}
use undelete.Base.Int.{ℤ, int_comparable}

pub data Status : Type 0 where
  pending consumed completed : Status

pub record Request : Type 0 where
  pub owner : ℤ
  pub telegram_user : Option ℤ
  pub connection : Option String
  pub hash : String
  pub status : Status
  pub expires_at : ℕ

pub data ClaimState : Type 0 where
  unknown expired granted resumable finished : ClaimState

-- `ChallengeTTL`, in nanoseconds.
abbrev pub challenge_ttl : ℕ
challenge_ttl = 600 * 10 ^ 9

-- `UPDATE … SET f WHERE p`, and `DELETE … WHERE p`.
abbrev pub map_where : (Request → Bool) → (Request → Request) → List Request → List Request
map_where p f [] = []
map_where p f (r ∷ rs) = (if p r then f r else r) ∷ map_where p f rs

abbrev pub drop_where : (Request → Bool) → List Request → List Request
drop_where p rs = keep (λ r. not (p r)) rs

abbrev pub is_pending : Status → Bool
is_pending pending = true
is_pending consumed = false
is_pending completed = false

abbrev pub is_consumed : Status → Bool
is_consumed pending = false
is_consumed consumed = true
is_consumed completed = false

-- The conflict target of migration 0008.
abbrev pub is_pending_of : ℤ → Request → Bool
is_pending_of owner r = r.owner == owner && is_pending r.status

unfoldable pub issue : ℤ → ℤ → String → String → ℕ → ℕ → List Request → List Request
issue owner telegram connection hash now ttl rs =
    let fresh : Request = record {
      owner = owner;
      telegram_user = some telegram;
      connection = some connection;
      hash = hash;
      status = pending;
      expires_at = now + ttl;
    } in
    elim (keep (is_pending_of owner) rs) [
      | [] ↦ fresh ∷ rs
      | _ ∷ _ ↦ map_where (is_pending_of owner) (λ r. fresh) rs
    ]

-- The rows of one tenant's code.
abbrev pub is_code : ℤ → String → Request → Bool
is_code owner hash r = r.owner == owner && r.hash == hash

abbrev pub is_spendable : ℤ → String → ℕ → Request → Bool
is_spendable owner hash now r =
    is_code owner hash r && (is_pending r.status && ltb now r.expires_at)

abbrev pub spent : Request → Request
spent r = record r { status = consumed }

abbrev pub classify : Status → ClaimState
classify pending = expired
classify consumed = resumable
classify completed = finished

-- The second statement of `Claim`: the first row, if there is one.
abbrev pub classify_rows : List Request → ClaimState
classify_rows [] = unknown
classify_rows (r ∷ rs) = classify r.status

unfoldable pub claim : ℤ → String → ℕ → List Request → List Request × ClaimState
claim owner hash now rs = elim (keep (is_spendable owner hash now) rs) [
  | [] ↦ (rs, classify_rows (keep (is_code owner hash) rs))
  | _ ∷ _ ↦ (map_where (is_spendable owner hash now) spent rs, granted)
]

abbrev pub scrubbed : Request → Request
scrubbed r = record r { status = completed; telegram_user = none; connection = none }

unfoldable pub complete : ℤ → String → List Request → List Request
complete owner hash rs = map_where (λ r. is_code owner hash r && is_consumed r.status) scrubbed rs

unfoldable pub delete_others : ℤ → String → List Request → List Request × ℕ
delete_others owner hash rs =
    let gone = λ (r : Request). r.owner == owner && not (r.hash == hash) in
    (drop_where gone rs, length (keep gone rs))
