-- ===== src/Quotas/Ledger.antt =====
-- bot/internal/quotas/quotas.go: one tenant's ledger and the answer to an admission. A Go map from
-- quota kinds is a function; an instant is a number of nanoseconds.
use undelete.Base.{ℕ, Bool, true, false, ◌&&◌, not, Option, none, List, [], if◌then◌else◌}
use undelete.Base.Int.{ℤ, pos, leb_ℤ, add64}
use undelete.Quotas.Limits.{QuotaKind, messages, media_files, media_bytes, capture_rate}

pub record Admission : Type 0 where
  pub allowed : Bool
  pub warn : Bool
  pub quota : QuotaKind
  pub usage : ℤ
  pub limit : ℤ

pub record Tenant : Type 0 where
  pub message_count : ℤ
  pub media_file_count : ℤ
  pub media_byte_count : ℤ
  pub seeded : Bool
  pub rate : List ℕ
  pub warned : QuotaKind → Bool
  pub blocked : QuotaKind → Option ℕ
  pub last_seen : ℕ

abbrev pub kind_beq : QuotaKind → QuotaKind → Bool
kind_beq messages messages = true
kind_beq media_files media_files = true
kind_beq media_bytes media_bytes = true
kind_beq capture_rate capture_rate = true
kind_beq _ _ = false

-- `m[kind] = v` on a map keyed by quota kinds.
abbrev pub set_kind {ℓ} : {A : Type ℓ} → (QuotaKind → A) → QuotaKind → A → QuotaKind → A
set_kind m k v j = if kind_beq k j then v else m j

-- The literal of `tenantLocked`: a fresh ledger.
unfoldable pub new_tenant : ℕ → Tenant
new_tenant now = record {
  message_count = pos 0;
  media_file_count = pos 0;
  media_byte_count = pos 0;
  seeded = false;
  rate = [];
  warned = λ _. false;
  blocked = λ _. none;
  last_seen = now;
}

unfoldable pub current_of : Tenant → QuotaKind → ℤ
current_of te media_files = te.media_file_count
current_of te media_bytes = te.media_byte_count
current_of te messages = te.message_count
current_of te capture_rate = te.message_count

-- The `switch` under `if inc`.
unfoldable pub count_unit : Tenant → QuotaKind → Tenant
count_unit te media_files = record te { media_file_count = add64 te.media_file_count (pos 1) }
count_unit te media_bytes = record te { message_count = add64 te.message_count (pos 1) }
count_unit te messages = record te { message_count = add64 te.message_count (pos 1) }
count_unit te capture_rate = record te { message_count = add64 te.message_count (pos 1) }

-- The alert of a ledger at or above its threshold: fired once, until `warned` is cleared.
unfoldable pub answer_allowed : Tenant → QuotaKind → ℤ → ℤ → Tenant × Admission
unfolding current_of
answer_allowed te kind limit threshold =
    let usage = current_of te kind in
    let warn = leb_ℤ threshold usage && not (te.warned kind) in
    (
      if warn then record te { warned = set_kind te.warned kind true } else te,
      record { allowed = true; warn = warn; quota = kind; usage = usage; limit = limit },
    )

unfoldable pub allow_locked : Tenant → QuotaKind → ℤ → ℤ → Bool → Tenant × Admission
unfolding count_unit answer_allowed
allow_locked te kind limit threshold inc =
    answer_allowed (if inc then count_unit te kind else te) kind limit threshold
