-- ===== src/Storage/Previews/Deleting.antt =====
-- internal/storage/session_preview.go: `DeleteExpiredSessionStartPreviews`.
use multi_agent_desk.Prelude.{
  ℕ, ◌-◌, Bool, true, not, ◌&&◌, Option, none, some, ◌==◌, if◌then◌else◌, Text,
}
use multi_agent_desk.Domain.Errors.{Code, Result, ok, err, ◌>>◌, refuse_if}
use multi_agent_desk.Domain.Capability.{text_lt}
use multi_agent_desk.Storage.Previews.{Consumed, Preview, PreviewRows}

abbrev pub retention : ℕ
retention = 86400000000000

abbrev pub consumed_before : (ℕ → Text) → ℕ → Option Consumed → Bool
consumed_before format_time cutoff none = true
consumed_before format_time cutoff (some done) = text_lt (format_time done.at) (format_time cutoff)

-- Times are compared as they are stored, as texts. A cutoff before the zero time stands at it.
unfoldable pub is_outdated : (ℕ → Text) → ℕ → Preview → Bool
is_outdated format_time cutoff p =
    text_lt (format_time p.expires_at) (format_time cutoff)
    && consumed_before format_time cutoff p.consumed

unfoldable pub kept : (ℕ → Text) → ℕ → Option Preview → Option Preview
kept format_time cutoff none = none
kept format_time cutoff (some p) = if is_outdated format_time cutoff p then none else some p

unfoldable pub delete_expired_previews :
    Bool → (ℕ → Text) → ℕ → PreviewRows → Result (Unit {0}) × PreviewRows
delete_expired_previews runs format_time before r =
    elim (refuse_if (before == 0) Code.invalid_argument >> refuse_if (not runs) Code.conflict) [
      | err e ↦ (err e, r)
      | ok _ ↦ (
        ok tt,
        record r { previews = λ id. kept format_time (before - retention) (r.previews id) },
      )
    ]
