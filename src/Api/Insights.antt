-- ===== src/Api/Insights.antt =====
-- ripcord/api/insights.py: `get_audit` and `get_stats`, behind their guard.
use ripcord.Prelude.{ℕ, String, ◌&&◌, Option, List, leb, sum_of, if◌then◌else◌}
use ripcord.Prelude.Dict.{Dict}
use ripcord.Models.{AuditLog}
use ripcord.Auth.Verify.{Reply, ok, error}
use ripcord.Services.Store.{FlagStore}
use ripcord.Services.Operations.{list_audit, compute_stats}
use ripcord.Schemas.Evaluate.{Stats}

module _ (db : FlagStore) where
  -- `ge=1, le=1000`; a negative limit is none of these numbers, and fails the check as 0 does.
  unfoldable pub get_audit : db.State → Option String → ℕ → Reply (List AuditLog)
  get_audit s flag_key limit =
      if leb 1 limit && leb limit 1000 then ok (list_audit db s flag_key limit) else error 422

  unfoldable pub get_stats : db.State → Dict ℕ → Stats
  get_stats s counts =
      let (total, enabled, disabled) = compute_stats db s in
      record {
        flags_total = total;
        flags_enabled = enabled;
        flags_disabled = disabled;
        evaluations_total = sum_of (λ e. e.1) counts;
        evaluations_by_result = counts;
      }
