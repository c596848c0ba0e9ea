-- ===== src/Quality.antt =====
-- Quality incidents of participants, and the alerts that they raise: src/quality_ledger/service.py
-- and src/replacement_alerts/service.py.
mod Service
mod Alerts
pub use Service.{replacement_threshold, is_active}
unfoldable pub use Service.{count_incidents, active_alerts}
unfoldable pub use Service.{
  check_and_trigger_replacement_alert, review_replacement_alert, create_quality_incident,
}
pub use Alerts.*
