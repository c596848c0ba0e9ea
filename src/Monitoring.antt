-- ===== src/Monitoring.antt =====
-- Milestones and delays: src/milestones/service.py and src/production_monitoring/.
mod Milestones
mod Predict
mod Risk
mod Service
mod Keeps
mod Drafts
unfoldable pub use Milestones.{update_milestone, create_production_update, monitoring_view}
unfoldable pub use Predict.{predict_completion_date}
unfoldable pub use Service.{run_delay_prediction, send_expedite_alert, notify}
pub use Service.{notifying, sent_alert, drafted_alert, MonitoringIds}
pub use Milestones.{MilestoneChange}
pub use Risk.*
pub use Keeps.*
pub use Drafts.{predicted, run_delay_prediction_drafts}
