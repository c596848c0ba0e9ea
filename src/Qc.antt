-- ===== src/Qc.antt =====
-- Inspection of finished orders: src/apparel_inspection/service.py and src/qc/service.py.
mod Evaluate
mod Criteria
mod Service
mod Track
pub use Evaluate.{Reading, Inspection, Standard, Verdict, Check}
pub use Service.{NewIds, std_dict}
unfoldable pub use Evaluate.{
  evaluate_qc_record, run_checks, check_defects, check_flag, check_sizes, check_colors, get,
}
unfoldable pub use Service.{record_qc_result, mark_qc_pass, mark_qc_fail}
pub use Criteria.*
pub use Track.*
