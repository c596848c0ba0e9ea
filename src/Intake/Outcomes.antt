-- ===== src/Intake/Outcomes.antt =====
-- Each result that asks for the approval of inquiries is justified:
-- src/aivan/execution/rfq_execution.py.
use abcd_yi.Prelude.Gives.{Gives}
