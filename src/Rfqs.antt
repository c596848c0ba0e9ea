-- ===== src/Rfqs.antt =====
-- Requests for quotation: src/rfq/service.py and src/supplier_responses/service.py, on the machine
-- of src/rfq/state_machine.py.
mod Service
mod Sending
mod Asking
mod Responses
mod Answered
mod Answering
unfoldable pub use Service.{create_rfq, send_rfq, send_approved, move_to_sent, add_recipients}
pub use Service.{sending_of}
pub use Sending.*
pub use Asking.*
unfoldable pub use Responses.{status_from_responses, record_supplier_response}
pub use Responses.{
  SupplierResponse, Normalized, SupplierResponsePacket, ResponseStore, recipients_of, responses_of,
}
pub use Answered.{IsAnswered, HasOneRow, Refused, response, packet, record_supplier_response_cases}
pub use Answering.*
