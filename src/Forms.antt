-- ===== src/Forms.antt =====
-- Order forms and their versions: src/dynamic_forms/service.py.
mod Rows
mod Extraction
mod Service
mod History
mod Calls
mod Kept
mod Current
unfoldable pub use Rows.{lookup, assign, merge}
pub use Rows.{
  Value, null, flag, number, text, texts, counts, Fields, Form, Version, ClarificationQuestion,
  BuyerInquiry, FormStore,
}
unfoldable pub use Service.{
  create_dynamic_form_from_inquiry, create_form, update_form_fields, update_unlocked, lock_form,
  add_clarification_question, get_current_form, create_version_snapshot, latest, once,
}
unfoldable pub use Extraction.{
  read_extraction, detect_missing_fields, generate_clarification_questions,
}
pub use Service.{current_of}
pub use History.{IsVersioned}
pub use Kept.*
pub use Current.*
