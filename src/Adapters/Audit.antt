-- ===== src/Adapters/Audit.antt =====
-- infrastructure/persistence/sql_audit_log.py: the row of an audit record. `insert` is the session's
-- `add` and `commit`, the only statement that the class makes on the table.
use bank_rag_bot.Prelude.{ℕ, String, Bool, Option, List, [], ◌∷◌}
use bank_rag_bot.Prelude.Exec.{Exec}
use bank_rag_bot.Domain.{arr, str, Items, nil, cons, AuditEntry}
use bank_rag_bot.Python.{Python}
use bank_rag_bot.AnswerQuestion.Cached.{intent_value}

pub record AuditLogRow : Type 0 where
  pub id : String
  pub conversation_id : String
  pub customer_id : Option String
  pub question : String
  pub resolved_question : String
  pub retrieved_document_ids : String
  pub answer_text : String
  pub intent : String
  pub grounded : Bool
  pub created_at : ℕ

unfoldable pub text_items : List String → Items
text_items [] = nil
text_items (s ∷ rest) = cons (str s) (text_items rest)

unfoldable pub audit_row : Python → AuditEntry → AuditLogRow
unfolding text_items
audit_row py entry = record {
  id = entry.id;
  conversation_id = entry.conversation_id;
  customer_id = entry.customer_id;
  question = entry.question;
  resolved_question = entry.resolved_question;
  retrieved_document_ids = py.dumps (arr (text_items entry.retrieved_document_ids));
  answer_text = entry.answer_text;
  intent = intent_value entry.intent;
  grounded = entry.grounded;
  created_at = entry.created_at;
}

unfoldable pub record_entry :
    {W : Type 0} → Python → (AuditLogRow → Exec W Unit) → AuditEntry → Exec W Unit
unfolding audit_row
record_entry py insert entry = insert (audit_row py entry)
