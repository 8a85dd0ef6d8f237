-- ===== src/Domain.antt =====
-- domain/entities.py. A `datetime` is a count of microseconds, a `date` a count of days, both
-- since 0001-01-01 UTC, the first that Python has; a UUID is its text. An answer's citations
-- are `Citation` objects, or plain JSON values once the answer has been through the cache.
use bank_rag_bot.Prelude.{ℕ, String, Bool, Option, List, [], ◌∷◌, ◌++◌, map, take_last}

-- JSON, as `json.loads` gives it: a number is kept as its literal.
mutual
  pub data Json : Type 0 where
    null : Json
    bool : Bool → Json
    number : String → Json
    str : String → Json
    arr : Items → Json
    obj : Fields → Json

  pub data Items : Type 0 where
    nil : Items
    cons : Json → Items → Items

  pub data Fields : Type 0 where
    end : Fields
    field : String → Json → Fields → Fields

pub data Audience : Type 0 where
  public internal : Audience

pub data Intent : Type 0 where
  account_balance product_info product_comparison smalltalk human_handoff unknown : Intent

pub record DocumentMetadata : Type 0 where
  pub source_id : String
  pub title : String
  pub audience : Audience
  pub uploaded_by : Option String
  pub version : ℕ
  pub updated_at : ℕ
  pub valid_until : Option ℕ

pub record ChunkLocator : Type 0 where
  pub kind : String
  pub value : String

abbrev pub whole_document_locator : ChunkLocator
whole_document_locator = record { kind = "whole"; value = "document" }

pub record DocumentSegment : Type 0 where
  pub text : String
  pub locator : ChunkLocator

-- `Vector` stands for `list[float]`.
pub record Chunk (Vector : Type 0) : Type 0 where
  pub id : String
  pub document_id : String
  pub text : String
  pub metadata : DocumentMetadata
  pub locator : ChunkLocator
  pub embedding : Option Vector

pub record Citation : Type 0 where
  pub document_id : String
  pub title : String
  pub snippet : String
  pub score : String

pub data Cited : Type 0 where
  citation : Citation → Cited
  plain : Json → Cited

pub record ConversationTurn : Type 0 where
  pub role : String
  pub content : String
  pub timestamp : ℕ

abbrev pub Arguments : Type 0
Arguments = List (String × Json)

pub record PendingAction : Type 0 where
  pub tool_name : String
  pub arguments : Arguments
  pub confirmation_prompt : String

pub record Conversation : Type 0 where
  pub id : String
  pub customer_id : Option String
  pub is_authenticated : Bool
  pub turns : List ConversationTurn
  pub pending_action : Option PendingAction

unfoldable pub add : ConversationTurn → Conversation → Conversation
add turn c = record c { turns = c.turns ++ turn ∷ [] }

pub record Message : Type 0 where
  pub role : String
  pub content : String

unfoldable pub turn_message : ConversationTurn → Message
turn_message t = record { role = t.role; content = t.content }

-- the default of `max_turns` is used by every caller
unfoldable pub history_as_messages : Conversation → List Message
history_as_messages c = map turn_message (take_last 12 c.turns)

pub record Answer : Type 0 where
  pub text : String
  pub citations : List Cited
  pub intent : Intent
  pub grounded : Bool
  pub pending_action : Option PendingAction

pub data NoIndexRuleType : Type 0 where
  url source_id : NoIndexRuleType

pub record NoIndexRule : Type 0 where
  pub pattern : String
  pub rule_type : NoIndexRuleType
  pub reason : String
  pub created_by : String
  pub locator_kind : Option String
  pub locator_pattern : Option String
  pub created_at : ℕ

pub record AuditEntry : Type 0 where
  pub id : String
  pub conversation_id : String
  pub customer_id : Option String
  pub question : String
  pub resolved_question : String
  pub retrieved_document_ids : List String
  pub answer_text : String
  pub intent : Intent
  pub grounded : Bool
  pub created_at : ℕ
