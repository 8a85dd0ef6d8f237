-- ===== src/Ports.antt =====
-- application/ports/*.py: the types that cross the ports, and the services behind them. `W` is
-- the state of everything outside the process: the language model, Redis, Postgres, the bank's
-- API and the clock. A call of a service may change it, and may raise.
use bank_rag_bot.Prelude.{ℕ, String, Bool, Option, List, none, some}
use bank_rag_bot.Prelude.Exec.{Error, Exec}
use bank_rag_bot.Domain.{Arguments, Message, AuditEntry}

-- llm_client.py
pub record ToolCall : Type 0 where
  pub id : String
  pub name : String
  pub arguments : Arguments

pub record LlmResponse : Type 0 where
  pub content : Option String
  pub tool_calls : List ToolCall
  pub finish_reason : String

pub record LlmStreamChunk : Type 0 where
  pub content_delta : String
  pub is_final : Bool
  pub response : Option LlmResponse

-- What the model is offered of a tool: `to_openai_schema`, without the fixed JSON Schema.
pub record ToolSchema : Type 0 where
  pub name : String
  pub description : String

-- What `stream_complete` yields, and the exception that ends it, if one does.
pub record LlmStream : Type 0 where
  pub chunks : List LlmStreamChunk
  pub failure : Option Error

-- The system prompts of the program, by the constant that holds each; their text goes to the
-- model alone and nothing in the program reads it.
pub data SystemPrompt : Type 0 where
  router confirmation sentiment topic numeric_validator query_rewrite : SystemPrompt

pub record Services (W : Type 0) : Type 0 where
  pub complete : SystemPrompt → List Message → Exec W LlmResponse
  pub stream_complete : SystemPrompt → List Message → List ToolSchema → W → LlmStream × W
  pub mask : String → String
  pub cache_get : String → Exec W (Option String)
  pub cache_set : String → String → ℕ → Exec W Unit
  pub record_audit : AuditEntry → Exec W Unit
  pub uuid4 : W → String × W
  pub now : W → ℕ × W

-- `response.content or ""`
abbrev pub or_empty : Option String → String
or_empty none = ""
or_empty (some s) = s
