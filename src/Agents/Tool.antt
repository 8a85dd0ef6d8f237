-- ===== src/Agents/Tool.antt =====
-- agents/tools/base_tool.py: a tool is a record of its attributes and its `run`. The arguments
-- of a call are the keyword arguments that the model wrote, in order.
use bank_rag_bot.Prelude.{String, Bool}
use bank_rag_bot.Prelude.Exec.{Exec}
use bank_rag_bot.Domain.{Arguments}
use bank_rag_bot.Ports.{ToolSchema}

pub record Tool (W : Type 0) : Type 0 where
  pub name : String
  pub description : String
  pub requires_authentication : Bool
  pub requires_confirmation : Bool
  pub run : Arguments → Exec W String

unfoldable pub to_openai_schema : {W : Type 0} → Tool W → ToolSchema
to_openai_schema t = record { name = t.name; description = t.description }
