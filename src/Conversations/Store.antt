-- ===== src/Conversations/Store.antt =====
-- infrastructure/persistence/redis_conversation_repository.py, the two methods over Redis.
use bank_rag_bot.Prelude.{ℕ, String, Option, none, some}
use bank_rag_bot.Prelude.Exec.{Exec, Result, ok, lift, bind_result, ◌>>=◌}
use bank_rag_bot.Domain.{Conversation}
use bank_rag_bot.Python.{Python}
use bank_rag_bot.Redis.{Redis}
use bank_rag_bot.Conversations.{key, save_text, load_text}

module _ {W : Type 0} (redis : Redis W) (py : Python) (isoformat : ℕ → String)
    (fromisoformat : String → Option ℕ) where
  unfoldable pub read_stored : Option String → Result (Option Conversation)
  unfolding load_text
  read_stored none = ok none
  read_stored (some raw) = bind_result (load_text isoformat fromisoformat py raw) (λ c. ok (some c))

  unfoldable pub get_conversation : String → Exec W (Option Conversation)
  unfolding read_stored key
  get_conversation id = do raw ← redis.get (key id); lift (read_stored raw)

  unfoldable pub save_conversation : ℕ → Conversation → Exec W Unit
  unfolding save_text key
  save_conversation ttl_seconds c =
      redis.set (key c.id) (save_text isoformat fromisoformat py c) ttl_seconds
