-- ===== src/Redis.antt =====
-- infrastructure/cache/redis_cache.py, and the two commands of Redis that it shares with the store
-- of conversations. A write has a time to live in seconds.
use bank_rag_bot.Prelude.{ℕ, String, Option}
use bank_rag_bot.Prelude.Text.{◌<>◌}
use bank_rag_bot.Prelude.Exec.{Exec}

pub record Redis (W : Type 0) : Type 0 where
  pub get : String → Exec W (Option String)
  pub set : String → String → ℕ → Exec W Unit

-- the default of `namespace` is used by every caller
unfoldable pub cache_entry : String → String
cache_entry key = "answer_cache:" <> key

module _ {W : Type 0} (redis : Redis W) where
  unfoldable pub cache_get : String → Exec W (Option String)
  unfolding cache_entry
  cache_get key = redis.get (cache_entry key)

  unfoldable pub cache_set : String → String → ℕ → Exec W Unit
  unfolding cache_entry
  cache_set key value ttl_seconds = redis.set (cache_entry key) value ttl_seconds
