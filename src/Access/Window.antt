-- ===== src/Access/Window.antt =====
-- How many requests of one key the limiter lets through in a window.
use bank_rag_bot.Prelude.{
  ℕ, zero, suc, String, ◌≡◌, refl, ap, ◌∙◌, arith, ltb, leb, eqb, Bool-cases, inl, inr,
}
use bank_rag_bot.Prelude.Exec.{ok, pure, ◌>>=◌}
use bank_rag_bot.Access.{Counters, is_allowed, start_window, limit_key}

-- What Redis promises of the counters while the window lasts: `incr` adds one and returns the sum,
-- and `expire` leaves the count.
pub record CountsUp {S : Type 0} (counters : Counters S) : Type 0 where
  pub count : S → String → ℕ
  pub incr_returns : (k : String) (s : S) → (counters.incr k s).0 ≡ ok (suc (count s k))
  pub incr_adds : (k : String) (s : S) → count (counters.incr k s).1 k ≡ suc (count s k)
  pub expire_returns : (k : String) (seconds : ℕ) (s : S) → (counters.expire k seconds s).0 ≡ ok tt
  pub expire_keeps :
      (k : String) (seconds : ℕ) (s : S) → count (counters.expire k seconds s).1 k ≡ count s k

module _ {S : Type 0} (counters : Counters S) (law : CountsUp counters) (key : String)
    (limit window_seconds : ℕ) where
  start_window-returns :
      (n : ℕ) (s : S)
      → ((start_window counters (limit_key key window_seconds) window_seconds n s).0 ≡ ok tt)
        × (law.count
              (start_window counters (limit_key key window_seconds) window_seconds n s).1
              (limit_key key window_seconds)
            ≡ law.count s (limit_key key window_seconds))
  unfolding start_window pure
  start_window-returns n s = elim (Bool-cases (eqb n 1)) [
    | inl first ↦ rw (first, start_window) (law.expire_returns _ _ s, law.expire_keeps _ _ s)
    | inr later ↦ rw (later, start_window) (refl, refl)
  ]

  -- one request
  counted :
      (s : S)
      → ((is_allowed counters key limit window_seconds s).0
          ≡ ok (leb (suc (law.count s (limit_key key window_seconds))) limit))
        × (law.count
              (is_allowed counters key limit window_seconds s).1
              (limit_key key window_seconds)
            ≡ suc (law.count s (limit_key key window_seconds)))
  unfolding is_allowed ◌>>=◌ pure
  counted s =
      let k = limit_key key window_seconds in
      let (returned, kept) = start_window-returns (suc (law.count s k)) (counters.incr k s).1 in
      (
        rw (law.incr_returns k s, returned) refl,
        rw (law.incr_returns k s, returned) (kept ∙ law.incr_adds k s),
      )

  -- the state after so many requests
  unfoldable pub after_requests : ℕ → S → S
  after_requests zero s = s
  after_requests (suc n) s = (is_allowed counters key limit window_seconds (after_requests n s)).1

  count-after_requests :
      (n : ℕ) (s : S)
      → law.count s (limit_key key window_seconds) ≡ 0
      → law.count (after_requests n s) (limit_key key window_seconds) ≡ n
  unfolding after_requests
  count-after_requests zero s h = h
  count-after_requests (suc n) s h =
      (counted (after_requests n s)).1 ∙ ap suc (count-after_requests n s h)

  -- In a window that starts with no request of the key counted, the request after `n` others is
  -- let through exactly when `n` is less than the limit. Redis counts as it promises.
  pub is_allowed-window :
      (n : ℕ) (s : S)
      → law.count s (limit_key key window_seconds) ≡ 0
      → (is_allowed counters key limit window_seconds (after_requests n s)).0 ≡ ok (ltb n limit)
  is_allowed-window n s h =
      (counted (after_requests n s)).0
      ∙ ap ok (
          rw (count-after_requests n s h)
            (let e : leb (suc n) limit ≡ ltb n limit = ground arith in e))
