-- ===== src/Gateway/Post.antt =====
-- harness/llm/gateway.py: `LLMGateway._post_with_retry`. The server is a parameter, and so is what it
-- answers to each post; waits are left out.
use marcus.Prelude.{
  ℕ, if◌then◌else◌, ◌==◌, zero, suc, String, Bool, false, ◌&&◌, Option, some, List, nat_eq,
}
use marcus.Gateway.{
  llm_failure, got, looks_like_tool_unsupported, reasoning_not_supported, Trial,
  tools_not_supported, transient, is_retryable, Codec, threw, Raised,
  looks_like_reasoning_unsupported,
}
use marcus.Gateway.Providers.{Provider}
use marcus.Prelude.Json.{has, Fields, Json}

-- A `httpx.TransportError`, or the status and the text of a response.
pub data Sent : Type 0 where
  unreachable : Sent
  responded : ℕ → String → Sent

-- The response to a payload, by the number of posts before it.
abbrev pub Server : Type 0
Server = ℕ → Fields → Sent

-- `_reasoning_cache_key`
pub record CapabilityKey : Type 0 where
  pub key_provider : Provider
  pub key_model : String
  pub key_fields : List String
  pub key_effort : Option String

-- The attributes of an `LLMGateway`. `posts` and `deltas` are none: how
-- many requests it has sent, and what it has handed to `on_delta`.
pub record GatewayState : Type 0 where
  pub posts : ℕ
  pub tool_capable : Option Bool
  pub reasoning_capable : List (CapabilityKey × Bool)
  pub deltas : List Json

-- What one response means for the loop.
pub data Verdict : Type 0 where
  accepted : String → Verdict
  retry : Verdict
  stops : Raised → Verdict

abbrev pub posted_once : GatewayState → GatewayState
posted_once s = record s { posts = suc s.posts }

-- `self._tool_capable = False` comes with the exception.
abbrev pub noted : Raised → GatewayState → GatewayState
noted tools_not_supported s = record s { tool_capable = some false }
noted e s = s

module _ (codec : Codec) (server : Server) where
  unfoldable pub judged : Fields → List String → Sent → Verdict
  judged payload reasoning_fields unreachable = retry
  judged payload reasoning_fields (responded status body) =
      if status == 200
      then accepted body
      else if has "tools" payload && looks_like_tool_unsupported codec status body
      then stops tools_not_supported
      else if looks_like_reasoning_unsupported codec status body reasoning_fields
      then stops reasoning_not_supported
      else if is_retryable status
      then retry
      else stops llm_failure

  -- The response that ends the loop, which takes any exception but those worth a retry.
  abbrev pub ends_with_verdict : GatewayState → Verdict → GatewayState × Trial String
  ends_with_verdict s (accepted body) = (s, got body)
  ends_with_verdict s (stops e) = (noted e s, threw e)
  ends_with_verdict s retry = (s, threw transient)

  -- The first argument is `max_retries - attempt`.
  unfoldable pub post_with_retry :
      ℕ → Fields → List String → GatewayState → GatewayState × Trial String
  unfolding judged
  post_with_retry zero payload reasoning_fields s =
      ends_with_verdict (posted_once s) (judged payload reasoning_fields (server s.posts payload))
  post_with_retry (suc left) payload reasoning_fields s =
      elim (judged payload reasoning_fields (server s.posts payload)) [
        | retry ↦ post_with_retry left payload reasoning_fields (posted_once s)
        | verdict ↦ ends_with_verdict (posted_once s) verdict
      ]
