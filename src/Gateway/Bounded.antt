-- ===== src/Gateway/Bounded.antt =====
-- How often `LLMGateway._post_with_retry` posts, and what it raises.
use marcus.Prelude.{ℕ, ◌+◌, ◌≤◌, ◌<◌, String, ◌≡◌, ◌≢◌, true, List, [], ◌∷◌, arith, zero, suc, refl}
use marcus.Gateway.{
  transient, is_llm_error, reasoning_not_supported, threw, Trial, Codec,
  looks_like_reasoning_unsupported, Raised, got, llm_failure, tools_not_supported, malformed,
}
use marcus.Gateway.Post.{
  Server, accepted, judged, responded, GatewayState, unreachable, stops, Sent, noted,
  ends_with_verdict, retry, Verdict, post_with_retry, posted_once,
}
use marcus.Prelude.Json.{Fields}

-- The last post got a response with status 200 and this body.
pub record IsAccepted (server : Server) (payload : Fields) (s : GatewayState) (body : String)
    : Type 0 where
  pub before : ℕ
  pub then_posted : s.posts ≡ suc before
  pub the_response : server before payload ≡ responded 200 body

-- What a call of `post_with_retry` from `s` with `left` retries may end in: a response with status
-- 200 to the last post, or an `LLMError`. Only when all posts were in vain it is a transient error.
pub record IsSettled (server : Server) (left : ℕ) (payload : Fields) (fields : List String)
    (s s' : GatewayState) (r : Trial String) : Type 0 where
  pub posted : s.posts < s'.posts
  pub bounded : s'.posts ≤ s.posts + left + 1
  pub same_memory : s'.reasoning_capable ≡ s.reasoning_capable
  pub accepted_last : (body : String) → r ≡ got body → IsAccepted server payload s' body
  pub no_other_error : (e : Raised) → r ≡ threw e → is_llm_error e ≡ true
  pub asked_reasoning : r ≡ threw reasoning_not_supported → fields ≢ []
  pub exhausted : r ≡ threw transient → s'.posts ≡ s.posts + left + 1

module _ (codec : Codec) (server : Server) where
  accepted_means :
      (payload : Fields) (fields : List String) (sent : Sent) (body : String)
      → judged codec server payload fields sent ≡ accepted body
      → sent ≡ responded 200 body
  unfolding judged
  accepted_means payload fields unreachable body h = ground (arith, h)
  accepted_means payload fields (responded status t) body h = ground (arith, h)

  stops_means :
      (payload : Fields) (fields : List String) (sent : Sent) (e : Raised)
      → judged codec server payload fields sent ≡ stops e
      → (is_llm_error e ≡ true) × (e ≢ transient) × (e ≡ reasoning_not_supported → fields ≢ [])
  unfolding judged looks_like_reasoning_unsupported
  stops_means payload fields unreachable e h = ground (arith, h)
  stops_means payload [] (responded status t) e h = ground (arith, h)
  stops_means payload (f ∷ fields) (responded status t) e h = ground (arith, h)

  noted-posts : (e : Raised) (s : GatewayState) → (noted e s).posts ≡ s.posts
  noted-posts llm_failure s = refl
  noted-posts tools_not_supported s = refl
  noted-posts transient s = refl
  noted-posts reasoning_not_supported s = refl
  noted-posts malformed s = refl

  noted-memory :
      (e : Raised) (s : GatewayState) → (noted e s).reasoning_capable ≡ s.reasoning_capable
  noted-memory llm_failure s = refl
  noted-memory tools_not_supported s = refl
  noted-memory transient s = refl
  noted-memory reasoning_not_supported s = refl
  noted-memory malformed s = refl

  module _ (payload : Fields) (fields : List String) where
    abbrev Settled : ℕ → GatewayState → GatewayState × Trial String → Type 0
    Settled left s o = IsSettled server left payload fields s o.0 o.1

    ends-IsSettled :
        (left : ℕ) (s : GatewayState) (v : Verdict)
        → judged codec server payload fields (server s.posts payload) ≡ v
        → (v ≡ retry → left ≡ 0)
        → Settled left s (ends_with_verdict codec server (posted_once s) v)
    ends-IsSettled left s (accepted body) h k = record {
      posted = omega arith;
      bounded = omega arith;
      same_memory = refl;
      accepted_last = λ b e. record {
        before = s.posts;
        then_posted = refl;
        the_response = accepted_means payload fields (server s.posts payload) b cc;
      };
      no_other_error = λ e absurd_case. ground (arith, absurd_case);
      asked_reasoning = λ absurd_case. ground (arith, absurd_case);
      exhausted = λ absurd_case. ground (arith, absurd_case);
    }
    ends-IsSettled left s retry h k = record {
      posted = omega arith;
      bounded = omega arith;
      same_memory = refl;
      accepted_last = λ b absurd_case. ground (arith, absurd_case);
      no_other_error = λ e same. ground (arith, same);
      asked_reasoning = λ absurd_case. ground (arith, absurd_case);
      exhausted = λ _. omega (arith, k refl);
    }
    ends-IsSettled left s (stops e) h k =
        let (first, second, third) = stops_means payload fields (server s.posts payload) e h in
        record {
          posted = omega (arith, noted-posts e (posted_once s));
          bounded = omega (arith, noted-posts e (posted_once s));
          same_memory = noted-memory e (posted_once s);
          accepted_last = λ b absurd_case. ground (arith, absurd_case);
          no_other_error = λ e' same. ground (arith, same, first);
          asked_reasoning = λ same. third (ground (arith, same));
          exhausted = λ same. absurd (second (ground (arith, same)));
        }

    again-IsSettled :
        (left : ℕ) (s : GatewayState) (o : GatewayState × Trial String)
        → Settled left (posted_once s) o
        → Settled (suc left) s o
    again-IsSettled left s o h = record {
      posted = omega (arith, h.posted);
      bounded = omega (arith, h.bounded);
      same_memory = h.same_memory;
      accepted_last = h.accepted_last;
      no_other_error = h.no_other_error;
      asked_reasoning = h.asked_reasoning;
      exhausted = λ e. omega (arith, h.exhausted e);
    }

    next-IsSettled :
        (left : ℕ) (s : GatewayState) (v : Verdict)
        → judged codec server payload fields (server s.posts payload) ≡ v
        → Settled left
            (posted_once s)
            (post_with_retry codec server left payload fields (posted_once s))
        → Settled (suc left) s (elim v [
          | retry ↦ post_with_retry codec server left payload fields (posted_once s)
          | verdict ↦ ends_with_verdict codec server (posted_once s) verdict
        ])
    next-IsSettled left s retry h rest = again-IsSettled left s _ rest
    next-IsSettled left s (accepted body) h rest =
        ends-IsSettled (suc left) s (accepted body) h (λ e. ground (arith, e))
    next-IsSettled left s (stops e) h rest =
        ends-IsSettled (suc left) s (stops e) h (λ same. ground (arith, same))

    -- The loop posts once at least and once more than it may retry at most. It ends in the body of
    -- the response to its last post, whose status is 200, or in an `LLMError`; it reports that the
    -- reasoning fields are not supported only if there are some, and a transient failure only after
    -- its last retry.
    pub post_with_retry-IsSettled :
        (left : ℕ) (s : GatewayState)
        → Settled left s (post_with_retry codec server left payload fields s)
    unfolding post_with_retry
    post_with_retry-IsSettled zero s =
        ends-IsSettled 0 s (judged codec server payload fields (server s.posts payload)) refl
          (λ _. refl)
    post_with_retry-IsSettled (suc left) s =
        next-IsSettled left s (judged codec server payload fields (server s.posts payload)) refl
          (post_with_retry-IsSettled left (posted_once s))
