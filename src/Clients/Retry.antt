-- ===== src/Clients/Retry.antt =====
-- src/app/clients/http_resilience.py: a request that is sent again after a failure that may pass. The
-- transport is a parameter, with a state of its own. `max_retries` is not negative, and a delay is
-- a whole number of milliseconds, not negative either.
pub mod Verdicts
pub mod Ends
use lotus_report.Prelude.{
  ℕ, zero, suc, ◌+◌, ◌*◌, ◌^◌, min, max, String, Bool, true, false, not, ◌||◌, ◌==◌, leb, Option,
  none, some, List, [], ◌∷◌, ◌++◌, if◌then◌else◌, str_eq,
}
use lotus_report.Sql.{Result, ok, err}
use Prim.Native.String.{◌++◌ as text_append}

pub data ℤ : Type 0 where
  pos : ℕ → ℤ
  negsuc : ℕ → ℤ

-- A JSON value that is no object keeps its text.
pub data Json : Type 0 where
  text : String → Json
  number : ℕ → Json
  flag : Bool → Json
  value : String → Json

abbrev pub Payload : Type 0
Payload = List (String × Json)

-- What `response.json()` gives: an object, another value, or ValueError, with the text of the body.
pub data Body : Type 0 where
  object : Payload → Body
  other : Json → Body
  unparsable : String → Body

-- `retry_after` is the header Retry-After as `int` reads it, and none where it is missing or no number.
pub record Response : Type 0 where
  pub status_code : ℕ
  pub body : Body
  pub retry_after : Option ℤ

-- A request is answered, it fails with a TimeoutException or a NetworkError (the name of its class), or
-- it raises something else.
pub data Sent : Type 0 where
  answered : Response → Sent
  lost : String → Sent
  raised : String → Sent

unfoldable pub response_payload : Response → Payload
response_payload r = elim r.body [
  | object payload ↦ payload
  | other v ↦ ("detail", v) ∷ []
  | unparsable t ↦ ("detail", Json.text t) ∷ []
]

-- _RETRYABLE_HTTP_STATUSES
abbrev pub is_retryable : ℕ → Bool
is_retryable s = s == 429 || s == 502 || s == 503 || s == 504

-- _MAX_RETRY_AFTER_SECONDS
abbrev pub max_retry_after : ℕ
max_retry_after = 5000

unfoldable pub retry_after_seconds : Response → Option ℕ
retry_after_seconds r = elim r.retry_after [
  | none ↦ none
  | some (pos n) ↦ some (min (n * 1000) max_retry_after)
  | some (negsuc n) ↦ none
]

unfoldable pub retry_delay_seconds : ℕ → ℕ → Option Response → ℕ
unfolding retry_after_seconds
retry_delay_seconds attempt backoff none = backoff * 2 ^ attempt
retry_delay_seconds attempt backoff (some r) = elim (retry_after_seconds r) [
  | none ↦ backoff * 2 ^ attempt
  | some retry_after ↦ max (backoff * 2 ^ attempt) retry_after
]

-- d[key] = value
abbrev pub set_key : String → Json → Payload → Payload
set_key key v [] = (key, v) ∷ []
set_key key v ((k, x) ∷ rest) =
    let below = set_key key v rest in if str_eq k key then (k, v) ∷ rest else (k, x) ∷ below

unfoldable pub retry_exhausted_payload : ℕ → Payload → ℕ → Payload
retry_exhausted_payload status_code payload attempts =
    set_key "upstream_retry_attempts" (number attempts) (
      set_key "upstream_retry_status_code" (number status_code)
        (set_key "upstream_retry_exhausted" (flag true) payload))

abbrev pub detail : String → Payload
detail t = ("detail", Json.text t) ∷ []

abbrev pub Answer : Type 0
Answer = Result String (ℕ × Payload)

-- What the body of the loop does with one attempt: it returns or raises, or it sleeps.
pub data Verdict : Type 0 where
  finish : Answer → Verdict
  wait : ℕ → Verdict

unfoldable pub attempt_verdict : ℕ → ℕ → ℕ → Sent → Verdict
unfolding response_payload retry_delay_seconds retry_exhausted_payload
attempt_verdict max_retries backoff attempt (answered r) =
    if not (is_retryable r.status_code)
    then finish (ok (r.status_code, response_payload r))
    else if leb max_retries attempt
    then finish (
        ok
          (r.status_code, retry_exhausted_payload r.status_code (response_payload r) (attempt + 1)))
    else wait (retry_delay_seconds attempt backoff (some r))
attempt_verdict max_retries backoff attempt (lost name) =
    if leb max_retries attempt
    then finish (ok (503, detail (text_append "upstream communication failure: " name)))
    else wait (retry_delay_seconds attempt backoff none)
attempt_verdict max_retries backoff attempt (raised t) = finish (err t)

-- The state of the transport, and the delays that were slept, in order.
pub record Session (W : Type 0) : Type 0 where
  pub world : W
  pub slept : List ℕ

module _ {W : Type 0} (send : W → Sent × W) where
  -- `for attempt in range(max_retries + 1)`: what is left of the range, and the attempt.
  unfoldable pub attempts : ℕ → ℕ → ℕ → ℕ → Session W → Answer × Session W
  unfolding attempt_verdict
  attempts max_retries backoff zero attempt s =
      (ok (503, detail "upstream communication failure: exhausted retries"), s)
  attempts max_retries backoff (suc left) attempt s =
      elim (attempt_verdict max_retries backoff attempt (send s.world).0) [
        | finish a ↦ (a, record s { world = (send s.world).1 })
        | wait delay ↦
            attempts max_retries backoff left (attempt + 1)
              (record { world = (send s.world).1; slept = s.slept ++ (delay ∷ []) })
      ]

  -- `_request_with_retry`
  unfoldable pub request_with_retry : ℕ → ℕ → W → Answer × Session W
  unfolding attempts
  request_with_retry max_retries backoff w =
      attempts max_retries backoff (max_retries + 1) 0 (record { world = w; slept = [] })
