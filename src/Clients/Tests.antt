-- ===== src/Clients/Tests.antt =====
-- The theorem on retried requests at a transport that fails twice.
use lotus_report.Prelude.{ℕ, ◌+◌, ◌==◌, ◌≡◌, refl, [], ◌∷◌, none, some, if◌then◌else◌}
use lotus_report.Clients.Retry.{Sent, Response, Body, ℤ, request_with_retry}
use lotus_report.Clients.Retry.Ends.{EndsAt, request_with_retry-ends}

abbrev busy : Response
busy = record { status_code = 503; body = Body.unparsable "busy"; retry_after = some (ℤ.pos 2) }

abbrev done : Response
done = record { status_code = 200; body = Body.object []; retry_after = none }

-- The third request is answered, where it is sent.
abbrev third_time : ℕ → Sent × ℕ
third_time n = (
  if n == 0
      then Sent.lost "ReadTimeout"
      else if n == 1
      then Sent.answered busy
      else Sent.answered done,
  n + 1,
)

slept_twice : (request_with_retry third_time 2 200 0).1.slept ≡ 200 ∷ 2000 ∷ []
unfolding request_with_retry
slept_twice = refl

request_with_retry-ends_example :
    (settled : ℕ) × EndsAt third_time 2 200 0 settled (request_with_retry third_time 2 200 0)
request_with_retry-ends_example = request_with_retry-ends third_time 2 200 0
