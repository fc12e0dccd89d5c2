-- ===== src/Clients/Retry/Verdicts.antt =====
-- What one attempt of a retried request comes to: an answer, or a wait.
use Prim.Native.String.{◌++◌ as text_append}
use lotus_report.Sql.{ok, err}
use lotus_report.Prelude.{
  Option-cases, Option, none, some, String, Bool, true, false, Bool-cases, ◌*◌, ◌^◌, ◌==◌, ◌||◌,
  leb, ℕ, suc, ◌+◌, ◌≤◌, ◌≡◌, refl, ap, subst, inl, inr, ◌⊎◌, arith, List, [], ◌∷◌, ◌++◌, length,
}
use lotus_report.Clients.Retry.{
  Response, Json, detail, set_key, response_payload, retry_after_seconds, retry_exhausted_payload,
  retry_delay_seconds, Sent, answered, lost, raised, Answer, Verdict, finish, wait, attempt_verdict,
}

-- The failure may pass: the transport failed, or the status is one of these four.
abbrev pub may_pass : Sent → Bool
may_pass (answered r) =
    r.status_code == 429 || r.status_code == 502 || r.status_code == 503 || r.status_code == 504
may_pass (lost name) = true
may_pass (raised t) = false

-- What an attempt answers, in the end: the status of its response, with the payload as it came, or
-- marked as exhausted with the number of attempts; 503 where the transport failed; or what it raised.
pub data IsAnswer (settled : ℕ) : Sent → Answer → Type 0 where
  of_response :
      {r : Response}
      → may_pass (answered r) ≡ false
      → IsAnswer settled (answered r) (ok (r.status_code, response_payload r))
  of_exhausted :
      {r : Response}
      → may_pass (answered r) ≡ true
      → IsAnswer settled (answered r) (
          ok (
            r.status_code,
            set_key "upstream_retry_attempts" (Json.number (settled + 1)) (
                set_key "upstream_retry_status_code"
                  (Json.number r.status_code)
                  (set_key "upstream_retry_exhausted" (Json.flag true) (response_payload r))),
          ))
  of_loss :
      {name : String}
      → IsAnswer settled (lost name) (
          ok
            (503, ("detail", Json.text (text_append "upstream communication failure: " name)) ∷ []))
  of_raise : {t : String} → IsAnswer settled (raised t) (err t)

-- Every wait is at least the base, doubled for every wait before.
pub data IsBackoff (base : ℕ) : List ℕ → Type 0 where
  none_yet : IsBackoff base []
  one_more :
      {ds : List ℕ} {d : ℕ}
      → IsBackoff base ds
      → base * 2 ^ length ds ≤ d
      → IsBackoff base (ds ++ (d ∷ []))

-- An attempt that ends the request is the last permitted one, or its failure cannot pass.
pub finish-IsAnswer :
    (m backoff k : ℕ) (s : Sent) (a : Answer)
    → k ≤ m
    → attempt_verdict m backoff k s ≡ finish a
    → IsAnswer k s a × ((k ≡ m) ⊎ (may_pass s ≡ false))
unfolding attempt_verdict
finish-IsAnswer m backoff k (raised t) a h e =
    let q : err t ≡ a = ground arith in (subst (λ b. IsAnswer k (raised t) b) q of_raise, inr refl)
finish-IsAnswer m backoff k (lost name) a h e = elim (Bool-cases (leb m k)) [
  | inr more ↦ absurd (ground (arith, more))
  | inl last ↦
      let q : ok (503, detail (text_append "upstream communication failure: " name)) ≡ a =
        ground (arith, last) in
      (subst (λ b. IsAnswer k (lost name) b) q of_loss, inl (ground (arith, last)))
]
finish-IsAnswer m backoff k (answered r) a h e = elim (Bool-cases (may_pass (answered r))) [
  | inr settles ↦
      let q : ok (r.status_code, response_payload r) ≡ a = ground (arith, settles) in
      (subst (λ b. IsAnswer k (answered r) b) q (of_response settles), inr settles)
  | inl passes ↦ elim (Bool-cases (leb m k)) [
    | inr more ↦ absurd (ground (arith, passes, more))
    | inl last ↦
        let q : ok
              (r.status_code, retry_exhausted_payload r.status_code (response_payload r) (k + 1))
            ≡ a =
          ground (arith, passes, last) in
        (subst (λ b. IsAnswer k (answered r) b) q (of_exhausted passes), inl (ground (arith, last)))
  ]
]

delay-least :
    (k backoff : ℕ) (r : Option Response) → backoff * 2 ^ k ≤ retry_delay_seconds k backoff r
unfolding retry_delay_seconds
delay-least k backoff none = omega arith
delay-least k backoff (some r) = elim (Option-cases (retry_after_seconds r)) [
  | inl e ↦ rw (retry_delay_seconds, e) (omega arith)
  | inr (n, e) ↦ rw (retry_delay_seconds, e) (omega arith)
]

-- An attempt that waits has failed in a way that may pass, and waits at least its backoff.
pub wait-may_pass :
    (m backoff k : ℕ) (s : Sent) (d : ℕ)
    → attempt_verdict m backoff k s ≡ wait d
    → (may_pass s ≡ true) × (backoff * 2 ^ k ≤ d)
unfolding attempt_verdict
wait-may_pass m backoff k (raised t) d e = absurd (ground arith)
wait-may_pass m backoff k (lost name) d e = elim (Bool-cases (leb m k)) [
  | inl last ↦ absurd (ground (arith, last))
  | inr more ↦
      let q : retry_delay_seconds k backoff none ≡ d = ground (arith, more) in
      (refl, subst (λ n. backoff * 2 ^ k ≤ n) q (delay-least k backoff none))
]
wait-may_pass m backoff k (answered r) d e = elim (Bool-cases (may_pass (answered r))) [
  | inr settles ↦ absurd (ground (arith, settles))
  | inl passes ↦ elim (Bool-cases (leb m k)) [
    | inl last ↦ absurd (ground (arith, passes, last))
    | inr more ↦
        let q : retry_delay_seconds k backoff (some r) ≡ d = ground (arith, passes, more) in
        (passes, subst (λ n. backoff * 2 ^ k ≤ n) q (delay-least k backoff (some r)))
  ]
]

pub verdict-cases : (v : Verdict) → ((a : Answer) × (v ≡ finish a)) ⊎ ((d : ℕ) × (v ≡ wait d))
verdict-cases (finish a) = inl (a, refl)
verdict-cases (wait d) = inr (d, refl)

-- The last permitted attempt does not wait.
pub last-settles :
    (m backoff k : ℕ) (s : Sent) (d : ℕ) → m ≤ k → attempt_verdict m backoff k s ≡ wait d → ⊥
unfolding attempt_verdict
last-settles m backoff k (raised t) d h e = cc
last-settles m backoff k (lost name) d h e = ground arith
last-settles m backoff k (answered r) d h e = ground arith

pub length-snoc : (xs : List ℕ) (x : ℕ) → length (xs ++ (x ∷ [])) ≡ suc (length xs)
length-snoc [] x = refl
length-snoc (y ∷ ys) x = ap (λ n. suc n) (length-snoc ys x)
