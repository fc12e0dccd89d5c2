-- ===== src/Clients/Retry/Ends.antt =====
-- A request ends with the first attempt that settles it, which is at the latest the last permitted one.
use lotus_report.Prelude.{
  true, false, ◌*◌, ◌^◌, ℕ, zero, suc, ◌+◌, ◌≤◌, ◌<◌, ◌≡◌, refl, sym, ap, subst, ◌∙◌, inl, inr, ◌⊎◌,
  arith, [], ◌∷◌, ◌++◌, length,
}
use lotus_report.Clients.Retry.{
  Sent, Answer, finish, Session, attempt_verdict, attempts, request_with_retry,
}
use lotus_report.Clients.Retry.Verdicts.{
  may_pass, IsAnswer, IsBackoff, none_yet, one_more, finish-IsAnswer, wait-may_pass, verdict-cases,
  last-settles, length-snoc,
}

module _ {W : Type 0} (send : W → Sent × W) where
  -- The transport after some requests, and what the next one gives.
  pub after_requests : ℕ → W → W
  after_requests zero w = w
  after_requests (suc k) w = (send (after_requests k w)).1

  pub outcome : ℕ → W → Sent
  unfolding after_requests
  outcome k w = (send (after_requests k w)).0

  -- The run ended with the attempt `settled`, counted from zero.
  pub record EndsAt (m backoff : ℕ) (w : W) (settled : ℕ) (run : Answer × Session W) : Type 0 where
    pub permitted : settled ≤ m
    pub last : (settled ≡ m) ⊎ (may_pass (outcome settled w) ≡ false)
    pub first : (k : ℕ) → k < settled → may_pass (outcome k w) ≡ true
    pub answer : IsAnswer settled (outcome settled w) run.0
    pub requests : run.1.world ≡ after_requests (suc settled) w
    pub sleeps : length run.1.slept ≡ settled
    pub backed_off : IsBackoff backoff run.1.slept

  module _ (m backoff : ℕ) (w : W) where
    Waited : ℕ → Type 0
    Waited n = (k : ℕ) → k < n → may_pass (outcome k w) ≡ true

    Waited-suc : (n : ℕ) → Waited n → may_pass (outcome n w) ≡ true → Waited (suc n)
    unfolding Waited
    Waited-suc n h e k less = elim (at_most k n less) [
      | inl earlier ↦ h k earlier
      | inr same ↦ subst (λ j. may_pass (outcome j w) ≡ true) (sym same) e
    ]
      where
        at_most : (k n : ℕ) → k < suc n → (k < n) ⊎ (k ≡ n)
        at_most k n h = ground arith

    finished :
        (left attempt : ℕ) (s : Session W) (a : Answer)
        → attempt + left ≡ m
        → s.world ≡ after_requests attempt w
        → length s.slept ≡ attempt
        → IsBackoff backoff s.slept
        → Waited attempt
        → attempt_verdict m backoff attempt (send s.world).0 ≡ finish a
        → EndsAt m backoff w attempt (attempts send m backoff (suc left) attempt s)
    unfolding attempts outcome after_requests Waited
    finished left attempt s a total world slept backed before e =
        let (answer, last) =
          finish-IsAnswer m backoff attempt (send s.world).0 a (omega (arith, total)) e in
        let here : (send s.world).0 ≡ outcome attempt w = ap (λ v. (send v).0) world in
        let run : attempts send m backoff (suc left) attempt s
            ≡ (a, record s { world = (send s.world).1 }) =
          ground (arith, e) in
        subst (λ r. EndsAt m backoff w attempt r) (sym run)
          (record {
            permitted = omega (arith, total);
            last = subst (λ o. (attempt ≡ m) ⊎ (may_pass o ≡ false)) here last;
            answer = subst (λ o. IsAnswer attempt o a) here answer;
            requests = ap (λ v. (send v).1) world;
            sleeps = slept;
            backed_off = backed;
            first = before;
          })

    attempts-ends :
        (left attempt : ℕ) (s : Session W)
        → attempt + left ≡ m
        → s.world ≡ after_requests attempt w
        → length s.slept ≡ attempt
        → IsBackoff backoff s.slept
        → Waited attempt
        → (settled : ℕ) × EndsAt m backoff w settled (attempts send m backoff (suc left) attempt s)
    unfolding attempts outcome after_requests
    attempts-ends zero attempt s total world slept backed before =
        elim (verdict-cases (attempt_verdict m backoff attempt (send s.world).0)) [
          | inl (a, e) ↦ (attempt, finished zero attempt s a total world slept backed before e)
          | inr (d, e) ↦
              absurd (last-settles m backoff attempt (send s.world).0 d (omega (arith, total)) e)
        ]
    attempts-ends (suc left) attempt s total world slept backed before =
        elim (verdict-cases (attempt_verdict m backoff attempt (send s.world).0)) [
          | inl (a, e) ↦
              (attempt, finished (suc left) attempt s a total world slept backed before e)
          | inr (d, e) ↦
              let waits = wait-may_pass m backoff attempt (send s.world).0 d e in
              let next : Session W = record {
                world = (send s.world).1;
                slept = s.slept ++ (d ∷ []);
              } in
              let rest =
                attempts-ends left (suc attempt) next (omega (arith, total))
                  (ap (λ v. (send v).1) world) (length-snoc s.slept d ∙ ap (λ n. suc n) slept)
                  (one_more backed (subst (λ n. backoff * 2 ^ n ≤ d) (sym slept) waits.1))
                  (Waited-suc attempt before
                    (subst (λ v. may_pass (send v).0 ≡ true) world waits.0)) in
              let one : attempts send m backoff (suc (suc left)) attempt s
                  ≡ attempts send m backoff (suc left) (suc attempt) next =
                ground (arith, e) in
              (rest.0, subst (λ r. EndsAt m backoff w rest.0 r) (sym one) rest.1)
        ]

    -- A request of which max_retries is m ends after at most m + 1 attempts: with the first one that does not
    -- fail in a way that may pass, which are a failure of the transport and the statuses 429, 502, 503
    -- and 504, or with attempt m. It answers with the status and the payload of that attempt, marked
    -- as exhausted where the failure may pass, with 503 where the transport failed, or it raises what the attempt
    -- raised. The requests sent are those up to it and no more, and between each two it slept once,
    -- at least the base delay, doubled for every sleep before.
    pub request_with_retry-ends :
        (settled : ℕ) × EndsAt m backoff w settled (request_with_retry send m backoff w)
    unfolding request_with_retry after_requests Waited
    request_with_retry-ends =
        let start : Session W = record { world = w; slept = [] } in
        let (k, h) =
          attempts-ends m 0 start (omega arith) refl refl none_yet
            (λ k h. absurd (none_below k h)) in
        (k, subst (λ n. EndsAt m backoff w k (attempts send m backoff n 0 start)) one h)
      where
        none_below : (k : ℕ) → k < 0 → ⊥
        none_below k h = ground arith

        one : suc m ≡ m + 1
        one = omega arith
