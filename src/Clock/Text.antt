-- ===== src/Clock/Text.antt =====
-- `_dt_to_text`, and the order of the texts.
use lotus_report.Prelude.{
  ℕ, ◌*◌, ◌/◌, ◌%◌, Bool, true, false, not, ◌&&◌, ◌||◌, Option, none, some, ltb, ◌==◌,
  if◌then◌else◌,
}

abbrev pub Time : Type 0
Time = ℕ

abbrev pub second : ℕ
second = 1000000

-- timedelta(seconds=n)
abbrev pub seconds : ℕ → ℕ
seconds n = n * second

-- The text `YYYY-MM-DDTHH:MM:SS` with a suffix: `Z`, or a fraction `.ffffffZ`. The part before the
-- suffix has a fixed width, so it is compared like the whole seconds that it stands for.
pub record IsoText : Type 0 where
  pub whole : ℕ
  pub fraction : Option ℕ

-- value.astimezone(UTC).isoformat().replace("+00:00", "Z")
unfoldable pub dt_to_text : Time → IsoText
dt_to_text t = record {
  whole = t / second;
  fraction = if t % second == 0 then none else some (t % second);
}

-- `.` sorts before `Z`, so a text with a fraction sorts before the text without one.
suffix_lt : Option ℕ → Option ℕ → Bool
suffix_lt none b = false
suffix_lt (some a) none = true
suffix_lt (some a) (some b) = ltb a b

text_lt : IsoText → IsoText → Bool
unfolding suffix_lt
text_lt a b = ltb a.whole b.whole || (a.whole == b.whole && suffix_lt a.fraction b.fraction)

-- SQL `a < b` on two time columns
unfoldable pub before : Time → Time → Bool
unfolding dt_to_text text_lt
before a b = text_lt (dt_to_text a) (dt_to_text b)

-- SQL `a <= b` on two time columns
unfoldable pub not_after : Time → Time → Bool
unfolding before
not_after a b = not (before b a)
