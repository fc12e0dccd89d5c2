-- ===== src/Text.antt =====
-- The Python text operations that the ledgers use: `strip`, `split`, `<` on texts, slices and `str(n)`.
use Prim.Native.Char.{Char, code}
use Prim.Native.String.{compare, ◌++◌}
use mathlib.Core.List.{List, [], ◌∷◌}
use Prim.Native.Nat.{Ordering}
use text.Mathlib.TextLemmas.{cons≢nil, cons-append}
use lotus_report.Prelude.{
  eq_iff, Bool-cases, inl, inr, subst, sym, ◌≡◌, ℕ, zero, suc, ◌/◌, ◌%◌, String, Bool, true, false,
  ◌&&◌, ◌||◌, ltb, leb, ◌==◌, if◌then◌else◌, str_eq,
}

-- str.isspace of one character
is_space : Char → Bool
is_space c =
    let n = code c in
    leb 9 n && leb n 13
    || leb 28 n && leb n 32
    || n == 133
    || n == 160
    || n == 5760
    || leb 8192 n && leb n 8202
    || n == 8232
    || n == 8233
    || n == 8239
    || n == 8287
    || n == 12288

lstrip : String → String
unfolding is_space
lstrip String.[] = ""
lstrip (String.◌∷◌ c s) = let rest = lstrip s in if is_space c then rest else String.◌∷◌ c s

rstrip : String → String
unfolding is_space
rstrip String.[] = ""
rstrip (String.◌∷◌ c s) =
    let rest = rstrip s in if is_space c && str_eq rest "" then "" else String.◌∷◌ c rest

-- s.strip()
unfoldable pub strip : String → String
unfolding lstrip rstrip
strip s = rstrip (lstrip s)

collapse : Bool → String → String
unfolding is_space
collapse after_space String.[] = ""
collapse after_space (String.◌∷◌ c s) =
    let rest = collapse (is_space c) s in
    if is_space c then if after_space then rest else " " ++ rest else String.◌∷◌ c rest

-- " ".join(s.split())
unfoldable pub squeeze : String → String
unfolding strip collapse
squeeze s = collapse false (strip s)

-- s <= t
unfoldable pub text_le : String → String → Bool
text_le s t = elim (compare s t) [ Ordering.gt ↦ false | _ ↦ true ]

digit : ℕ → String
digit n =
    if n == 0
    then "0"
    else if n == 1
    then "1"
    else if n == 2
    then "2"
    else if n == 3
    then "3"
    else if n == 4
    then "4"
    else if n == 5
    then "5"
    else if n == 6
    then "6"
    else if n == 7
    then "7"
    else if n == 8
    then "8"
    else "9"

-- One digit for each round; `n` rounds are enough for `n`.
decimal_from : ℕ → ℕ → String
unfolding digit
decimal_from zero n = digit n
decimal_from (suc rounds) n =
    let high = decimal_from rounds (n / 10) in if ltb n 10 then digit n else high ++ digit (n % 10)

-- str(n)
unfoldable pub decimal : ℕ → String
unfolding decimal_from
decimal n = decimal_from n n

insert_text : String → List String → List String
unfolding text_le
insert_text s [] = s ∷ []
insert_text s (t ∷ ts) = if text_le s t then s ∷ t ∷ ts else t ∷ insert_text s ts

-- sorted(texts)
unfoldable pub sort_texts : List String → List String
unfolding insert_text
sort_texts [] = []
sort_texts (t ∷ ts) = insert_text t (sort_texts ts)

-- s[:n]
unfoldable pub cut : ℕ → String → String
cut zero s = ""
cut (suc n) String.[] = ""
cut (suc n) (String.◌∷◌ c s) = String.◌∷◌ c (cut n s)

nonempty : (c : Char) (s : String) → str_eq (String.◌∷◌ c s) "" ≡ false
nonempty c s = elim (Bool-cases (str_eq (String.◌∷◌ c s) "")) [
  | inl e ↦ absurd (cons≢nil ((eq_iff (String.◌∷◌ c s) "").0 e))
  | inr e ↦ e
]

-- A text that starts with a character is not cut to nothing.
pub cut-append_nonempty :
    (n : ℕ) (c : Char) (s t : String) → str_eq (cut (suc n) (String.◌∷◌ c s ++ t)) "" ≡ false
unfolding cut
cut-append_nonempty n c s t =
    subst (λ x. str_eq (cut (suc n) x) "" ≡ false) (sym (cons-append c s t))
      (nonempty c (cut n (s ++ t)))
