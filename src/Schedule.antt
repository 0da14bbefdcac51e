-- ===== src/Schedule.antt =====
-- apps/job/internal/schedule/cron.go: the Cron grammar, Next and Preview. robfig's parser and the text
-- functions of the standard library are the fields of a grammar; the location of a time plays no part.
pub mod Previews
use Prim.Native.String.{String}
use dogx.Common.{
  ℕ, zero, suc, ◌==◌, ltb, if◌then◌else◌, ◌||◌, not, Bool, true, false, Option, none, some, List,
  [], ◌∷◌,
}
use dogx.Model.{Time, is_zero}

-- strings.TrimSpace, utf8.ValidString, ContainsRune(_, 0), RuneCountInString, Fields, HasPrefix and
-- the parser, which answers with the schedule's Next in the zone of the process.
pub record Grammar : Type 0 where
  pub trim_space : String → String
  pub valid_string : String → Bool
  pub contains_nul : String → Bool
  pub rune_count : String → ℕ
  pub field_count : String → ℕ
  pub has_prefix : String → String → Bool
  pub parser : String → Option (Time → Time)

unfoldable pub parse : Grammar → String → Option (Time → Time)
parse g text =
    let expr = g.trim_space text in
    if not (g.valid_string expr)
      || g.contains_nul expr
      || ltb 128 (g.rune_count expr)
      || not (g.field_count expr == 6)
    then none
    else if g.has_prefix expr "TZ=" || g.has_prefix expr "CRON_TZ="
    then none
    else g.parser expr

-- An occurrence that lies behind `after`.
unfoldable pub occurrence : (Time → Time) → Time → Option Time
occurrence s after = if is_zero (s after) || not (ltb after (s after)) then none else some (s after)

unfoldable pub next : Grammar → String → Time → Option Time
unfolding parse occurrence
next g expr after = elim (parse g expr) [ none ↦ none | some s ↦ occurrence s after ]

-- The loop of Preview, from its turn on.
abbrev pub occurrences : (Time → Time) → ℕ → Time → List Time
occurrences s zero after = []
occurrences s (suc n) after = elim (occurrence s after) [
  | none ↦ []
  | some t ↦ t ∷ occurrences s n t
]

-- Without a first occurrence Preview is an error.
abbrev pub found : List Time → Option (List Time)
found [] = none
found (t ∷ ts) = some (t ∷ ts)

unfoldable pub preview : Grammar → String → Time → Option (List Time)
unfolding parse occurrence
preview g expr after = elim (parse g expr) [ none ↦ none | some s ↦ found (occurrences s 5 after) ]
