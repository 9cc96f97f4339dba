-- ===== src/Parser/Timestamp.antt =====
-- ParseRevertTimestampMs. std::mktime, which depends on the time zone of the machine, is a parameter;
-- `none` is its failure.
use database_management_syst.Prelude.{
  ℕ, ◌+◌, ◌-◌, ◌*◌, Bool, false, not, ◌&&◌, ◌||◌, ltb, ◌==◌, if◌then◌else◌, Option, none, some,
  length, get_elem?, take, drop,
}
use database_management_syst.Prelude.Int.{ℤ, pos, negsuc}
use database_management_syst.Binary.{Bytes}
use database_management_syst.Parser.Lexer.{all_digits}
use database_management_syst.Parser.Expressions.{decimal}

-- The fields of std::tm, the year and the month as the text has them.
pub record Calendar : Type 0 where
  pub year : ℕ
  pub month : ℕ
  pub day : ℕ
  pub hour : ℕ
  pub minute : ℕ
  pub second : ℕ

abbrev pub Mktime : Type 0
Mktime = Calendar → Option ℤ

unfoldable pub has_byte : Bytes → ℕ → ℕ → Bool
has_byte raw position expected = elim (get_elem? raw position) [
  | none ↦ false
  | some c ↦ c == expected
]

-- `Number(pos, count)`
unfoldable pub number_at : Bytes → ℕ → ℕ → Option ℕ
number_at raw position count =
    let digits = take count (drop position raw) in
    if length digits == count && all_digits digits then some (decimal 0 digits) else none

unfoldable pub has_separators : Bytes → Bool
unfolding has_byte
has_separators raw =
    has_byte raw 4 b'.'
    && has_byte raw 7 b'.'
    && has_byte raw 10 b'-'
    && has_byte raw 13 b':'
    && has_byte raw 16 b':'
    && has_byte raw 19 b'.'

unfoldable pub in_calendar : Calendar → Bool
in_calendar c =
    not (ltb c.month 1)
    && not (ltb 12 c.month)
    && not (ltb c.day 1)
    && not (ltb 31 c.day)
    && not (ltb 23 c.hour)
    && not (ltb 59 c.minute)
    && not (ltb 59 c.second)

infixl 5 ◌>>=◌
abbrev ◌>>=◌ : {A B : Type 0} → Option A → (A → Option B) → Option B
o >>= k = elim o [ none ↦ none | some a ↦ k a ]

unfoldable pub calendar_of : Bytes → Option Calendar
unfolding number_at
calendar_of raw = do
  year ← number_at raw 0 4
  month ← number_at raw 5 2
  day ← number_at raw 8 2
  hour ← number_at raw 11 2
  minute ← number_at raw 14 2
  second ← number_at raw 17 2
  some (record {
    year = year;
    month = month;
    day = day;
    hour = hour;
    minute = minute;
    second = second;
  })

-- seconds * 1000 + millis, for less than 1000 milliseconds.
abbrev pub to_milliseconds : ℤ → ℕ → ℤ
to_milliseconds (pos s) millis = pos (s * 1000 + millis)
to_milliseconds (negsuc s) millis = negsuc ((s + 1) * 1000 - millis - 1)

unfoldable pub parse_revert_timestamp_ms : Mktime → Bytes → Option ℤ
unfolding has_separators calendar_of number_at in_calendar all_digits
parse_revert_timestamp_ms mktime raw =
    if ltb (length raw) 23 then none else if not (has_separators raw) then none else do
      calendar ← calendar_of raw
      millis ← number_at raw 20 3
      seconds ←
          if not (in_calendar calendar) || not (all_digits (drop 23 raw))
          then none
          else mktime calendar
      some (to_milliseconds seconds millis)
