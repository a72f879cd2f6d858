-- ===== src/Maintenance.antt =====
-- internal/maintenance/window.go: maintenance windows. A time is the count of minutes since the year 1 in UTC, with what has
-- passed of its minute in nanoseconds, and a location: the minutes since the year 1 that the location's clock shows at a
-- minute of UTC, summer time included. The first day of the year 1 is a Monday.
mod Laws
mod Opening
mod Tests
use eth_node_operator.Common.{
  ℕ, zero, suc, ◌+◌, ◌/◌, ◌%◌, String, ◌<>◌, Bool, true, false, not, ◌&&◌, ◌||◌, Option, none, some,
  List, [], ◌∷◌, ltb, if◌then◌else◌, ◌==◌, length, Result, ok, err, map_err, map_result,
}
use eth_node_operator.Common.Int.{ℤ, pos, negsuc, int_eq, int_ltb, int_leb, show_int, atoi}
use eth_node_operator.Common.Text.{trim_space, fields, decimal}

pub record Time : Type 0 where
  pub minutes : ℕ
  pub nanoseconds : ℕ
  pub location : ℕ → ℕ

-- `t.UTC()`: the same instant with the clock of UTC.
abbrev pub utc : Time → Time
utc t = record t { location = λ m. m }

-- The minutes on the clock of the time's location.
abbrev pub clock : Time → ℕ
clock t = t.location t.minutes

-- `now.Weekday()`, with Sunday as 0.
abbrev pub weekday_of : Time → ℕ
weekday_of t = (clock t / 1440 + 1) % 7

abbrev pub hour_of : Time → ℕ
hour_of t = clock t / 60 % 24

abbrev pub minute_of : Time → ℕ
minute_of t = clock t % 60

pub record CronSchedule : Type 0 where
  pub minute : ℤ
  pub hour : ℤ
  pub weekday : ℤ

pub record Window : Type 0 where
  pub schedule : String
  pub parsed : CronSchedule

abbrev pub in_range : String → ℤ → ℤ → Option ℤ → Result ℤ
in_range s min max none = err ("not a number: \"" <> s <> "\"")
in_range s min max (some v) =
    if int_ltb v min || int_ltb max v
    then err
        ("value " <> show_int v <> " out of range [" <> show_int min <> ", " <> show_int max <> "]")
    else ok v

abbrev pub parse_field : String → ℤ → ℤ → Result ℤ
parse_field s min max = if s == "*" then ok min else in_range s min max (atoi s)

-- Sunday can be 0 or 7.
abbrev pub to_weekday : ℤ → ℤ
to_weekday v = if int_eq v (pos 7) then pos 0 else v

abbrev pub parse_dow : String → Result ℤ
parse_dow s =
    if s == "*"
    then ok (negsuc 0)
    else map_err (λ e. "invalid dow \"" <> s <> "\": " <> e)
        (map_result to_weekday (parse_field s (pos 0) (pos 7)))

abbrev pub with_dow : ℤ → ℤ → Result ℤ → Result CronSchedule
with_dow min hour (ok dow) = ok (record { minute = min; hour = hour; weekday = dow })
with_dow min hour (err e) = err e

abbrev pub with_hour : ℤ → Result ℤ → String → Result CronSchedule
with_hour min (ok hour) dow = with_dow min hour (parse_dow dow)
with_hour min (err e) dow = err e

abbrev pub with_minute : Result ℤ → String → String → Result CronSchedule
with_minute (ok min) hour dow =
    with_hour min
      (map_err (λ e. "invalid hour \"" <> hour <> "\": " <> e) (parse_field hour (pos 0) (pos 23)))
      dow
with_minute (err e) hour dow = err e

-- The fields of the day of the month and of the month are not read.
abbrev pub parse_fields : List String → Result CronSchedule
parse_fields (min ∷ hour ∷ dom ∷ month ∷ dow ∷ []) =
    with_minute
      (map_err (λ e. "invalid minute \"" <> min <> "\": " <> e) (parse_field min (pos 0) (pos 59)))
      hour dow
parse_fields words = err ("expected 5 fields, got " <> decimal (length words))

unfoldable pub parse_cron : String → Result CronSchedule
parse_cron expr = parse_fields (fields (trim_space expr))

abbrev pub new : String → Result Window
new expr =
    map_err (λ e. "parse cron \"" <> expr <> "\": " <> e)
      (map_result (λ parsed. record { schedule = expr; parsed = parsed }) (parse_cron expr))

abbrev pub is_open : Window → Time → Bool
is_open w now =
    if int_leb (pos 0) w.parsed.weekday && not (int_eq (pos (weekday_of now)) w.parsed.weekday)
    then false
    else if not (int_eq (pos (hour_of now)) w.parsed.hour)
    then false
    else if int_ltb (pos (minute_of now)) w.parsed.minute
    then false
    else true

abbrev pub add_minute : Time → Time
add_minute t = record t { minutes = t.minutes + 1 }

-- The rounds of the search that are left; `none` is the zero time.
abbrev pub search_open : Window → ℕ → Time → Option Time
search_open w zero t = none
search_open w (suc rounds) t =
    let rest = search_open w rounds (add_minute t) in
    if is_open w (add_minute t) then some (add_minute t) else rest

-- `from.Truncate(time.Minute)` drops what has passed of the minute.
unfoldable pub next_open : Window → Time → Option Time
next_open w from = search_open w 10080 (record from { nanoseconds = 0 })
