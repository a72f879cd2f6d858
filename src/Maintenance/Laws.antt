-- ===== src/Maintenance/Laws.antt =====
-- internal/maintenance/window.go: the schedules that `New` accepts.
use eth_node_operator.Common.{
  ℕ, ◌≤◌, String, ◌≡◌, refl, Bool, true, false, List, [], ◌∷◌, Option, none, some, ◌⊎◌, arith,
  Result, ok, err, map_err, map_result, ◌==◌, subst, sym, ap, inl, inr, eqb, ok-inj, if◌then◌else◌,
}
use eth_node_operator.Common.Int.{ℤ, pos, negsuc}
use eth_node_operator.Common.Text.{fields, trim_space}
use eth_node_operator.Maintenance.{
  Window, CronSchedule, parse_field, in_range, parse_dow, to_weekday, with_dow, with_hour,
  with_minute, parse_fields, parse_cron, new, atoi,
}

-- A number from 0 up to the bound.
pub record UpTo (bound : ℕ) (v : ℤ) : Type 0 where
  pub value : ℕ
  pub is_value : v ≡ pos value
  pub fits : value ≤ bound

-- A weekday, or -1 for all.
abbrev pub IsWeekday : ℤ → Type 0
IsWeekday v = (v ≡ negsuc 0) ⊎ UpTo 6 v

pub record InRange (c : CronSchedule) : Type 0 where
  pub minute : UpTo 59 c.minute
  pub hour : UpTo 23 c.hour
  pub weekday : IsWeekday c.weekday

in_range-UpTo :
    (s : String) (bound : ℕ) (o : Option ℤ) (v : ℤ)
    → in_range s (pos 0) (pos bound) o ≡ ok v
    → UpTo bound v
in_range-UpTo s bound none v h = cc
in_range-UpTo s bound (some (negsuc n)) v h = cc
in_range-UpTo s bound (some (pos n)) v h = record {
  value = n;
  is_value = ground arith;
  fits = ground arith;
}

field-UpTo :
    (is_star : Bool) (s : String) (bound : ℕ) (v : ℤ)
    → (if is_star then ok (pos 0) else in_range s (pos 0) (pos bound) (atoi s)) ≡ ok v
    → UpTo bound v
field-UpTo true s bound v h = record { value = 0; is_value = ground arith; fits = omega arith }
field-UpTo false s bound v h = in_range-UpTo s bound (atoi s) v h

wrapped-UpTo :
    (f : String → String) (bound : ℕ) (r : Result ℤ) (v : ℤ)
    → ((v : ℤ) → r ≡ ok v → UpTo bound v)
    → map_err f r ≡ ok v
    → UpTo bound v
wrapped-UpTo f bound (ok a) v k h = k v h
wrapped-UpTo f bound (err e) v k h = cc

to_weekday-UpTo : (v : ℤ) → UpTo 7 v → UpTo 6 (to_weekday v)
to_weekday-UpTo (negsuc n) u = ground (arith, u.is_value)
to_weekday-UpTo (pos n) u = record {
  value = if eqb n 7 then 0 else n;
  is_value = ground arith;
  fits = ground (arith, u.is_value, u.fits);
}

dow-IsWeekday :
    (f : String → String) (r : Result ℤ) (v : ℤ)
    → ((v : ℤ) → r ≡ ok v → UpTo 7 v)
    → map_err f (map_result to_weekday r) ≡ ok v
    → UpTo 6 v
dow-IsWeekday f (ok a) v k h = subst (UpTo 6) (ok-inj h) (to_weekday-UpTo a (k a refl))
dow-IsWeekday f (err e) v k h = cc

starred-IsWeekday :
    (is_star : Bool) (r : Result ℤ) (v : ℤ)
    → ((v : ℤ) → r ≡ ok v → UpTo 6 v)
    → (if is_star then ok (negsuc 0) else r) ≡ ok v
    → IsWeekday v
starred-IsWeekday true r v k h = inl (sym (ok-inj h))
starred-IsWeekday false r v k h = inr (k v h)

with_dow-InRange :
    (min hour : ℤ) (r : Result ℤ) (c : CronSchedule)
    → UpTo 59 min
    → UpTo 23 hour
    → ((v : ℤ) → r ≡ ok v → IsWeekday v)
    → with_dow min hour r ≡ ok c
    → InRange c
with_dow-InRange min hour (ok dow) c m n k h =
    subst InRange (ok-inj h) (record { minute = m; hour = n; weekday = k dow refl })
with_dow-InRange min hour (err e) c m n k h = cc

parse_dow-IsWeekday : (dow : String) (v : ℤ) → parse_dow dow ≡ ok v → IsWeekday v
parse_dow-IsWeekday dow v h =
    starred-IsWeekday (dow == "*") _ v
      (λ u e. dow-IsWeekday _ (parse_field dow (pos 0) (pos 7)) u (field-UpTo (dow == "*") dow 7) e)
      h

with_hour-InRange :
    (min : ℤ) (r : Result ℤ) (dow : String) (c : CronSchedule)
    → UpTo 59 min
    → ((v : ℤ) → r ≡ ok v → UpTo 23 v)
    → with_hour min r dow ≡ ok c
    → InRange c
with_hour-InRange min (ok hour) dow c m k h =
    with_dow-InRange min hour (parse_dow dow) c m (k hour refl) (parse_dow-IsWeekday dow) h
with_hour-InRange min (err e) dow c m k h = cc

with_minute-InRange :
    (r : Result ℤ) (hour dow : String) (c : CronSchedule)
    → ((v : ℤ) → r ≡ ok v → UpTo 59 v)
    → with_minute r hour dow ≡ ok c
    → InRange c
with_minute-InRange (ok min) hour dow c k h =
    with_hour-InRange min _ dow c (k min refl)
      (λ v.
        wrapped-UpTo _ 23 (parse_field hour (pos 0) (pos 23)) v (field-UpTo (hour == "*") hour 23))
      h
with_minute-InRange (err e) hour dow c k h = cc

parse_fields-InRange :
    (words : List String) (c : CronSchedule) → parse_fields words ≡ ok c → InRange c
parse_fields-InRange [] c h = cc
parse_fields-InRange (a ∷ []) c h = cc
parse_fields-InRange (a ∷ b ∷ []) c h = cc
parse_fields-InRange (a ∷ b ∷ d ∷ []) c h = cc
parse_fields-InRange (a ∷ b ∷ d ∷ e ∷ []) c h = cc
parse_fields-InRange (min ∷ hour ∷ dom ∷ month ∷ dow ∷ []) c h =
    with_minute-InRange _ hour dow c
      (λ v. wrapped-UpTo _ 59 (parse_field min (pos 0) (pos 59)) v (field-UpTo (min == "*") min 59))
      h
parse_fields-InRange (a ∷ b ∷ d ∷ e ∷ f ∷ g ∷ words) c h = cc

new_window :
    (f : String → String) (expr : String) (r : Result CronSchedule) (w : Window)
    → map_err f (map_result (λ parsed. record { schedule = expr; parsed = parsed }) r) ≡ ok w
    → r ≡ ok w.parsed
new_window f expr (ok c) w h = ap (λ x. ok x.parsed) (ok-inj h)
new_window f expr (err e) w h = cc

-- A schedule that `New` accepts has a minute below 60, an hour below 24, and a weekday below 7 or none.
pub new-InRange : (expr : String) (w : Window) → new expr ≡ ok w → InRange w.parsed
unfolding parse_cron
new-InRange expr w h =
    parse_fields-InRange (fields (trim_space expr)) w.parsed (new_window _ expr _ w h)
