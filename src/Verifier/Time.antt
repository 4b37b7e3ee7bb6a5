-- ===== src/Verifier/Time.antt =====
-- Time stamps of pkg/verifier/helpers.go: `time.Parse(time.RFC3339, ts)` with the liberties that Go's
-- parser takes (an hour of one digit, a fraction behind `.` or `,`), and the choice of the earliest.
use Prim.Native.Char.{code}
use intentproof_tools.Prelude.{
  ℕ, suc, ◌+◌, ◌-◌, ◌*◌, ◌/◌, ◌%◌, ◌^◌, String, List, [], ◌∷◌, Bool, true, false, not, ◌&&◌, ◌||◌,
  Option, none, some, ltb, leb, ◌==◌, Eq-ℕ, Eq-String, if◌then◌else◌,
}
use intentproof_tools.Prelude.Int.{ℤ, pos, ltb_ℤ, sub_ℕ}
use intentproof_tools.Value.{eq_ℤ}
use intentproof_tools.Verifier.Types.{Event}

-- Nanoseconds from the start of the year 1, which is Go's zero time.
abbrev pub Time : Type 0
Time = ℤ

abbrev pub zero_time : Time
zero_time = pos 0

abbrev pub is_zero : Time → Bool
is_zero t = eq_ℤ t zero_time

abbrev pub before : Time → Time → Bool
before t u = ltb_ℤ t u

abbrev pub after : Time → Time → Bool
after t u = ltb_ℤ u t

infixl 5 ◌>>=◌
abbrev ◌>>=◌ : {A B : Type 0} → Option A → (A → Option B) → Option B
none >>= f = none
some a >>= f = f a

abbrev check : Bool → Option (Unit {0})
check true = some tt
check false = none

abbrev ◌>>◌ : {B : Type 0} → Option (Unit {0}) → Option B → Option B
m >> k = m >>= λ _. k

infixl 5 ◌>>◌
abbrev Text : Type 0
Text = List ℕ

-- The code points of a text.
codes : String → Text
codes String.[] = []
codes (String.◌∷◌ c s) = code c ∷ codes s

is_digit : ℕ → Bool
is_digit c = leb b'0' c && leb c b'9'

-- `getnum`; the flag asks for two digits.
get_num : Bool → Text → Option (ℕ × Text)
unfolding is_digit
get_num fixed [] = none
get_num fixed (a ∷ []) = if is_digit a && not fixed then some (a - b'0', []) else none
get_num fixed (a ∷ b ∷ r) =
    if not (is_digit a)
    then none
    else if is_digit b
    then some ((a - b'0') * 10 + (b - b'0'), r)
    else if fixed
    then none
    else some (a - b'0', b ∷ r)

get_year : Text → Option (ℕ × Text)
unfolding is_digit
get_year (a ∷ b ∷ c ∷ d ∷ r) =
    if is_digit a && is_digit b && is_digit c && is_digit d
    then some ((a - b'0') * 1000 + (b - b'0') * 100 + (c - b'0') * 10 + (d - b'0'), r)
    else none
get_year _ = none

skip : ℕ → Text → Option Text
skip c [] = none
skip c (d ∷ r) = if d == c then some r else none

-- The digits of a fraction: nine count, the rest is dropped.
fraction : ℕ → ℕ → Text → ℕ × Text
unfolding is_digit
fraction left ns [] = (ns * 10 ^ left, [])
fraction left ns (c ∷ r) =
    let stop : ℕ × Text = (ns * 10 ^ left, c ∷ r) in
    let more = fraction (left - 1) (if left == 0 then ns else ns * 10 + (c - b'0')) r in
    if is_digit c then more else stop

get_fraction : Text → ℕ × Text
unfolding fraction is_digit
get_fraction (p ∷ d ∷ r) =
    if (p == b'.' || p == b',') && is_digit d then fraction 9 0 (d ∷ r) else (0, p ∷ d ∷ r)
get_fraction s = (0, s)

-- The offset in seconds, east of UTC and west of it.
get_offset : Text → Option (ℕ × ℕ)
unfolding get_num skip
get_offset [] = none
get_offset (c ∷ r) = if c == b'Z' then elim r [ [] ↦ some (0, 0) | _ ∷ _ ↦ none ] else do
  (hr, r₁) ← get_num true r
  r₂ ← skip b':' r₁
  (mm, r₃) ← get_num true r₂
  check (leb hr 24 && leb mm 60)
  check (elim r₃ [ [] ↦ true | _ ∷ _ ↦ false ])
  if c == b'+'
      then some ((hr * 60 + mm) * 60, 0)
      else if c == b'-'
      then some (0, (hr * 60 + mm) * 60)
      else none

is_leap : ℕ → Bool
is_leap y = y % 4 == 0 && (not (y % 100 == 0) || y % 400 == 0)

-- Days before a month, and in it.
month_start : ℕ → ℕ → ℕ
unfolding is_leap
month_start y m =
    let leap : ℕ = if is_leap y && ltb 2 m then 1 else 0 in
    leap
    + (if m == 1
        then 0
        else if m == 2
        then 31
        else if m == 3
        then 59
        else if m == 4
        then 90
        else if m == 5
        then 120
        else if m == 6
        then 151
        else if m == 7
        then 181
        else if m == 8
        then 212
        else if m == 9
        then 243
        else if m == 10
        then 273
        else if m == 11
        then 304
        else if m == 12
        then 334
        else 365)

days_in : ℕ → ℕ → ℕ
unfolding month_start
days_in y m = month_start y (suc m) - month_start y m

-- Days from the start of the year 0 to the start of a year.
year_start : ℕ → ℕ
year_start y = 365 * y + (y + 3) / 4 - (y + 99) / 100 + (y + 399) / 400

unfoldable pub parse_rfc3339 : String → Option Time
unfolding codes get_year get_num skip get_fraction get_offset days_in year_start
parse_rfc3339 ts = do
  (year, s₁) ← get_year (codes ts)
  s₂ ← skip b'-' s₁
  (month, s₃) ← get_num true s₂
  check (leb 1 month && leb month 12)
  s₄ ← skip b'-' s₃
  (day, s₅) ← get_num true s₄
  s₆ ← skip b'T' s₅
  (hour, s₇) ← get_num false s₆
  check (ltb hour 24)
  s₈ ← skip b':' s₇
  (minute, s₉) ← get_num true s₈
  check (ltb minute 60)
  s₁₀ ← skip b':' s₉
  (sec, s₁₁) ← get_num true s₁₀
  check (ltb sec 60)
  let (ns, s₁₂) = get_fraction s₁₁
  (east, west) ← get_offset s₁₂
  check (leb 1 day && leb day (days_in year month))
  let days = year_start year + month_start year month + (day - 1)
  some (
      sub_ℕ ((days * 86400 + hour * 3600 + minute * 60 + sec + west) * 1000000000 + ns)
        ((366 * 86400 + east) * 1000000000))

unfoldable pub parse_event_time : String → Time
parse_event_time ts =
    if ts == "" then zero_time else elim (parse_rfc3339 ts) [ none ↦ zero_time | some t ↦ t ]

-- The body of the loop of `earliestCompletion`.
unfoldable pub earlier : Time → Time → Time
earlier earliest t =
    if not (is_zero t) && (is_zero earliest || before t earliest) then t else earliest

-- The loop of `earliestCompletion`; zero stands for "none yet".
unfoldable pub earliest_from : Time → List Event → Time
earliest_from earliest [] = earliest
earliest_from earliest (e ∷ events) =
    earliest_from (earlier earliest (parse_event_time e.completed_at)) events

unfoldable pub earliest_completion : List Event → Time
unfolding earliest_from
earliest_completion events = earliest_from zero_time events
