-- ===== src/Prelude/Paths.antt =====
-- What the program uses of Go's `strings` and `strconv` on paths, URLs and numbers.
use Prim.Native.Nat.{ℕ, zero, suc, ◌+◌, ◌-◌, ◌*◌, ◌^◌}
use Prim.Native.Char.{code}
use Prim.Native.String.{String, ◌++◌}
use mathlib.Core.Path.{◌≡◌, refl}
use mathlib.Core.Bool.{Bool, true, ◌&&◌}
use mathlib.Core.Option.{Option, none, some}
use mathlib.Core.List.{List, [], ◌∷◌}
use nats_guest_access.Prelude.Tests.{ltb, leb, ◌==◌, if◌then◌else◌}
use nats_guest_access.Prelude.Int.{ℤ, pos, negsuc}

-- Without the leading characters whose codes satisfy the test.
unfoldable pub trim_left_of : (ℕ → Bool) → String → String
trim_left_of test String.[] = String.[]
trim_left_of test (String.◌∷◌ c s) =
    let shorter = trim_left_of test s in if test (code c) then shorter else String.◌∷◌ c s

unfoldable pub keep_unless : Bool → String → String → String
keep_unless true String.[] whole = String.[]
keep_unless _ _ whole = whole

-- Without the trailing ones.
unfoldable pub trim_right_of : (ℕ → Bool) → String → String
unfolding keep_unless
trim_right_of test String.[] = String.[]
trim_right_of test (String.◌∷◌ c s) =
    let shorter = trim_right_of test s in keep_unless (test (code c)) shorter (String.◌∷◌ c shorter)

unfoldable pub is_slash : ℕ → Bool
is_slash c = c == b'/'

-- What follows the prefix, if the text has it.
unfoldable pub without_prefix : String → String → Option String
without_prefix String.[] s = some s
without_prefix (String.◌∷◌ c p) String.[] = none
without_prefix (String.◌∷◌ c p) (String.◌∷◌ d s) =
    let more = without_prefix p s in if code c == code d then more else none

-- strings.TrimPrefix, with the prefix first.
unfoldable pub trim_prefix : String → String → String
unfolding without_prefix
trim_prefix p s = elim (without_prefix p s) [ none ↦ s | some t ↦ t ]

abbrev onto_first : String → List String → List String
onto_first c [] = c ∷ []
onto_first c (w ∷ ws) = (c ++ w) ∷ ws

-- strings.Split(s, "/")
unfoldable pub split_path : String → List String
unfolding is_slash
split_path String.[] = "" ∷ []
split_path (String.◌∷◌ c s) =
    let more = split_path s in
    if is_slash (code c) then "" ∷ more else onto_first (String.◌∷◌ c String.[]) more

abbrev pub is_digit : ℕ → Bool
is_digit c = leb b'0' c && leb c b'9'

-- The number that the digits continue.
unfoldable pub digits_value : ℕ → String → Option ℕ
digits_value n String.[] = some n
digits_value n (String.◌∷◌ c s) =
    let more = digits_value (n * 10 + (code c - b'0')) s in if is_digit (code c) then more else none

-- The number that a text of digits writes.
unfoldable pub natural : String → Option ℕ
unfolding digits_value
natural String.[] = none
natural (String.◌∷◌ c s) = digits_value 0 (String.◌∷◌ c s)

abbrev negated : ℕ → ℤ
negated zero = pos 0
negated (suc n) = negsuc n

-- A number of an int, 64 bits wide.
abbrev pub positive : Option ℕ → Option ℤ
positive none = none
positive (some n) = if ltb n (2 ^ 63) then some (pos n) else none

abbrev negative : Option ℕ → Option ℤ
negative none = none
negative (some n) = if leb n (2 ^ 63) then some (negated n) else none

-- strconv.Atoi
unfoldable pub atoi : String → Option ℤ
unfolding natural
atoi String.[] = none
atoi (String.◌∷◌ c s) =
    if code c == b'-'
    then negative (natural s)
    else if code c == b'+'
    then positive (natural s)
    else positive (natural (String.◌∷◌ c s))

atoi_tests :
    (atoi "12" ≡ some (pos 12))
    × (atoi "-3" ≡ some (negsuc 2))
    × (atoi "+7" ≡ some (pos 7))
    × (atoi "" ≡ none)
    × (atoi "1x" ≡ none)
    × (atoi "9223372036854775808" ≡ none)
unfolding atoi
atoi_tests = (refl, refl, refl, refl, refl, refl)

split_path_tests :
    (split_path "a/slots/3" ≡ "a" ∷ "slots" ∷ "3" ∷ [])
    × (split_path "" ≡ "" ∷ [])
    × (trim_prefix "/v1/" "/v1/x/" ≡ "x/")
    × (trim_right_of is_slash (trim_left_of is_slash "//x//") ≡ "x")
unfolding split_path trim_prefix trim_right_of trim_left_of is_slash
split_path_tests = (refl, refl, refl, refl)
