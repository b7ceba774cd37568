-- ===== src/Prelude/Text.antt =====
-- What the program uses of Go's `strings` and `fmt` on texts, and the laws of prefixes.
use Prim.Native.Nat.{ℕ, zero, suc, ◌/◌, ◌%◌}
use Prim.Native.Char.{code}
use Prim.Native.String.{String, ◌++◌}
use mathlib.Core.Path.{◌≡◌, refl}
use mathlib.Core.Bool.{Bool, true, false, ◌&&◌}
use native.Mathlib.Omega.{arith}
use text.Mathlib.TextLemmas.{cons-append, append_cancel_left}
use nats_guest_access.Prelude.Tests.{◌==◌, if◌then◌else◌}

-- strings.HasPrefix, with the prefix first.
unfoldable pub has_prefix : String → String → Bool
has_prefix String.[] s = true
has_prefix (String.◌∷◌ c p) String.[] = false
has_prefix (String.◌∷◌ c p) (String.◌∷◌ d s) = code c == code d && has_prefix p s

-- The decimal digit of a number below ten.
abbrev pub digit : ℕ → String
digit zero = "0"
digit (suc zero) = "1"
digit (suc (suc zero)) = "2"
digit (suc (suc (suc zero))) = "3"
digit (suc (suc (suc (suc zero)))) = "4"
digit (suc (suc (suc (suc (suc zero))))) = "5"
digit (suc (suc (suc (suc (suc (suc zero)))))) = "6"
digit (suc (suc (suc (suc (suc (suc (suc zero))))))) = "7"
digit (suc (suc (suc (suc (suc (suc (suc (suc zero)))))))) = "8"
digit _ = "9"

-- The digits of `n` before `tail`; more fuel than digits is enough.
unfoldable pub digits_from : ℕ → ℕ → String → String
digits_from zero n tail = tail
digits_from (suc fuel) n tail =
    let t = digit (n % 10) ++ tail in
    let more = digits_from fuel (n / 10) t in if n / 10 == 0 then t else more

-- strconv.Itoa of a number that is not negative.
unfoldable pub itoa : ℕ → String
unfolding digits_from
itoa n = digits_from (suc n) n ""

-- The verb %03d of fmt.Sprintf, for a number that is not negative.
unfoldable pub pad3 : ℕ → String
unfolding itoa
pad3 n = (if n / 100 == 0 then (if n / 10 == 0 then "00" else "0") else "") ++ itoa n

itoa_tests : itoa 0 ≡ "0"
unfolding itoa
itoa_tests = refl

pad3_test : pad3 7 ++ pad3 42 ++ pad3 1234 ≡ "0070421234"
unfolding pad3
pad3_test = refl

pub has_prefix-append : (p s : String) → has_prefix p (p ++ s) ≡ true
unfolding has_prefix
has_prefix-append String.[] s = refl
has_prefix-append (String.◌∷◌ c p) s = rw cons-append (ground (arith, has_prefix-append p s))

pub append_cancel : (p s t : String) → p ++ s ≡ p ++ t → s ≡ t
append_cancel p s t h = append_cancel_left p s t h
