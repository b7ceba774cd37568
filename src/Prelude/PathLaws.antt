-- ===== src/Prelude/PathLaws.antt =====
-- The laws of paths and of numbers written in them.
use Prim.Native.Nat.{ℕ, zero, suc, ◌+◌, ◌-◌, ◌*◌, ◌/◌, ◌%◌, ◌^◌, ◌<◌}
use Prim.Native.Char.{Char, code}
use Prim.Native.String.{String, ◌++◌}
use mathlib.Core.Path.{◌≡◌, refl, ◌∙◌, ap, sym}
use mathlib.Core.Logic.{◌≢◌, inl, inr}
use mathlib.Core.Bool.{Bool, true, false, not, ◌&&◌}
use mathlib.Core.Option.{some}
use mathlib.Core.List.{[], ◌∷◌}
use native.Mathlib.Omega.{arith}
use text.Mathlib.TextLemmas.{cons-append, nil-append}
use nats_guest_access.Prelude.Tests.{Bool-cases, ◌==◌}
use nats_guest_access.Prelude.Int.{pos}
use nats_guest_access.Prelude.Text.{digit, digits_from, itoa}
use nats_guest_access.Prelude.Paths.{
  is_slash, is_digit, digits_value, natural, atoi, positive, trim_left_of, trim_right_of,
  trim_prefix, without_prefix, split_path, keep_unless,
}

-- A text that starts with a digit.
abbrev HeadDigit : String → Type 0
HeadDigit String.[] = ⊥
HeadDigit (String.◌∷◌ c s) = is_digit (code c) ≡ true

atoi-HeadDigit : (s : String) → HeadDigit s → atoi s ≡ positive (digits_value 0 s)
unfolding atoi natural
atoi-HeadDigit String.[] h = absurd h
atoi-HeadDigit (String.◌∷◌ c s) h = ground arith

-- A digit is one character.
digit-char :
    (d : ℕ)
    → (c : Char) × (digit d ≡ String.◌∷◌ c String.[])
      × (is_digit (code c) ≡ true)
      × (d < 10 → code c ≡ 48 + d)
digit-char zero = ("0", refl, refl, λ h. refl)
digit-char (suc zero) = ("1", refl, refl, λ h. refl)
digit-char (suc (suc zero)) = ("2", refl, refl, λ h. refl)
digit-char (suc (suc (suc zero))) = ("3", refl, refl, λ h. refl)
digit-char (suc (suc (suc (suc zero)))) = ("4", refl, refl, λ h. refl)
digit-char (suc (suc (suc (suc (suc zero))))) = ("5", refl, refl, λ h. refl)
digit-char (suc (suc (suc (suc (suc (suc zero)))))) = ("6", refl, refl, λ h. refl)
digit-char (suc (suc (suc (suc (suc (suc (suc zero))))))) = ("7", refl, refl, λ h. refl)
digit-char (suc (suc (suc (suc (suc (suc (suc (suc zero)))))))) = ("8", refl, refl, λ h. refl)
digit-char (suc (suc (suc (suc (suc (suc (suc (suc (suc zero))))))))) = ("9", refl, refl, λ h. refl)
digit-char (suc (suc (suc (suc (suc (suc (suc (suc (suc (suc d)))))))))) =
    ("9", refl, refl, λ h. absurd (omega arith))

single : (c : Char) (t : String) → String.◌∷◌ c String.[] ++ t ≡ String.◌∷◌ c t
single c t = rw cons-append (rw nil-append refl)

HeadDigit-digit : (d : ℕ) (t : String) → HeadDigit (digit d ++ t)
HeadDigit-digit d t = let (c, same, is, value) = digit-char d in rw same (rw (single c t) is)

digits_value-digit :
    (acc d : ℕ) (t : String)
    → d < 10
    → digits_value acc (digit d ++ t) ≡ digits_value (acc * 10 + d) t
unfolding digits_value
digits_value-digit acc d t h =
    let (c, same, is, value) = digit-char d in
    rw same (
      rw (single c t)
        (rw is (rw (value h) (ap (λ k. digits_value (acc * 10 + k) t) (add_monus d)))))
  where
    add_monus : (d : ℕ) → 48 + d - 48 ≡ d
    add_monus d = omega arith

HeadDigit-digits_from : (f n : ℕ) (t : String) → HeadDigit t → HeadDigit (digits_from f n t)
unfolding digits_from
HeadDigit-digits_from zero n t h = h
HeadDigit-digits_from (suc f) n t h = elim (Bool-cases (n / 10 == 0)) [
  | inl last ↦ rw last (HeadDigit-digit (n % 10) t)
  | inr more ↦
      rw more (HeadDigit-digits_from f (n / 10) (digit (n % 10) ++ t) (HeadDigit-digit (n % 10) t))
]

HeadDigit-itoa : (n : ℕ) → HeadDigit (itoa n)
unfolding itoa digits_from
HeadDigit-itoa n = elim (Bool-cases (n / 10 == 0)) [
  | inl last ↦ rw last (HeadDigit-digit (n % 10) "")
  | inr more ↦
      rw more
        (HeadDigit-digits_from n (n / 10) (digit (n % 10) ++ "") (HeadDigit-digit (n % 10) ""))
]

digits_value-digits_from :
    (f n : ℕ) (t : String) → n < f → digits_value 0 (digits_from f n t) ≡ digits_value n t
unfolding digits_from
digits_value-digits_from zero n t h = absurd (omega arith)
digits_value-digits_from (suc f) n t h = elim (Bool-cases (n / 10 == 0)) [
  | inl last ↦ rw last (
      digits_value-digit 0 (n % 10) t (omega arith)
      ∙ ap (λ k. digits_value k t) {x = 0 * 10 + n % 10} {y = n} (ground arith))
  | inr more ↦ rw more (
      digits_value-digits_from f (n / 10) (digit (n % 10) ++ t) (ground arith)
      ∙ digits_value-digit (n / 10) (n % 10) t (omega arith)
      ∙ ap (λ k. digits_value k t) {x = n / 10 * 10 + n % 10} {y = n} (omega arith))
]

-- A number that is written is read again.
pub atoi-itoa : (n : ℕ) → n < 2 ^ 63 → atoi (itoa n) ≡ some (pos n)
unfolding itoa digits_value
atoi-itoa n h =
    atoi-HeadDigit (itoa n) (HeadDigit-itoa n)
    ∙ ap positive (digits_value-digits_from (suc n) n "" (omega arith))
    ∙ fits
  where
    fits : positive (some n) ≡ some (pos n)
    fits = ground arith

-- A text without a slash.
unfoldable pub has_no_slash : String → Bool
unfolding is_slash
has_no_slash String.[] = true
has_no_slash (String.◌∷◌ c s) = not (is_slash (code c)) && has_no_slash s

has_no_slash-digit : (d : ℕ) (t : String) → has_no_slash (digit d ++ t) ≡ has_no_slash t
unfolding has_no_slash is_slash
has_no_slash-digit d t =
    let (c, same, is, value) = digit-char d in rw same (rw (single c t) (ground arith))

has_no_slash-digits_from :
    (f n : ℕ) (t : String) → has_no_slash t ≡ true → has_no_slash (digits_from f n t) ≡ true
unfolding digits_from
has_no_slash-digits_from zero n t h = h
has_no_slash-digits_from (suc f) n t h = elim (Bool-cases (n / 10 == 0)) [
  | inl last ↦ rw last (has_no_slash-digit (n % 10) t ∙ h)
  | inr more ↦ rw more (
      has_no_slash-digits_from f (n / 10) (digit (n % 10) ++ t) (has_no_slash-digit (n % 10) t ∙ h))
]

pub has_no_slash-itoa : (n : ℕ) → has_no_slash (itoa n) ≡ true
unfolding itoa has_no_slash
has_no_slash-itoa n = has_no_slash-digits_from (suc n) n "" refl

pub itoa-nonempty : (n : ℕ) → itoa n ≢ ""
itoa-nonempty n h = rw h at (HeadDigit-itoa n)

slashless :
    (c : Char) (s : String)
    → has_no_slash (String.◌∷◌ c s) ≡ true
    → (is_slash (code c) ≡ false) × (has_no_slash s ≡ true)
unfolding has_no_slash is_slash
slashless c s h = ground arith

-- The first segment of a path, and the last.
pub split_path-segment :
    (a b : String) → has_no_slash a ≡ true → split_path (a ++ "/" ++ b) ≡ a ∷ split_path b
unfolding split_path
split_path-segment String.[] b h = rw nil-append (rw cons-append (rw nil-append refl))
split_path-segment (String.◌∷◌ c a) b h =
    let (here, later) = slashless c a h in
    rw cons-append
      (rw (split_path-segment a b later) (rw here (ap (λ w. w ∷ split_path b) (single c a))))

pub split_path-last : (a : String) → has_no_slash a ≡ true → split_path a ≡ a ∷ []
unfolding split_path
split_path-last String.[] h = refl
split_path-last (String.◌∷◌ c a) h =
    let (here, later) = slashless c a h in
    rw (split_path-last a later) (rw here (ap (λ w. w ∷ []) (single c a)))

without_prefix-append : (p s : String) → without_prefix p (p ++ s) ≡ some s
unfolding without_prefix
without_prefix-append String.[] s = rw nil-append refl
without_prefix-append (String.◌∷◌ c p) s =
    rw cons-append (ground (arith, without_prefix-append p s))

pub trim_prefix-append : (p s : String) → trim_prefix p (p ++ s) ≡ s
unfolding trim_prefix
trim_prefix-append p s = rw (without_prefix-append p s, trim_prefix) refl

-- Nothing to trim before a segment, and after one.
pub trim_left_of-segment :
    (a b : String) → a ≢ "" → has_no_slash a ≡ true → trim_left_of is_slash (a ++ b) ≡ a ++ b
unfolding trim_left_of has_no_slash
trim_left_of-segment String.[] b ne h = absurd (ne refl)
trim_left_of-segment (String.◌∷◌ c a) b ne h = rw cons-append (ground arith)

pub trim_right_of-last : (a : String) → has_no_slash a ≡ true → trim_right_of is_slash a ≡ a
unfolding trim_right_of has_no_slash keep_unless
trim_right_of-last String.[] h = refl
trim_right_of-last (String.◌∷◌ c a) h = ground (arith, trim_right_of-last a)

kept : (b : Bool) (s whole : String) → s ≢ "" → keep_unless b s whole ≡ whole
unfolding keep_unless
kept true String.[] whole ne = absurd (ne refl)
kept true (String.◌∷◌ c s) whole ne = refl
kept false s whole ne = refl

pub append_nonempty : (a b : String) → b ≢ "" → a ++ b ≢ ""
append_nonempty String.[] b ne h = ne (sym (nil-append b) ∙ h)
append_nonempty (String.◌∷◌ c a) b ne h =
    absurd (cons_nonempty c (a ++ b) (sym (cons-append c a b) ∙ h))
  where
    cons_nonempty : (c : Char) (s : String) → String.◌∷◌ c s ≢ ""
    cons_nonempty c s h = cc

pub trim_right_of-append :
    (a b : String)
    → b ≢ ""
    → trim_right_of is_slash b ≡ b
    → trim_right_of is_slash (a ++ b) ≡ a ++ b
unfolding trim_right_of
trim_right_of-append String.[] b ne h = rw nil-append h
trim_right_of-append (String.◌∷◌ c a) b ne h = rw cons-append (
    rw (trim_right_of-append a b ne h)
      (kept (is_slash (code c)) (a ++ b) _ (append_nonempty a b ne)))
