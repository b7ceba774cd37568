-- ===== src/Access/Names.antt =====
-- What CreateEvent asks of names: strings.TrimSpace and the pattern of application IDs,
-- `^[a-z][a-z0-9_-]{0,62}$`.
use Prim.Native.Char.{code}
use nats_guest_access.Prelude.{
  ℕ, zero, suc, String, Bool, true, false, ◌&&◌, ◌||◌, ◌≡◌, refl, leb, ◌==◌, trim_left_of,
  trim_right_of,
}

-- unicode.IsSpace
is_space : ℕ → Bool
is_space c =
    leb 9 c && leb c 13
    || c == 32
    || c == 0x85
    || c == 0xa0
    || c == 0x1680
    || leb 0x2000 c && leb c 0x200a
    || c == 0x2028
    || c == 0x2029
    || c == 0x202f
    || c == 0x205f
    || c == 0x3000

unfoldable pub trim_space : String → String
unfolding is_space trim_left_of trim_right_of
trim_space s = trim_right_of is_space (trim_left_of is_space s)

is_lower : ℕ → Bool
is_lower c = leb b'a' c && leb c b'z'

is_id_char : ℕ → Bool
unfolding is_lower
is_id_char c = is_lower c || leb b'0' c && leb c b'9' || c == b'_' || c == b'-'

-- At most `room` characters of the class, and nothing after them.
id_tail : ℕ → String → Bool
unfolding is_id_char
id_tail room String.[] = true
id_tail zero (String.◌∷◌ c s) = false
id_tail (suc room) (String.◌∷◌ c s) = is_id_char (code c) && id_tail room s

unfoldable pub is_application_id : String → Bool
unfolding id_tail is_lower
is_application_id String.[] = false
is_application_id (String.◌∷◌ c s) = is_lower (code c) && id_tail 62 s

trim_space_test : trim_space " a talk\n" ≡ "a talk"
unfolding trim_space
trim_space_test = refl

is_application_id_tests :
    (is_application_id "whengas" ≡ true)
    × (is_application_id "demo-app_2" ≡ true)
    × (is_application_id "2demo" ≡ false)
    × (is_application_id "Demo" ≡ false)
    × (is_application_id "" ≡ false)
unfolding is_application_id
is_application_id_tests = (refl, refl, refl, refl, refl)
