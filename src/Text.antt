-- ===== src/Text.antt =====
-- The operations on `str` of Rust's standard library that the playback code uses.
use Prim.Native.Char.{Char, code}
use Prim.Native.String.{[], ◌∷◌, ◌++◌, char_at}
use mathlib.Core.List
use text.Mathlib.Text.{starts_with, find?}
use transonic.Prelude.{
  ℕ, zero, suc, ◌-◌, ◌/◌, ◌%◌, ◌≡◌, refl, String, Bool, true, false, ◌&&◌, ◌||◌, Option, none, some,
  ltb, leb, ◌==◌, if◌then◌else◌, str_eq, is_some,
}

-- `str::contains`.
unfoldable pub str_contains : String → String → Bool
str_contains s pattern = is_some (find? s pattern)

abbrev pub char_count : String → ℕ
char_count [] = 0
char_count (c ∷ s) = suc (char_count s)

-- `s.replace(pattern, "")` for a pattern that is not empty: `skip` characters of the last occurrence
-- are still to be dropped.
remove_from : String → ℕ → String → String
remove_from pattern skip [] = []
remove_from pattern (suc skip) (c ∷ s) = remove_from pattern skip s
remove_from pattern zero (c ∷ s) =
    let found = starts_with (c ∷ s) pattern in
    let rest = remove_from pattern (if found then char_count pattern - 1 else 0) s in
    if found then rest else c ∷ rest

unfoldable pub str_remove : String → String → String
unfolding remove_from
str_remove s pattern = remove_from pattern 0 s

-- The code points with the Unicode property White_Space.
is_whitespace : Char → Bool
is_whitespace c =
    let n = code c in
    (leb 9 n && leb n 13)
    || n == 32
    || n == 0x85
    || n == 0xA0
    || n == 0x1680
    || (leb 0x2000 n && leb n 0x200A)
    || n == 0x2028
    || n == 0x2029
    || n == 0x202F
    || n == 0x205F
    || n == 0x3000

trim_start : String → String
trim_start [] = []
trim_start (c ∷ s) = let rest = trim_start s in if is_whitespace c then rest else c ∷ s

trim_end : String → String
trim_end [] = []
trim_end (c ∷ s) =
    let rest = trim_end s in if is_whitespace c && str_eq rest "" then [] else c ∷ rest

-- `str::trim`.
unfoldable pub trim : String → String
unfolding is_whitespace trim_start trim_end
trim s = trim_end (trim_start s)

ascii_lower : Char → Char
ascii_lower c =
    if leb 65 (code c) && leb (code c) 90
    then char_at "abcdefghijklmnopqrstuvwxyz" (code c - 65)
    else c

-- `str::to_ascii_lowercase`.
unfoldable pub to_ascii_lowercase : String → String
unfolding ascii_lower
to_ascii_lowercase [] = []
to_ascii_lowercase (c ∷ s) = ascii_lower c ∷ to_ascii_lowercase s

decimal_from : ℕ → ℕ → String → String
decimal_from zero n rest = rest
decimal_from (suc fuel) n rest =
    let shorter = decimal_from fuel (n / 10) (char_at "0123456789" (n % 10) ∷ rest) in
    if ltb n 10 then char_at "0123456789" (n % 10) ∷ rest else shorter

-- A number in a `format!`: no number of 64 bits has more than 20 digits.
unfoldable pub decimal : ℕ → String
unfolding decimal_from
decimal n = decimal_from 20 n []

-- A `format!` as its pieces.
unfoldable pub format : List.List String → String
format List.[] = []
format (List.◌∷◌ piece pieces) = piece ++ format pieces

-- `trim_start_matches('/')`.
unfoldable pub trim_start_slashes : String → String
trim_start_slashes [] = []
trim_start_slashes (c ∷ s) =
    let rest = trim_start_slashes s in if code c == b'/' then rest else c ∷ s

-- Whether the text is the suffix, one or more times; `skip` characters of a copy are passed.
is_repeated : String → ℕ → String → Bool
is_repeated suffix zero [] = true
is_repeated suffix (suc skip) [] = false
is_repeated suffix (suc skip) (c ∷ s) = is_repeated suffix skip s
is_repeated suffix zero (c ∷ s) =
    let rest = is_repeated suffix (char_count suffix - 1) s in starts_with (c ∷ s) suffix && rest

-- `trim_end_matches(suffix)` for a suffix that is not empty.
unfoldable pub trim_end_matches : String → String → String
unfolding is_repeated
trim_end_matches suffix [] = []
trim_end_matches suffix (c ∷ s) =
    let rest = trim_end_matches suffix s in if is_repeated suffix 0 (c ∷ s) then [] else c ∷ rest

-- The text before the first `:`, if there is one: `split_once(':')`.
unfoldable pub before_colon : String → Option String
before_colon [] = none
before_colon (c ∷ s) =
    let rest = before_colon s in
    if code c == b':' then some [] else elim rest [ none ↦ none | some t ↦ some (c ∷ t) ]

trim_test : trim "  a b " ≡ "a b"
unfolding trim
trim_test = refl

remove_test : str_remove "xabyabz" "ab" ≡ "xyz"
unfolding str_remove
remove_test = refl

decimal_test : decimal 1200345 ≡ "1200345"
unfolding decimal
decimal_test = refl

lower_test : str_contains (to_ascii_lowercase "No Prepared STREAM here") "no prepared stream" ≡ true
unfolding str_contains to_ascii_lowercase
lower_test = refl

endpoint_test : trim_end_matches ".view" (trim_start_slashes "//rest/stream.view") ≡ "rest/stream"
unfolding trim_end_matches trim_start_slashes
endpoint_test = refl

colon_test : before_colon "wasapi:dev:1" ≡ some "wasapi"
unfolding before_colon
colon_test = refl
