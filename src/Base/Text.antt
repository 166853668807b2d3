-- ===== src/Base/Text.antt =====
-- Texts by their code points: the methods of strings and the character tests that the program uses.
-- `String` has its own `[]` and `∷`.
use Prim.Native.Nat.{ℕ, zero, suc, ◌-◌, ◌/◌, ◌%◌}
use Prim.Native.Char.{Char, code}
use Prim.Native.String
use Prim.Native.String.{String}
use mathlib.Core.Option.{Option, none, some}
use mathlib.Core.Bool.{Bool, true, false, ◌&&◌, ◌||◌}
use molenkopf.Base.Tests.{ltb, leb, nat_eq, if◌then◌else◌}

abbrev pub is_empty : String → Bool
is_empty String.[] = true
is_empty (String.◌∷◌ c s) = false

-- The white space of `\s` and `trim` in the ASCII range, with the no-break space and the byte order
-- mark.
abbrev pub is_space : ℕ → Bool
is_space c = (leb 9 c && leb c 13) || nat_eq c 32 || nat_eq c 160 || nat_eq c 65279

trim_start : String → String
trim_start String.[] = ""
trim_start (String.◌∷◌ c s) = if is_space (code c) then trim_start s else String.◌∷◌ c s

trim_end : String → String
trim_end String.[] = ""
trim_end (String.◌∷◌ c s) =
    let rest = trim_end s in if is_space (code c) && is_empty rest then "" else String.◌∷◌ c rest

-- `s.trim()`
unfoldable pub trim : String → String
unfolding trim_start trim_end
trim s = trim_end (trim_start s)

-- The number of characters.
abbrev pub size : String → ℕ
size String.[] = 0
size (String.◌∷◌ c s) = suc (size s)

-- Each character passes the test.
abbrev pub every_char : (ℕ → Bool) → String → Bool
every_char p String.[] = true
every_char p (String.◌∷◌ c s) = p (code c) && every_char p s

abbrev pub is_digit : ℕ → Bool
is_digit c = leb b'0' c && leb c b'9'

abbrev pub is_letter : ℕ → Bool
is_letter c = (leb b'a' c && leb c b'z') || (leb b'A' c && leb c b'Z')

abbrev pub is_id_char : ℕ → Bool
is_id_char c =
    is_letter c || is_digit c || nat_eq c b'.' || nat_eq c b'_' || nat_eq c b':' || nat_eq c b'-'

-- `/^[a-z0-9][a-z0-9._:-]{0,63}$/i`, the identifiers of providers, agents, teams and scopes.
unfoldable pub is_slug : String → Bool
is_slug String.[] = false
is_slug (String.◌∷◌ c s) =
    (is_letter (code c) || is_digit (code c)) && every_char is_id_char s && leb (size s) 63

-- `s.replace(/[^…]/g, "")`: the characters that pass the test.
unfoldable pub keep_chars : (ℕ → Bool) → String → String
keep_chars p String.[] = ""
keep_chars p (String.◌∷◌ c s) = if p (code c) then String.◌∷◌ c (keep_chars p s) else keep_chars p s

-- `s.slice(0, n)`
unfoldable pub first_chars : ℕ → String → String
first_chars zero s = ""
first_chars (suc n) String.[] = ""
first_chars (suc n) (String.◌∷◌ c s) = String.◌∷◌ c (first_chars n s)

-- `s.slice(n)`
unfoldable pub drop_chars : ℕ → String → String
drop_chars zero s = s
drop_chars (suc n) String.[] = ""
drop_chars (suc n) (String.◌∷◌ c s) = drop_chars n s

abbrev pub is_word : ℕ → Bool
is_word c = is_letter c || is_digit c || nat_eq c b'_'

-- Some character passes the test.
abbrev pub some_char : (ℕ → Bool) → String → Bool
some_char p String.[] = false
some_char p (String.◌∷◌ c s) = p (code c) || some_char p s

-- The character at a place of a text, or `c` past its end.
abbrev char_or : Char → ℕ → String → Char
char_or c i String.[] = c
char_or c zero (String.◌∷◌ d s) = d
char_or c (suc i) (String.◌∷◌ d s) = char_or c i s

lower_char : Char → Char
lower_char c =
    if leb b'A' (code c) && leb (code c) b'Z'
    then char_or c (code c - b'A') "abcdefghijklmnopqrstuvwxyz"
    else c

-- `s.toLowerCase()` of ASCII text
unfoldable pub to_lower : String → String
unfolding lower_char
to_lower String.[] = ""
to_lower (String.◌∷◌ c s) = String.◌∷◌ (lower_char c) (to_lower s)

-- The text `t` in front of `s` is taken off; `none` where `s` does not start with it.
unfoldable pub strip_prefix : String → String → Option String
strip_prefix String.[] s = some s
strip_prefix (String.◌∷◌ c t) String.[] = none
strip_prefix (String.◌∷◌ c t) (String.◌∷◌ d s) =
    if nat_eq (code c) (code d) then strip_prefix t s else none

zero_char : Char
zero_char = "0"

digit : ℕ → Char
digit n = char_or zero_char (n % 10) "0123456789"

-- The decimal digits of `n`, before `rest`; `n < 10 ^ fuel` has all of them.
decimal_digits : ℕ → ℕ → String → String
unfolding digit zero_char
decimal_digits zero n rest = rest
decimal_digits (suc fuel) n rest =
    let longer = String.◌∷◌ (digit n) rest in
    let more = decimal_digits fuel (n / 10) longer in if ltb n 10 then longer else more

-- `String(n)` of a number below 10 ^ 20
unfoldable pub decimal : ℕ → String
unfolding decimal_digits
decimal n = decimal_digits 20 n ""

-- `String(n).padStart(2, "0")`
unfoldable pub two_digits : ℕ → String
unfolding decimal
two_digits n = if ltb n 10 then String.◌++◌ "0" (decimal n) else decimal n
