-- ===== src/Base64/Codes.antt =====
-- base64.c: `code_to_char` and `char_to_code`. Where they call `exit`, the result is `none`.
use mathlib.Core.Option
use meshbeacon_uplink.Prelude.{
  ℕ, ◌+◌, ◌-◌, ◌<◌, ◌≡◌, ◌≢◌, ◌↔◌, ◌&&◌, Option, none, some, leb, ◌==◌, if◌then◌else◌, arith,
}

abbrev pub code_62 : ℕ
code_62 = b'+'

abbrev pub code_63 : ℕ
code_63 = b'/'

abbrev pub code_pad : ℕ
code_pad = b'='

unfoldable pub code_to_char : ℕ → Option ℕ
code_to_char x =
    if leb x 25
    then some (b'A' + x)
    else if leb 26 x && leb x 51
    then some (b'a' + (x - 26))
    else if leb 52 x && leb x 61
    then some (b'0' + (x - 52))
    else if x == 62
    then some code_62
    else if x == 63
    then some code_63
    else none

unfoldable pub char_to_code : ℕ → Option ℕ
char_to_code x =
    if leb b'A' x && leb x b'Z'
    then some (x - b'A')
    else if leb b'a' x && leb x b'z'
    then some (x - b'a' + 26)
    else if leb b'0' x && leb x b'9'
    then some (x - b'0' + 52)
    else if x == code_62
    then some 62
    else if x == code_63
    then some 63
    else none

-- The two tables are inverse to one another: `c` is the character of `x` exactly when `x` is the code of
-- `c`. So no two codes share a character, and no two characters a code.
pub code_to_char-char_to_code_iff :
    (x c : ℕ) → (code_to_char x ≡ some c) ↔ (char_to_code c ≡ some x)
unfolding code_to_char char_to_code
code_to_char-char_to_code_iff x c = ground arith

-- The character of a code below 64.
abbrev pub char_of : ℕ → ℕ
char_of x = Option.get_or (code_to_char x) 0

-- Every code of six bits has a character, and it is not the padding.
pub code_to_char-char_of :
    (x : ℕ) → x < 64 → (code_to_char x ≡ some (char_of x)) × (char_of x ≢ code_pad)
unfolding code_to_char
code_to_char-char_of x h = ground arith

pub char_to_code-char_of : (x : ℕ) → x < 64 → char_to_code (char_of x) ≡ some x
char_to_code-char_of x h =
    (code_to_char-char_to_code_iff x (char_of x)).0 (code_to_char-char_of x h).0

pub char_to_code-lt : (c x : ℕ) → char_to_code c ≡ some x → x < 64
unfolding char_to_code
char_to_code-lt c x h = ground arith
