-- ===== src/Debug.antt =====
-- include/debug.h: what the debug output writes, as the list of its characters. `printf` and `fprintf`
-- are read as the C standard has them, `isprint` depends on the locale and is an argument.
pub mod Dump
mod Tests
use umtp.Base.{
  ℕ, zero, suc, ◌+◌, ◌-◌, ◌/◌, ◌%◌, Bool, true, false, not, ◌||◌, Option, none, some, List, [], ◌∷◌,
  ◌++◌, ltb, leb, ◌==◌, if◌then◌else◌,
}

abbrev pub error_level : ℕ
error_level = 1

abbrev pub debug_level : ℕ
debug_level = 4

-- `debug`: the place is the file's name and the line, as the format gives them.
pub debug : (level : ℕ) → (place message : List ℕ) → List ℕ
debug level place message =
    if leb level debug_level
    then (if (level == debug_level) || (level == error_level) then place ++ message else message)
    else []

abbrev pub tab : ℕ
tab = 9

abbrev pub newline : ℕ
newline = 10

abbrev pub space : ℕ
space = 32

abbrev pub dot : ℕ
dot = 46

-- A digit of `%02x`.
pub hex_digit : ℕ → ℕ
hex_digit v = if ltb v 10 then 48 + v else 87 + v

abbrev pub byte_of : List ℕ → ℕ → ℕ
byte_of [] i = 0
byte_of (b ∷ bs) zero = b
byte_of (b ∷ bs) (suc i) = byte_of bs i

-- The first inner loop, with `k` rounds left.
pub hex_columns : (buf : List ℕ) (len i k : ℕ) → List ℕ
unfolding hex_digit
hex_columns buf len i zero = []
hex_columns buf len i (suc k) =
    (if ltb i len
      then hex_digit (byte_of buf i / 16) ∷ hex_digit (byte_of buf i % 16) ∷ space ∷ []
      else tab ∷ [])
    ++ hex_columns buf len (i + 1) k

-- The second one, which ends with the bytes.
pub text_columns : (isprint : ℕ → Bool) (buf : List ℕ) (len i k : ℕ) → List ℕ
text_columns isprint buf len i zero = []
text_columns isprint buf len i (suc k) =
    let rest = text_columns isprint buf len (i + 1) k in
    if ltb i len then (if isprint (byte_of buf i) then byte_of buf i else dot) ∷ rest else []

pub dump_line : (isprint : ℕ → Bool) (buf : List ℕ) (len base : ℕ) → List ℕ
dump_line isprint buf len base =
    hex_columns buf len base 16 ++ tab ∷ text_columns isprint buf len base 16 ++ newline ∷ []

abbrev put_before : List ℕ → Option (List ℕ) → Option (List ℕ)
put_before line none = none
put_before line (some rest) = some (line ++ rest)

-- The outer loop on fuel, `none` if it runs out.
pub dump_from : ℕ → (isprint : ℕ → Bool) (buf : List ℕ) (len base : ℕ) → Option (List ℕ)
dump_from zero isprint buf len base = none
dump_from (suc fuel) isprint buf len base =
    let rest =
      put_before (dump_line isprint buf len base) (dump_from fuel isprint buf len (base + 16)) in
    if ltb base len then rest else some []

-- `fp` tells whether the file is not NULL; a negative length is 0 here.
pub dump_hex : ℕ → (fp : Bool) (isprint : ℕ → Bool) (buf : List ℕ) (len : ℕ) → Option (List ℕ)
unfolding dump_from
dump_hex fuel fp isprint buf len = if not fp then some [] else dump_from fuel isprint buf len 0
