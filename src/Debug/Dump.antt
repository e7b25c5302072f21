-- ===== src/Debug/Dump.antt =====
-- The bytes can be read back from what `dump_hex` writes.

use umtp.Base.{
  ℕ, zero, suc, ◌+◌, ◌-◌, ◌*◌, ◌/◌, ◌%◌, ◌<◌, ◌≤◌, ◌≡◌, refl, sym, ap, ap₂, ◌∙◌, Bool, true, false,
  some, List, [], ◌∷◌, ◌++◌, arith, ltb, ◌==◌, if◌then◌else◌, length, take, drop, Bool-cases, inl,
  inr, u8_mod,
}
use mathlib.Core.List.{append_assoc}
use umtp.Debug.{
  tab, newline, space, hex_digit, byte_of, hex_columns, text_columns, dump_line, put_before,
  dump_from, dump_hex,
}

-- Where a reader of the output stands: before the first digit of a byte, before the second, before the
-- space, or in the text behind the tab.
pub data Column : Type 0 where
  high : Column
  low : ℕ → Column
  gap : Column
  text : Column

abbrev digit_value : ℕ → ℕ
digit_value c = if ltb c 87 then c - 48 else c - 87

-- The bytes whose digits stand before the first tab of each line.
pub read_hex : Column → List ℕ → List ℕ
read_hex at [] = []
read_hex high (c ∷ cs) = read_hex (if c == tab then text else low (digit_value c)) cs
read_hex (low h) (c ∷ cs) = (h * 16 + digit_value c) ∷ read_hex gap cs
read_hex gap (c ∷ cs) = read_hex high cs
read_hex text (c ∷ cs) = read_hex (if c == newline then high else text) cs

abbrev OneLine : List ℕ → Type 0
OneLine [] = Unit {0}
OneLine (c ∷ cs) = ((c == newline) ≡ false) × OneLine cs

OneLine-append : (xs ys : List ℕ) → OneLine xs → OneLine ys → OneLine (xs ++ ys)
OneLine-append [] ys h h' = h'
OneLine-append (x ∷ xs) ys h h' = (h.0, OneLine-append xs ys h.1 h')

skip_text :
    (xs rest : List ℕ) → OneLine xs → read_hex text (xs ++ newline ∷ rest) ≡ read_hex high rest
unfolding read_hex
skip_text [] rest h = refl
skip_text (x ∷ xs) rest h = rw (h.0, read_hex) (skip_text xs rest h.1)

hex_digit-tab : (v : ℕ) → (hex_digit v == tab) ≡ false
unfolding hex_digit
hex_digit-tab v = ground arith

digit_value-hex_digit : (v : ℕ) → v < 16 → digit_value (hex_digit v) ≡ v
unfolding hex_digit
digit_value-hex_digit v small = ground arith

digits-byte :
    (b : ℕ)
    → b < u8_mod
    → digit_value (hex_digit (b / 16)) * 16 + digit_value (hex_digit (b % 16)) ≡ b
digits-byte b small = omega (
  arith,
  digit_value-hex_digit (b / 16) (omega arith),
  digit_value-hex_digit (b % 16) (omega arith),
)

module _ (isprint : ℕ → Bool) (buf : List ℕ) (len : ℕ) where
  -- Of `k` columns from `i` on, the bytes.
  cells : ℕ → ℕ → List ℕ
  cells i zero = []
  cells i (suc k) = if ltb i len then byte_of buf i ∷ cells (i + 1) k else []

  cells_end : (i k : ℕ) → len ≤ i → cells i k ≡ []
  unfolding cells
  cells_end i zero le = refl
  cells_end i (suc k) le = ground arith

  cells-add : (i j k : ℕ) → cells i (j + k) ≡ cells i j ++ cells (i + j) k
  unfolding cells
  cells-add i zero k = ap₂ cells (omega arith) (omega arith)
  cells-add i (suc j) k = ap (cells i) one_less ∙ elim (Bool-cases (ltb i len)) [
    | inl more ↦
        rw (more, cells)
          (ap (◌∷◌ (byte_of buf i))
            (cells-add (i + 1) j k ∙ ap (λ m. cells (i + 1) j ++ cells m k) (omega arith)))
    | inr done ↦ rw (done, cells) (sym (cells_end (i + suc j) k (ground arith)))
  ]
    where
      one_less : suc j + k ≡ suc (j + k)
      one_less = omega arith

  text-OneLine : (isprint newline ≡ false) → (i k : ℕ) → OneLine (text_columns isprint buf len i k)
  unfolding text_columns
  text-OneLine visible i zero = tt
  text-OneLine visible i (suc k) = ground (arith, text-OneLine visible (i + 1) k)

  hex-OneLine : (i k : ℕ) → OneLine (hex_columns buf len i k)
  unfolding hex_columns hex_digit
  hex-OneLine i zero = tt
  hex-OneLine i (suc k) = ground (arith, hex-OneLine (i + 1) k)

  read_columns :
      (i k : ℕ) (xs rest : List ℕ)
      → ((j : ℕ) → byte_of buf j < u8_mod)
      → OneLine xs
      → read_hex high (hex_columns buf len i k ++ tab ∷ xs ++ newline ∷ rest)
        ≡ cells i k ++ read_hex high rest
  unfolding read_hex hex_columns cells
  read_columns i zero xs rest bytes one = skip_text xs rest one
  read_columns i (suc k) xs rest bytes one = elim (Bool-cases (ltb i len)) [
    | inl more ↦ rw more (
        ap
          (λ b. read_hex (if b then text else low (digit_value (hex_digit (byte_of buf i / 16)))) (
            hex_digit (byte_of buf i % 16)
            ∷ space
            ∷ (hex_columns buf len (i + 1) k ++ tab ∷ xs ++ newline ∷ rest)))
          (hex_digit-tab (byte_of buf i / 16))
        ∙ ap₂ (λ b bs. b ∷ bs) (digits-byte (byte_of buf i) (bytes i))
            (read_columns (i + 1) k xs rest bytes one))
    | inr done ↦ rw done (
        skip_text (hex_columns buf len (i + 1) k ++ tab ∷ xs) rest (
          OneLine-append (hex_columns buf len (i + 1) k) (tab ∷ xs) (hex-OneLine (i + 1) k)
            (refl, one)))
  ]

  line-read :
      (base k : ℕ) (out : List ℕ)
      → ((j : ℕ) → byte_of buf j < u8_mod)
      → isprint newline ≡ false
      → read_hex high out ≡ cells (base + 16) k
      → read_hex high (dump_line isprint buf len base ++ out) ≡ cells base (16 + k)
  unfolding dump_line
  line-read base k out bytes visible back =
      ap (read_hex high) (
        append_assoc (hex_columns buf len base 16 ++ tab ∷ text_columns isprint buf len base 16)
          (newline ∷ []) out)
      ∙ read_columns base 16 (text_columns isprint buf len base 16) out bytes
          (text-OneLine visible base 16)
      ∙ ap (λ bs. cells base 16 ++ bs) back
      ∙ sym (cells-add base 16 k)

  dump_from-read :
      (k base : ℕ)
      → ((j : ℕ) → byte_of buf j < u8_mod)
      → isprint newline ≡ false
      → len ≤ base + k * 16
      → (out : List ℕ) × (dump_from (suc k) isprint buf len base ≡ some out)
        × (read_hex high out ≡ cells base (k * 16))
  unfolding dump_from
  dump_from-read zero base bytes visible enough = ([], rw (past, dump_from) refl, nothing)
    where
      past : ltb base len ≡ false
      past = ground arith

      nothing : read_hex high [] ≡ cells base (0 * 16)
      nothing = unfold read_hex in sym (cells_end base (0 * 16) (omega arith))
  dump_from-read (suc k) base bytes visible enough =
      let (out, ends, back) = dump_from-read k (base + 16) bytes visible (omega arith) in
      elim (Bool-cases (ltb base len)) [
        | inl more ↦ (
          dump_line isprint buf len base ++ out,
          rw (more, dump_from) (ap (put_before (dump_line isprint buf len base)) ends),
          line-read base (k * 16) out bytes visible back ∙ ap (cells base) (omega arith),
        )
        | inr done ↦ (
          [],
          rw (done, dump_from) refl,
          unfold read_hex in sym (cells_end base (suc k * 16) (ground arith)),
        )
      ]

  drop-byte : (i : ℕ) (bs : List ℕ) → i < length bs → drop i bs ≡ byte_of bs i ∷ drop (suc i) bs
  drop-byte i [] h = absurd (omega arith)
  drop-byte zero (b ∷ bs) h = refl
  drop-byte (suc i) (b ∷ bs) h = drop-byte i bs (omega arith)

  cells-take : (i k : ℕ) → len ≤ i + k → len ≤ length buf → cells i k ≡ take (len - i) (drop i buf)
  unfolding cells
  cells-take i zero enough whole = ap (λ n. take n (drop i buf)) (sym none_left)
    where
      none_left : len - i ≡ 0
      none_left = omega arith
  cells-take i (suc k) enough whole = elim (Bool-cases (ltb i len)) [
    | inl more ↦
        let one_more : len - i ≡ suc (len - (i + 1)) = ground arith in
        let next : i + 1 ≡ suc i = omega arith in
        rw (more, cells)
          (ap (◌∷◌ (byte_of buf i)) (cells-take (i + 1) k (omega arith) whole)
            ∙ ap (λ j. byte_of buf i ∷ take (len - (i + 1)) (drop j buf)) next
            ∙ sym (ap₂ take one_more (drop-byte i buf (ground arith))))
    | inr done ↦
        let none_left : len - i ≡ 0 = ground arith in
        rw (done, cells) (sym (ap (λ n. take n (drop i buf)) none_left))
  ]

-- `dump_hex` to a file, of `len` bytes of an array that has them, with a character set whose newline
-- is not printed: with one round more than there are lines of sixteen bytes it ends, and the bytes can
-- be read back from the digits that it writes.
pub read_hex-dump_hex :
    (isprint : ℕ → Bool) (buf : List ℕ) (len lines : ℕ)
    → ((j : ℕ) → byte_of buf j < u8_mod)
    → isprint newline ≡ false
    → len ≤ length buf
    → len ≤ lines * 16
    → (out : List ℕ) × (dump_hex (suc lines) true isprint buf len ≡ some out)
      × (read_hex high out ≡ take len buf)
unfolding dump_hex
read_hex-dump_hex isprint buf len lines bytes visible whole enough =
    let (out, ends, back) = dump_from-read isprint buf len lines 0 bytes visible (omega arith) in
    (
      out,
      ends,
      back
          ∙ cells-take isprint buf len 0 (lines * 16) (omega arith) whole
          ∙ ap (λ n. take n buf) (omega arith),
    )
