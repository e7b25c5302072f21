-- ===== src/Debug/Tests.antt =====
-- Runs of the debug output.
use umtp.Base.{
  zero, suc, ◌<◌, arith, u8_mod, ℕ, Bool, ◌≡◌, refl, true, some, List, [], ◌∷◌, leb, ◌&&◌,
}
use umtp.Debug.Dump.{high, read_hex, read_hex-dump_hex}
use umtp.Debug.{byte_of, debug, dump_hex, dump_line, hex_columns, text_columns}

abbrev ascii : ℕ → Bool
ascii c = leb 32 c && leb c 126

-- "A" and a byte that is not printed.
two_bytes :
    dump_hex 2 true ascii (65 ∷ 171 ∷ []) 2
    ≡ some (
        52 ∷ 49 ∷ 32 ∷ 97 ∷ 98 ∷ 32 ∷ 9 ∷ 9 ∷ 9 ∷ 9 ∷ 9 ∷ 9 ∷ 9 ∷ 9 ∷ 9 ∷ 9 ∷ 9 ∷ 9 ∷ 9 ∷ 9 ∷ 9 ∷ 65
        ∷ 46 ∷ 10 ∷ [])
unfolding dump_hex dump_line hex_columns text_columns
two_bytes = refl

read_hex-dump_hex_example :
    (out : List ℕ) × (dump_hex 2 true ascii (65 ∷ 171 ∷ 7 ∷ []) 2 ≡ some out)
    × (read_hex high out ≡ 65 ∷ 171 ∷ [])
read_hex-dump_hex_example =
    read_hex-dump_hex ascii (65 ∷ 171 ∷ 7 ∷ []) 2 1 bytes refl (omega arith) (omega arith)
  where
    bytes : (j : ℕ) → byte_of (65 ∷ 171 ∷ 7 ∷ []) j < u8_mod
    bytes zero = omega arith
    bytes (suc zero) = omega arith
    bytes (suc (suc zero)) = omega arith
    bytes (suc (suc (suc j))) = omega arith

-- Level 2 prints the message alone.
warning : debug 2 (97 ∷ []) (98 ∷ []) ≡ 98 ∷ []
unfolding debug
warning = refl
