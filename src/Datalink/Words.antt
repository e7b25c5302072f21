-- ===== src/Datalink/Words.antt =====
-- Words as bytes, lowest first.
use umtp.Base.{ℕ, ◌%◌, ◌^◌, ◌<◌, ◌≡◌, arith}
use umtp.Datalink.{word_bytes, bytes_word}

pub bytes_word-four : (w : ℕ) → w < 2 ^ 32 → bytes_word (word_bytes 4 w) ≡ w
unfolding bytes_word word_bytes
bytes_word-four w small = omega arith

pub bytes_word-two : (w : ℕ) → bytes_word (word_bytes 2 w) ≡ w % 2 ^ 16
unfolding bytes_word word_bytes
bytes_word-two w = omega arith
