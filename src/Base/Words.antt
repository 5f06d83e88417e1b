-- ===== src/Base/Words.antt =====
-- 32-bit words and the four bytes by which `read` and `write` move them (little-endian hosts).
use Prim.Native.Nat.{ℕ, ◌+◌, ◌*◌, ◌/◌, ◌%◌, ◌<◌}
use mathlib.Core.Path.{◌≡◌, refl}
use mathlib.Core.List.{[], ◌∷◌}
use native.Mathlib.Omega.{arith}
use mapplauncherd.Base.Lists.{Bytes, length}

abbrev pub word_mod : ℕ
word_mod = 0x100000000

unfoldable pub encode_word : ℕ → Bytes
encode_word w = (w % 256) ∷ (w / 256 % 256) ∷ (w / 65536 % 256) ∷ (w / 16777216 % 256) ∷ []

-- The word that four bytes stand for; anything shorter or longer is not a word.
unfoldable pub decode_word : Bytes → ℕ
decode_word (a ∷ b ∷ c ∷ d ∷ []) = a + 256 * b + 65536 * c + 16777216 * d
decode_word _ = 0

pub decode_word-encode_word : (w : ℕ) → w < word_mod → decode_word (encode_word w) ≡ w
unfolding decode_word encode_word
decode_word-encode_word w h = omega arith

pub length-encode_word : (w : ℕ) → length (encode_word w) ≡ 4
unfolding encode_word
length-encode_word w = refl
