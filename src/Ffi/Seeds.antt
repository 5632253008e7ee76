-- ===== src/Ffi/Seeds.antt =====
-- ffi/ffi.go: a seed that is written in hex comes back.
use ipfs_mobile.Prelude.{ℕ, ◌+◌, ◌/◌, ◌%◌, ◌≡◌, ◌<◌, refl, some, List, [], ◌∷◌, arith, ap}
use ipfs_mobile.Prelude.Tests.{ltb, if◌then◌else◌}
use ipfs_mobile.Prelude.Lists.{All}
use ipfs_mobile.Prelude.Text.{Text, text_eq}
use ipfs_mobile.Errors.{ok}
use ipfs_mobile.Ffi.{from_hex, decode_string, seed_of, identity_seed}

abbrev pub hex_digit : ℕ → ℕ
hex_digit n = if ltb n 10 then b'0' + n else 87 + n

unfoldable pub encode_to_string : List ℕ → Text
encode_to_string [] = []
encode_to_string (b ∷ bs) = hex_digit (b / 16) ∷ hex_digit (b % 16) ∷ encode_to_string bs

from_hex-digit : (n : ℕ) → n < 16 → from_hex (hex_digit n) ≡ some n
unfolding from_hex
from_hex-digit n h = ground arith

decode-encode : (bs : List ℕ) → All (λ b. b < 256) bs → decode_string (encode_to_string bs) ≡ ok bs
unfolding decode_string encode_to_string
decode-encode [] h = refl
decode-encode (b ∷ bs) (h, hs) =
    rw
      (
        from_hex-digit (b / 16) (omega arith),
        from_hex-digit (b % 16) (omega arith),
        decode-encode bs hs,
      )
      (ap (λ n. ok (n ∷ bs)) (omega arith))

-- identitySeed gives back the bytes of every seed that is written in hex, the empty one included.
pub identity_seed-encode :
    (bs : List ℕ) → All (λ b. b < 256) bs → identity_seed (encode_to_string bs) ≡ ok bs
unfolding identity_seed encode_to_string text_eq
identity_seed-encode [] h = refl
identity_seed-encode (b ∷ bs) h = ap seed_of (decode-encode (b ∷ bs) h)
