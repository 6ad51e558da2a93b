-- ===== src/Session/Totp.antt =====
-- hotp and totpOffset of web/internal/corplink/totp.go, and pkcs7Pad of
-- web/internal/corplink/crypto.go. HMAC-SHA1 is a parameter.
use fu_corplink.Common.{
  ℕ, zero, suc, ◌+◌, ◌-◌, ◌*◌, ◌/◌, ◌%◌, ◌^◌, Text, [], ◌∷◌, ◌++◌, length, take, drop,
}
use fu_corplink.Common.Decimal.{itoa}

-- binary.BigEndian.PutUint64: the lowest `n` bytes, the highest of them first
unfoldable pub big_endian : ℕ → ℕ → Text
big_endian zero v = []
big_endian (suc n) v = big_endian n (v / 256) ++ (v % 256 ∷ [])

-- binary.BigEndian.Uint32 behind the bytes to the left
unfoldable pub from_big_endian : ℕ → Text → ℕ
from_big_endian acc [] = acc
from_big_endian acc (b ∷ s) = from_big_endian (acc * 256 + b) s

abbrev pub last_byte : Text → ℕ
last_byte [] = 0
last_byte (b ∷ []) = b
last_byte (b ∷ c ∷ s) = last_byte (c ∷ s)

-- the loop that makes the modulus
unfoldable pub modulus : ℕ → ℕ
modulus zero = 1
modulus (suc digits) = (modulus digits * 10) % 2 ^ 32

-- hotp; `hmac key message` has twenty bytes
unfoldable pub hotp : (Text → Text → Text) → Text → ℕ → ℕ → ℕ
unfolding big_endian from_big_endian modulus
hotp hmac key counter digits =
    let sum = hmac key (big_endian 8 counter) in
    let offset = last_byte sum % 16 in
    (from_big_endian 0 (take 4 (drop offset sum)) % 2 ^ 31) % modulus digits

-- timeOffsetSec: how far the server's clock is ahead of the local one, or behind it
pub data Skew : Type 0 where
  ahead behind : ℕ → Skew

-- the window of totpOffset, with the shift of genOTP that rounds to zero, as a uint64
unfoldable pub slot : ℕ → Skew → ℕ
slot now (ahead s) = (now / 30 + s / 30) % 2 ^ 64
slot now (behind s) = (now / 30 + (2 ^ 64 - s / 30 % 2 ^ 64)) % 2 ^ 64

-- totpOffset: the code and the seconds that are left in its window
unfoldable pub totp_offset : (Text → Text → Text) → Text → ℕ → Skew → ℕ × ℕ
unfolding hotp slot
totp_offset hmac key now skew = (hotp hmac key (slot now skew) 6, 30 - now % 30)

unfoldable pub zeros : ℕ → Text
zeros zero = []
zeros (suc n) = b'0' ∷ zeros n

-- fmt.Sprintf("%06d", code)
unfoldable pub six_digits : ℕ → Text
unfolding zeros
six_digits code = zeros (6 - length (itoa code)) ++ itoa code

abbrev pub repeat : ℕ → ℕ → Text
repeat zero b = []
repeat (suc n) b = b ∷ repeat n b

-- pkcs7Pad
unfoldable pub pkcs7_pad : ℕ → Text → Text
pkcs7_pad block_size data' =
    let pad = block_size - length data' % block_size in data' ++ repeat pad (pad % 256)
