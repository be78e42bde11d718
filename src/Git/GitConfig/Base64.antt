-- ===== src/Git/GitConfig/Base64.antt =====
-- git/gitconfig.go: a reader of the base64 text that a generated configuration holds.
use proxykit.Prelude.{
  ℕ, ◌+◌, ◌-◌, ◌*◌, ◌/◌, ◌%◌, ◌<◌, ◌≡◌, refl, ◌&&◌, false, [], ◌∷◌, ◌++◌, All, arith, if◌then◌else◌,
  leb, ◌==◌,
}
use proxykit.Prelude.Text.{Bytes}
use proxykit.Git.GitConfig.{base64_digit, encode_to_string}

-- A text of bytes.
abbrev pub AreBytes : Bytes → Type 0
AreBytes = All (λ c. c < 256)

-- What a digit stands for.
digit_value : ℕ → ℕ
digit_value c =
    if leb b'A' c && leb c b'Z'
    then c - 65
    else if leb b'a' c && leb c b'z'
    then c - 71
    else if leb b'0' c && leb c b'9'
    then c + 4
    else if c == b'+'
    then 62
    else 63

-- Four digits, of which the last one or two may be missing.
decode_four : ℕ → ℕ → ℕ → ℕ → Bytes
unfolding digit_value
decode_four p q r s =
    let a = digit_value p * 4 + digit_value q / 16 in
    let b = (digit_value q % 16) * 16 + digit_value r / 4 in
    let c = (digit_value r % 4) * 64 + digit_value s in
    if r == b'=' then a ∷ [] else if s == b'=' then a ∷ b ∷ [] else a ∷ b ∷ c ∷ []

pub decode_base64 : Bytes → Bytes
decode_base64 (p ∷ q ∷ r ∷ s ∷ t) = decode_four p q r s ++ decode_base64 t
decode_base64 _ = []

digit_value-base64_digit : (n : ℕ) → n < 64 → digit_value (base64_digit n) ≡ n
unfolding digit_value base64_digit
digit_value-base64_digit n h = ground arith

base64_digit-plain : (n : ℕ) → n < 64 → (base64_digit n == b'=') ≡ false
unfolding base64_digit
base64_digit-plain n h = ground arith

-- What `EncodeToString` writes is read back.
pub decode-encode_to_string : (s : Bytes) → AreBytes s → decode_base64 (encode_to_string s) ≡ s
unfolding decode_base64 decode_four encode_to_string
decode-encode_to_string [] h = refl
decode-encode_to_string (a ∷ []) (ha, _) = ground (
  arith,
  digit_value-base64_digit (a / 4) (omega arith),
  digit_value-base64_digit ((a % 4) * 16) (omega arith),
)
decode-encode_to_string (a ∷ b ∷ []) (ha, (hb, _)) = ground (
  arith,
  digit_value-base64_digit (a / 4) (omega arith),
  digit_value-base64_digit ((a % 4) * 16 + b / 16) (omega arith),
  digit_value-base64_digit ((b % 16) * 4) (omega arith),
  base64_digit-plain ((b % 16) * 4) (omega arith),
)
decode-encode_to_string (a ∷ b ∷ c ∷ s) (ha, (hb, (hc, hs))) = ground (
  arith,
  digit_value-base64_digit (a / 4) (omega arith),
  digit_value-base64_digit ((a % 4) * 16 + b / 16) (omega arith),
  digit_value-base64_digit ((b % 16) * 4 + c / 64) (omega arith),
  digit_value-base64_digit (c % 64) (omega arith),
  base64_digit-plain ((b % 16) * 4 + c / 64) (omega arith),
  base64_digit-plain (c % 64) (omega arith),
  decode-encode_to_string s hs,
)
