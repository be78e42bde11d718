-- ===== src/Git/PktLine/RoundTrip.antt =====
-- git/pktline.go: packets as a Git client writes them, and what the scanner reads of them.
use mathlib.Core.List.{append_assoc}
use proxykit.Prelude.{
  ℕ, ◌+◌, ◌-◌, ◌*◌, ◌/◌, ◌%◌, ◌≤◌, ◌<◌, ◌≡◌, refl, ap, ◌∙◌, true, false, some, [], ◌∷◌, ◌++◌, arith,
  if◌then◌else◌, length, length-append, ltb, take-length-append, drop-length-append,
}
use proxykit.Prelude.Int.{pos}
use proxykit.Prelude.Parse.{
  parse_int, parse_uint, digits_from, add_digit, digit_value, fit_positive,
}
use proxykit.Prelude.Text.{Bytes, trim_suffix, codes}
use proxykit.Git.PktLine.{Scanner, scan, scan_header, scan_length, scan_data, read_full, empty_line}

-- A packet: a line of data, or one of the three packets without data.
pub data Packet : Type 0 where
  line : Bytes → Packet
  flush delimiter response_end : Packet

unfoldable pub hex_digit : ℕ → ℕ
hex_digit d = if ltb d 10 then d + b'0' else d - 10 + b'a'

-- The length in four hexadecimal digits, as Git writes it.
unfoldable pub hex4 : ℕ → Bytes
unfolding hex_digit
hex4 n =
    hex_digit (n / 4096 % 16)
    ∷ hex_digit (n / 256 % 16)
    ∷ hex_digit (n / 16 % 16)
    ∷ hex_digit (n % 16)
    ∷ []

unfoldable pub encode : Packet → Bytes
unfolding hex4
encode (line s) = hex4 (length s + 4) ++ s
encode flush = codes "0000"
encode delimiter = codes "0001"
encode response_end = codes "0002"

-- What the scanner's `Line` returns for a packet.
unfoldable pub view : Packet → Bytes
unfolding trim_suffix
view (line s) = trim_suffix s (codes "\n")
view flush = []
view delimiter = []
view response_end = []

-- A packet that fits its length field.
abbrev pub Fits : Packet → Type 0
Fits (line s) = length s + 4 < 65536
Fits flush = Unit
Fits delimiter = Unit
Fits response_end = Unit

digit_value-hex_digit : (d : ℕ) → d < 16 → digit_value (hex_digit d) ≡ some d
unfolding digit_value hex_digit
digit_value-hex_digit d h = ground arith

add_digit-hex_digit :
    (acc d : ℕ) → d < 16 → add_digit 16 acc (digit_value (hex_digit d)) ≡ some (acc * 16 + d)
unfolding add_digit
add_digit-hex_digit acc d h = ground (arith, digit_value-hex_digit d h)

-- One more digit read.
digits_from-hex_digit :
    (acc d : ℕ) (s : Bytes)
    → d < 16
    → digits_from 16 (some acc) (hex_digit d ∷ s) ≡ digits_from 16 (some (acc * 16 + d)) s
digits_from-hex_digit acc d s h = step ∙ ap (λ o. digits_from 16 o s) (add_digit-hex_digit acc d h)
  where
    step :
        digits_from 16 (some acc) (hex_digit d ∷ s)
        ≡ digits_from 16 (add_digit 16 acc (digit_value (hex_digit d))) s
    step = unfold digits_from in refl

digits_from-four :
    (a b c d : ℕ)
    → a < 16
    → b < 16
    → c < 16
    → d < 16
    → digits_from 16 (some 0) (hex_digit a ∷ hex_digit b ∷ hex_digit c ∷ hex_digit d ∷ [])
      ≡ some ((((0 * 16 + a) * 16 + b) * 16 + c) * 16 + d)
digits_from-four a b c d ha hb hc hd =
    digits_from-hex_digit 0 a (hex_digit b ∷ hex_digit c ∷ hex_digit d ∷ []) ha
    ∙ digits_from-hex_digit (0 * 16 + a) b (hex_digit c ∷ hex_digit d ∷ []) hb
    ∙ digits_from-hex_digit ((0 * 16 + a) * 16 + b) c (hex_digit d ∷ []) hc
    ∙ digits_from-hex_digit (((0 * 16 + a) * 16 + b) * 16 + c) d [] hd
    ∙ unfold digits_from in refl

-- Four hexadecimal digits are read back as their number.
parse_uint-hex4 : (n : ℕ) → n < 65536 → parse_uint 16 (hex4 n) ≡ some n
unfolding hex4
parse_uint-hex4 n h =
    first
    ∙ digits_from-four (n / 4096 % 16) (n / 256 % 16) (n / 16 % 16) (n % 16) (omega arith)
        (omega arith) (omega arith) (omega arith)
    ∙ ap some sum
  where
    first :
        parse_uint 16 (hex4 n)
        ≡ digits_from 16 (some 0) (
            hex_digit (n / 4096 % 16)
            ∷ hex_digit (n / 256 % 16)
            ∷ hex_digit (n / 16 % 16)
            ∷ hex_digit (n % 16)
            ∷ [])
    first = unfold parse_uint in refl

    sum : (((0 * 16 + n / 4096 % 16) * 16 + n / 256 % 16) * 16 + n / 16 % 16) * 16 + n % 16 ≡ n
    sum = omega arith

hex_digit_no_sign : (d : ℕ) → d < 16 → b'0' ≤ hex_digit d
unfolding hex_digit
hex_digit_no_sign d h = ground arith

parse_int_unsigned :
    (c : ℕ) (s : Bytes) (n : ℕ)
    → b'0' ≤ c
    → n < 65536
    → parse_uint 16 (c ∷ s) ≡ some n
    → parse_int 16 32 (c ∷ s) ≡ some (pos n)
unfolding parse_int fit_positive
parse_int_unsigned c s n h lt e = ground arith

parse_int-hex4 : (n : ℕ) → n < 65536 → parse_int 16 32 (hex4 n) ≡ some (pos n)
parse_int-hex4 n h =
    unfold hex4 in
    parse_int_unsigned (hex_digit (n / 4096 % 16))
      (hex_digit (n / 256 % 16) ∷ hex_digit (n / 16 % 16) ∷ hex_digit (n % 16) ∷ []) n
      (hex_digit_no_sign (n / 4096 % 16) (omega arith)) h (parse_uint-hex4 n h)

-- The header that `encode` writes is read as the length of the packet.
scan_header-hex4 :
    (n : ℕ) (rest : Bytes) (s : Scanner)
    → n < 65536
    → scan_header (hex4 n) rest s ≡ scan_length (pos n) rest s
unfolding scan_header
scan_header-hex4 n rest s h = ground (arith, parse_int-hex4 n h)

length-hex4 : (n : ℕ) → length (hex4 n) ≡ 4
unfolding hex4
length-hex4 n = refl

read_full-append :
    (n : ℕ) (s rest : Bytes) → length s ≡ n → read_full n (s ++ rest) ≡ some (s, rest)
unfolding read_full
read_full-append n s rest h =
    rw (← h)
      (ground (arith, length-append s rest, take-length-append s rest, drop-length-append s rest))

-- The scanner after it has read a packet that `rest` follows.
abbrev pub scanned : Packet → Bytes → Scanner → Scanner
scanned p rest s = record s { unread = rest; line = view p }

scan-header :
    (header rest : Bytes) (s : Scanner)
    → length header ≡ 4
    → s.done ≡ false
    → s.unread ≡ header ++ rest
    → scan s ≡ scan_header header rest s
unfolding scan
scan-header header rest s four going e =
    ground (arith, ap (read_full 4) e, read_full-append 4 header rest four)

scan_length-line :
    (text rest : Bytes) (s : Scanner)
    → scan_length (pos (length text + 4)) (text ++ rest) s ≡ (scanned (line text) rest s, true)
unfolding scan_length scan_data view
scan_length-line text rest s =
    ground (arith, read_full-append (length text + 4 - 4) text rest (omega arith))

scan-word :
    (word rest : Bytes) (n : ℕ) (s : Scanner)
    → length word ≡ 4
    → n < 3
    → parse_int 16 32 word ≡ some (pos n)
    → s.done ≡ false
    → s.unread ≡ word ++ rest
    → scan s ≡ (record s { unread = rest; line = [] }, true)
unfolding scan_header scan_length empty_line
scan-word word rest n s four small reads going e =
    ground (arith, scan-header word rest s four going e, reads)

-- A packet that a client writes is read by one `Scan`: the line without its newline, and the bytes
-- that follow the packet as the rest.
pub scan-encode :
    (p : Packet) (rest : Bytes) (s : Scanner)
    → Fits p
    → s.done ≡ false
    → s.unread ≡ encode p ++ rest
    → scan s ≡ (scanned p rest s, true)
unfolding encode view
scan-encode (line text) rest s fits going e =
    scan-header (hex4 (length text + 4)) (text ++ rest) s (length-hex4 (length text + 4)) going
      (e ∙ append_assoc (hex4 (length text + 4)) text rest)
    ∙ scan_header-hex4 (length text + 4) (text ++ rest) s fits
    ∙ scan_length-line text rest s
scan-encode flush rest s fits going e =
    scan-word (codes "0000") rest 0 s refl (omega arith)
      (unfold parse_int parse_uint digits_from add_digit digit_value fit_positive in refl) going e
scan-encode delimiter rest s fits going e =
    scan-word (codes "0001") rest 1 s refl (omega arith)
      (unfold parse_int parse_uint digits_from add_digit digit_value fit_positive in refl) going e
scan-encode response_end rest s fits going e =
    scan-word (codes "0002") rest 2 s refl (omega arith)
      (unfold parse_int parse_uint digits_from add_digit digit_value fit_positive in refl) going e
