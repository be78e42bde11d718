-- ===== src/Git/GitConfig/Lines.antt =====
-- git/gitconfig.go: texts on one line, and texts that are made of lines.
use mathlib.Core.List.{append_assoc, append-nil}
use proxykit.Prelude.{
  ℕ, ◌+◌, ◌*◌, ◌/◌, ◌%◌, ◌≡◌, refl, ap, sym, ◌∙◌, false, List, [], ◌∷◌, ◌++◌, ◌==◌, arith, All,
}
use proxykit.Prelude.Text.{Bytes, has_byte, split_from, split_byte}
use proxykit.Git.GitConfig.{
  base64_digit, encode_to_string, hex_nibble, quote_byte, quote_bytes, quoted,
}

-- A text on one line.
abbrev pub OneLine : Bytes → Type 0
OneLine s = has_byte 10 s ≡ false

abbrev pub unlines : List Bytes → Bytes
unlines [] = []
unlines (l ∷ ls) = l ++ 10 ∷ unlines ls

split_from-line :
    (part l rest : Bytes)
    → OneLine l
    → split_from 10 part (l ++ 10 ∷ rest) ≡ (part ++ l) ∷ split_from 10 [] rest
unfolding split_from has_byte
split_from-line part [] rest h = ap (λ p. p ∷ split_from 10 [] rest) (sym (append-nil part))
split_from-line part (c ∷ l) rest h =
    let more : OneLine l
        → split_from 10 (part ++ c ∷ []) (l ++ 10 ∷ rest)
          ≡ ((part ++ c ∷ []) ++ l) ∷ split_from 10 [] rest =
      split_from-line (part ++ c ∷ []) l rest in
    ground (arith, h, more, append_assoc part (c ∷ []) l)

pub split_byte-unlines :
    (ls : List Bytes) (rest : Bytes)
    → All OneLine ls
    → split_byte 10 (unlines ls ++ rest) ≡ ls ++ split_byte 10 rest
unfolding split_byte
split_byte-unlines [] rest h = refl
split_byte-unlines (l ∷ ls) rest (h, hs) =
    ap (split_from 10 []) (append_assoc l (10 ∷ unlines ls) rest)
    ∙ split_from-line [] l (unlines ls ++ rest) h
    ∙ ap (◌∷◌ l) (split_byte-unlines ls rest hs)

pub OneLine-append : (s t : Bytes) → OneLine s → OneLine t → OneLine (s ++ t)
unfolding has_byte
OneLine-append [] t p q = q
OneLine-append (c ∷ s) t p q =
    let rest : OneLine s → OneLine (s ++ t) = λ r. OneLine-append s t r q in ground (arith, p, rest)

base64_digit-OneLine : (n : ℕ) → (base64_digit n == 10) ≡ false
unfolding base64_digit
base64_digit-OneLine n = ground arith

pub encode_to_string-OneLine : (s : Bytes) → OneLine (encode_to_string s)
unfolding encode_to_string has_byte
encode_to_string-OneLine [] = refl
encode_to_string-OneLine (a ∷ []) =
    ground (arith, base64_digit-OneLine (a / 4), base64_digit-OneLine ((a % 4) * 16))
encode_to_string-OneLine (a ∷ b ∷ []) = ground (
  arith,
  base64_digit-OneLine (a / 4),
  base64_digit-OneLine ((a % 4) * 16 + b / 16),
  base64_digit-OneLine ((b % 16) * 4),
)
encode_to_string-OneLine (a ∷ b ∷ c ∷ s) = ground (
  arith,
  base64_digit-OneLine (a / 4),
  base64_digit-OneLine ((a % 4) * 16 + b / 16),
  base64_digit-OneLine ((b % 16) * 4 + c / 64),
  base64_digit-OneLine (c % 64),
  encode_to_string-OneLine s,
)

quote_byte-OneLine : (c : ℕ) → OneLine (quote_byte c)
unfolding quote_byte hex_nibble has_byte
quote_byte-OneLine c = ground arith

quote_bytes-OneLine : (s : Bytes) → OneLine (quote_bytes s)
unfolding quote_bytes has_byte
quote_bytes-OneLine [] = refl
quote_bytes-OneLine (c ∷ s) =
    OneLine-append (quote_byte c) (quote_bytes s) (quote_byte-OneLine c) (quote_bytes-OneLine s)

pub quoted-OneLine : (s : Bytes) → OneLine (quoted s)
unfolding quoted has_byte
quoted-OneLine s = OneLine-append (quote_bytes s) (34 ∷ []) (quote_bytes-OneLine s) refl
