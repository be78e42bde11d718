-- ===== src/Git/PktLine.antt =====
-- git/pktline.go: `Scanner`, over the bytes of a body that is read from memory: such a reader
-- fails only at its end.
pub mod RoundTrip
use proxykit.Prelude.{
  ℕ, ◌-◌, Bool, true, false, Option, none, some, [], ◌∷◌, if◌then◌else◌, length, take, drop, leb,
  ltb,
}
use proxykit.Prelude.Int.{ℤ, pos, negsuc}
use proxykit.Prelude.Parse.{parse_int}
use proxykit.Prelude.Text.{Bytes, trim_suffix, codes}

pub data ScanError : Type 0 where
  bad_length : Bytes → ScanError
  invalid_length : ℤ → ScanError
  short_data : ScanError

pub record Scanner : Type 0 where
  pub unread : Bytes
  pub line : Bytes
  pub failure : Option ScanError
  pub done : Bool

-- `NewScanner`.
unfoldable pub new_scanner : Bytes → Scanner
new_scanner body = record { unread = body; line = []; failure = none; done = false }

-- `io.ReadFull` of `n` bytes: the bytes and the rest, or nothing where the reader ends too early.
unfoldable pub read_full : ℕ → Bytes → Option (Bytes × Bytes)
read_full n s = if leb n (length s) then some (take n s, drop n s) else none

unfoldable pub empty_line : Bytes → Scanner → Scanner × Bool
empty_line rest s = (record s { unread = rest; line = [] }, true)

unfoldable pub fail_with : Bytes → ScanError → Scanner → Scanner × Bool
fail_with rest e s = (record s { unread = rest; failure = some e }, false)

-- The part of `Scan` behind the length `n` of a packet with data.
unfoldable pub scan_data : ℕ → Bytes → Scanner → Scanner × Bool
scan_data n rest s = elim (read_full (n - 4) rest) [
  | none ↦ fail_with [] short_data s
  | some (data_bytes, rest') ↦
      (record s { unread = rest'; line = trim_suffix data_bytes (codes "\n") }, true)
]

-- The `switch` of `Scan` on the length.
unfoldable pub scan_length : ℤ → Bytes → Scanner → Scanner × Bool
scan_length (negsuc n) rest s = fail_with rest (invalid_length (negsuc n)) s
scan_length (pos n) rest s =
    if ltb n 3
    then empty_line rest s
    else if ltb n 4
    then fail_with rest (invalid_length (pos n)) s
    else scan_data n rest s

-- The part of `Scan` behind the four bytes of the length.
unfoldable pub scan_header : Bytes → Bytes → Scanner → Scanner × Bool
scan_header header rest s = elim (parse_int 16 32 header) [
  | none ↦ fail_with rest (bad_length header) s
  | some n ↦ scan_length n rest s
]

-- `Scan`.
unfoldable pub scan : Scanner → Scanner × Bool
scan s = if s.done then (s, false) else (elim (read_full 4 s.unread) [
  | none ↦ (record s { unread = []; done = true }, false)
  | some (header, rest) ↦ scan_header header rest s
])
