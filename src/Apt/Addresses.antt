-- ===== src/Apt/Addresses.antt =====
-- apt/apt.go: the addresses that the dialer refuses. `parse_ip` is `net.ParseIP`; an address of version 6
-- that stands for one of version 4 is `v4`.
use mathlib.Core.Path.{ap₂}
use proxykit.Prelude.{
  ℕ, ◌+◌, ◌*◌, ◌/◌, ◌%◌, ◌<◌, ◌≡◌, Bool, true, false, ◌&&◌, ◌||◌, Option, none, some, [], ◌∷◌,
  if◌then◌else◌, ltb, leb, ◌==◌, arith, ◌∙◌,
}
use proxykit.Prelude.Text.{Bytes, bytes_eq}
use proxykit.Http.{split_host_port}

-- `net.IP`, by its bytes; of version 6 the first two and the last fourteen.
pub data Ip : Type 0 where
  v4 : ℕ → ℕ → ℕ → ℕ → Ip
  v6 : ℕ → ℕ → Bytes → Ip

-- The address `::n`.
unfoldable is_low : ℕ → Ip → Bool
is_low n (v4 a b c d) = false
is_low n (v6 a b rest) =
    (a == 0)
    && ((b == 0) && bytes_eq rest (0 ∷ 0 ∷ 0 ∷ 0 ∷ 0 ∷ 0 ∷ 0 ∷ 0 ∷ 0 ∷ 0 ∷ 0 ∷ 0 ∷ 0 ∷ n ∷ []))

-- `IsLoopback`.
unfoldable is_loopback : Ip → Bool
is_loopback (v4 a b c d) = a == 127
is_loopback (v6 a b rest) = is_low 1 (v6 a b rest)

-- `IsPrivate`.
unfoldable is_private : Ip → Bool
is_private (v4 a b c d) = (a == 10) || (((a == 172) && (b / 16 == 1)) || ((a == 192) && (b == 168)))
is_private (v6 a b rest) = a / 2 == 126

-- `IsLinkLocalUnicast`.
unfoldable is_link_local_unicast : Ip → Bool
is_link_local_unicast (v4 a b c d) = (a == 169) && (b == 254)
is_link_local_unicast (v6 a b rest) = (a == 254) && (b / 64 == 2)

-- `IsLinkLocalMulticast`.
unfoldable is_link_local_multicast : Ip → Bool
is_link_local_multicast (v4 a b c d) = (a == 224) && ((b == 0) && (c == 0))
is_link_local_multicast (v6 a b rest) = (a == 255) && (b % 16 == 2)

-- `IsUnspecified`.
unfoldable is_unspecified : Ip → Bool
is_unspecified (v4 a b c d) = (a == 0) && ((b == 0) && ((c == 0) && (d == 0)))
is_unspecified (v6 a b rest) = is_low 0 (v6 a b rest)

-- `Equal` to 169.254.169.254.
unfoldable is_metadata_endpoint : Ip → Bool
is_metadata_endpoint (v4 a b c d) = (a == 169) && ((b == 254) && ((c == 169) && (d == 254)))
is_metadata_endpoint (v6 a b rest) = false

-- `isBlockedIP`.
pub is_blocked_ip : Option Ip → Bool
is_blocked_ip none = true
is_blocked_ip (some ip) =
    if is_loopback ip
      || (is_private ip
          || (is_link_local_unicast ip || (is_link_local_multicast ip || is_unspecified ip)))
    then true
    else is_metadata_endpoint ip

-- `denyPrivateIPs`: whether the connection is refused.
unfoldable deny_private_ips : (Bytes → Option Ip) → Bytes → Bool
deny_private_ips parse_ip address = elim (split_host_port address) [
  | none ↦ true
  | some host ↦ is_blocked_ip (parse_ip host)
]

-- An address of version 4 as a number of 32 bits.
abbrev pub number : ℕ → ℕ → ℕ → ℕ → ℕ
number a b c d = ((a * 256 + b) * 256 + c) * 256 + d

-- A block of addresses, from its first one.
abbrev in_block : ℕ → ℕ → ℕ → Bool
in_block n first size = leb first n && ltb n (first + size)

-- The blocks 127/8, 10/8, 172.16/12, 192.168/16, 169.254/16 and 224.0.0/24, and the address 0.
abbrev pub in_blocks : ℕ → Bool
in_blocks n =
    in_block n (number 127 0 0 0) 16777216
    || (in_block n (number 10 0 0 0) 16777216
        || (in_block n (number 172 16 0 0) 1048576
            || (in_block n (number 192 168 0 0) 65536
                || (in_block n (number 169 254 0 0) 65536
                    || (in_block n (number 224 0 0 0) 256 || (n == 0))))))

module _ (a b c d : ℕ) (b_byte : b < 256) (c_byte : c < 256) (d_byte : d < 256) where
  block_8 : (x : ℕ) → (a == x) ≡ in_block (number a b c d) (number x 0 0 0) 16777216
  block_8 x = ground (arith, b_byte, c_byte, d_byte)

  block_16 :
      (x y : ℕ)
      → y < 256
      → ((a == x) && (b == y)) ≡ in_block (number a b c d) (number x y 0 0) 65536
  block_16 x y y_byte = ground (arith, b_byte, c_byte, d_byte, y_byte)

  block_12 : ((a == 172) && (b / 16 == 1)) ≡ in_block (number a b c d) (number 172 16 0 0) 1048576
  block_12 = ground (arith, b_byte, c_byte, d_byte)

  block_24 :
      ((a == 224) && ((b == 0) && (c == 0))) ≡ in_block (number a b c d) (number 224 0 0 0) 256
  block_24 = ground (arith, b_byte, c_byte, d_byte)

  zero_address : ((a == 0) && ((b == 0) && ((c == 0) && (d == 0)))) ≡ (number a b c d == 0)
  zero_address = ground (arith, b_byte, c_byte, d_byte)

  -- A metadata endpoint is link-local, so its own test refuses nothing more.
  blocked_v4 : is_blocked_ip (some (v4 a b c d)) ≡ (
      (a == 127)
      || ((a == 10)
          || (((a == 172) && (b / 16 == 1))
              || (((a == 192) && (b == 168))
                  || (((a == 169) && (b == 254))
                      || (((a == 224) && ((b == 0) && (c == 0)))
                          || ((a == 0) && ((b == 0) && ((c == 0) && (d == 0))))))))))
  unfolding is_blocked_ip is_loopback is_private is_link_local_unicast is_link_local_multicast
      is_unspecified is_metadata_endpoint
  blocked_v4 = ground arith

  -- An address of version 4 is refused exactly where it lies in one of the blocks 127/8, 10/8, 172.16/12,
  -- 192.168/16, 169.254/16 and 224.0.0/24 or is 0, where its last three parts are bytes.
  pub is_blocked_ip-in_blocks : is_blocked_ip (some (v4 a b c d)) ≡ in_blocks (number a b c d)
  is_blocked_ip-in_blocks =
      blocked_v4
      ∙ ap₂ ◌||◌ (block_8 127) (
          ap₂ ◌||◌ (block_8 10) (
            ap₂ ◌||◌ block_12 (
              ap₂ ◌||◌ (block_16 192 168 (omega arith))
                (ap₂ ◌||◌ (block_16 169 254 (omega arith)) (ap₂ ◌||◌ block_24 zero_address)))))
