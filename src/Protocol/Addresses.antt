-- ===== src/Protocol/Addresses.antt =====
-- Private addresses, against the ranges of the address as a number.
use ti_features.Prelude.{ℕ, ◌+◌, ◌*◌, ◌%◌, ◌/◌, ◌<◌, ◌≡◌, Bool, ◌&&◌, ◌||◌, leb, ◌==◌, arith, refl}
use ti_features.Protocol.{is_private_ip}

-- The address a.b.c.d as a machine word in network order on a little-endian machine, and as a
-- number.
abbrev pub word_of : ℕ → ℕ → ℕ → ℕ → ℕ
word_of a b c d = a + 256 * b + 65536 * c + 16777216 * d

abbrev pub number_of : ℕ → ℕ → ℕ → ℕ → ℕ
number_of a b c d = 16777216 * a + 65536 * b + 256 * c + d

-- A number in the block of `size` numbers from that of the address a.b.0.0.
abbrev pub is_in : ℕ → ℕ → ℕ → ℕ → Bool
is_in n a b size = leb (number_of a b 0 0) n && leb (n + 1) (number_of a b 0 0 + size)

word_bytes :
    (a b c d : ℕ)
    → a < 256
    → b < 256
    → (word_of a b c d % 256 ≡ a) × (word_of a b c d / 256 % 256 ≡ b)
word_bytes a b c d ha hb = omega arith

whole_block :
    (a b c d first : ℕ)
    → b < 256
    → c < 256
    → d < 256
    → is_in (number_of a b c d) first 0 16777216 ≡ (a == first)
whole_block a b c d first hb hc hd = ground arith

half_block :
    (a b c d : ℕ)
    → b < 256
    → c < 256
    → d < 256
    → is_in (number_of a b c d) 172 16 1048576 ≡ ((a == 172) && leb 16 b && leb b 31)
half_block a b c d hb hc hd = ground arith

small_block :
    (a b c d : ℕ)
    → b < 256
    → c < 256
    → d < 256
    → is_in (number_of a b c d) 192 168 65536 ≡ ((a == 192) && (b == 168))
small_block a b c d hb hc hd = ground arith

-- An address is private exactly when it lies in 10.0.0.0/8, 172.16.0.0/12, 192.168.0.0/16 or
-- 127.0.0.0/8, blocks of 2 ^ 24, 2 ^ 20, 2 ^ 16 and 2 ^ 24 addresses.
is_private_ip-blocks :
    (a b c d : ℕ)
    → a < 256
    → b < 256
    → c < 256
    → d < 256
    → let n = number_of a b c d in
      is_private_ip (word_of a b c d) ≡ (
        is_in n 10 0 16777216
        || is_in n 172 16 1048576
        || is_in n 192 168 65536
        || is_in n 127 0 16777216)
unfolding is_private_ip
is_private_ip-blocks a b c d ha hb hc hd =
    let (first, second) = word_bytes a b c d ha hb in
    rw first (
      rw second (
        rw (whole_block a b c d 10 hb hc hd) (
          rw (whole_block a b c d 127 hb hc hd)
            (rw (half_block a b c d hb hc hd) (rw (small_block a b c d hb hc hd) refl)))))
