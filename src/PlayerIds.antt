-- ===== src/PlayerIds.antt =====
-- The ids of players and guilds (src/share_data/server_player_id.go): the id of a server and a serial
-- number, packed into one int32.
use Prim.Native.Nat.{bit_and, bit_or}
use mm_server.Prelude.{ℕ, ◌+◌, ◌-◌, ◌*◌, ◌/◌, ◌%◌, ◌^◌, ◌<◌, ◌≡◌, ap, ap₂, ◌∙◌, arith}
use mm_server.Prelude.Int.{ℤ, pos, negsuc, ◌*ℤ◌}
use mm_server.Prelude.Int32.{signed32, wrap32, mul32}
use mm_server.Prelude.Bits.{IsMask, grow, low_digits, bit_or_disjoint, bit_and_shifted}

-- The bit pattern of an int32.
unfoldable pub pattern32 : ℤ → ℕ
pattern32 (pos n) = n % 2 ^ 32
pattern32 (negsuc n) = 2 ^ 32 - 1 - n % 2 ^ 32

-- Go's `&`, `|`, `<<` and `>>` on int32.
unfoldable pub and32 : ℤ → ℤ → ℤ
and32 a b = signed32 (bit_and (pattern32 a) (pattern32 b))

unfoldable pub or32 : ℤ → ℤ → ℤ
or32 a b = signed32 (bit_or (pattern32 a) (pattern32 b))

unfoldable pub shl32 : ℤ → ℕ → ℤ
shl32 a k = mul32 a (pos (2 ^ k))

unfoldable pub shr32 : ℤ → ℕ → ℤ
shr32 (pos n) k = pos (n / 2 ^ k)
shr32 (negsuc n) k = negsuc (n / 2 ^ k)

unfoldable pub get_server_id_by_player_id : ℤ → ℤ
get_server_id_by_player_id player_id = and32 (shr32 player_id 20) (pos 0xffff)

unfoldable pub generate_player_id : ℤ → ℤ → ℤ
generate_player_id server_id serial_id =
    or32 (and32 (shl32 server_id 20) (pos 0x7ff00000)) serial_id

unfoldable pub get_server_id_by_guild_id : ℤ → ℤ
get_server_id_by_guild_id guild_id = and32 (shr32 guild_id 20) (pos 0xffff)

unfoldable pub generate_guild_id : ℤ → ℤ → ℤ
generate_guild_id server_id serial_id = or32 (and32 (shl32 server_id 20) (pos 0x7ff00000)) serial_id

eleven_ones : IsMask 2047
eleven_ones = grow 1023 (
    grow 511 (
      grow 255
        (grow 127 (grow 63 (grow 31 (grow 15 (grow 7 (grow 3 (grow 1 (grow 0 low_digits))))))))))

sixteen_ones : IsMask 65535
sixteen_ones = grow 32767 (grow 16383 (grow 8191 (grow 4095 (grow 2047 eleven_ones))))

pattern32-signed32 : (w : ℕ) → w < 2 ^ 32 → pattern32 (signed32 w) ≡ w
unfolding pattern32
pattern32-signed32 w h = ground arith

product_bits : (s : ℕ) → mul32 (pos s) (pos (2 ^ 20)) ≡ signed32 (s * 2 ^ 20 % 2 ^ 32)
unfolding mul32 wrap32 ◌*ℤ◌
product_bits s = ground arith

shifted_pattern : (s : ℕ) → pattern32 (shl32 (pos s) 20) ≡ s % 4096 * 2 ^ 20
unfolding shl32
shifted_pattern s =
    ap pattern32 (product_bits s)
    ∙ pattern32-signed32 (s * 2 ^ 20 % 2 ^ 32) (omega arith)
    ∙ omega arith

server_bits : (s : ℕ) → and32 (shl32 (pos s) 20) (pos 0x7ff00000) ≡ pos (s % 2048 * 2 ^ 20)
unfolding and32 pattern32
server_bits s =
    let masked : bit_and (s % 4096 * 2 ^ 20) (2047 * 2 ^ 20) ≡ s % 2048 * 2 ^ 20 =
      bit_and_shifted 20 (s % 4096) 2047
      ∙ ap (λ x. x * 2 ^ 20) (eleven_ones (s % 4096) ∙ omega arith) in
    let pattern : bit_and (pattern32 (shl32 (pos s) 20)) (2047 * 2 ^ 20) ≡ s % 2048 * 2 ^ 20 =
      ap (λ x. bit_and x (2047 * 2 ^ 20)) (shifted_pattern s) ∙ masked in
    ap signed32 pattern ∙ ground arith

packed_id :
    (server serial : ℕ)
    → serial < 2 ^ 20
    → or32 (and32 (shl32 (pos server) 20) (pos 0x7ff00000)) (pos serial)
      ≡ pos (server % 2 ^ 11 * 2 ^ 20 + serial)
unfolding or32 pattern32
packed_id server serial h =
    let high : pattern32 (and32 (shl32 (pos server) 20) (pos 0x7ff00000)) ≡ server % 2048 * 2 ^ 20 =
      ap pattern32 (server_bits server) ∙ omega arith in
    let low : serial % 2 ^ 32 ≡ serial = omega arith in
    ap signed32 (ap₂ bit_or high low ∙ bit_or_disjoint 20 (server % 2048) serial h) ∙ ground arith

unpacked :
    (server serial : ℕ)
    → serial < 2 ^ 20
    → and32 (shr32 (pos (server % 2 ^ 11 * 2 ^ 20 + serial)) 20) (pos 0xffff)
      ≡ pos (server % 2 ^ 11)
unfolding and32 shr32 pattern32
unpacked server serial h =
    let high : (server % 2048 * 2 ^ 20 + serial) / 2 ^ 20 % 2 ^ 32 ≡ server % 2048 = omega arith in
    let masked : bit_and (server % 2048) 65535 ≡ server % 2048 =
      sixteen_ones (server % 2048) ∙ omega arith in
    ap signed32 (ap (λ x. bit_and x 65535) high ∙ masked) ∙ ground arith

-- A player's id keeps the lowest eleven binary digits of the server's id and the serial number, where
-- that has at most twenty digits: the server's id is read back from it, modulo 2 ^ 11, and so is the
-- serial number.
pub player_id_round_trip :
    (server serial : ℕ)
    → serial < 2 ^ 20
    → (generate_player_id (pos server) (pos serial) ≡ pos (server % 2 ^ 11 * 2 ^ 20 + serial))
      × (get_server_id_by_player_id (generate_player_id (pos server) (pos serial))
          ≡ pos (server % 2 ^ 11))
unfolding generate_player_id get_server_id_by_player_id
player_id_round_trip server serial h =
    let packed = packed_id server serial h in
    (packed, ap (λ p. and32 (shr32 p 20) (pos 0xffff)) packed ∙ unpacked server serial h)
