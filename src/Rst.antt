-- ===== src/Rst.antt =====
-- The reset of a denied connection's packet: net-policy.cpp (rst_tcp_link, TcpCsum, csum) and
-- net-policy.h (PseudoHeader), on a little-endian machine. The source does not check the packet's
-- total length: where it reads or writes outside the packet, or behind the end of its buffer on the
-- stack, the result is `none`, undefined behaviour.
pub mod Payload
pub mod Checksum
use net_policy.Common.{
  ℕ, zero, suc, ◌+◌, ◌-◌, ◌*◌, ◌/◌, ◌%◌, Bool, true, false, not, ◌&&◌, Option, none, some, length,
  List, [], ◌∷◌, ◌++◌, ltb, leb, ◌==◌, nat_eq, if◌then◌else◌, Text, byte_at, take_padded, drop, set,
}
use net_policy.Packet.{ipproto_tcp}

-- The sum of the little-endian 16-bit words of a block; an odd last byte counts alone.
unfoldable pub word_sum : Text → ℕ
word_sum [] = 0
word_sum (a ∷ []) = a
word_sum (a ∷ (b ∷ s)) = a + b * 256 + word_sum s

-- `while (sum >> 16) sum = (sum & 0xffff) + (sum >> 16)`, with fuel.
unfoldable pub fold_sum : ℕ → ℕ → ℕ
fold_sum zero sum = sum
fold_sum (suc fuel) sum =
    let rest = fold_sum fuel (sum % 65536 + sum / 65536) in if sum / 65536 == 0 then sum else rest

-- The fuel: a sum above 65535 falls at each round.
unfoldable pub csum : Text → ℕ
unfolding word_sum fold_sum
csum packet = 65535 - fold_sum (word_sum packet) (word_sum packet)

abbrev pub ihl_bytes : Text → ℕ
ihl_bytes pkg = byte_at pkg 0 % 16 * 4

abbrev pub tot_len : Text → ℕ
tot_len pkg = byte_at pkg 2 * 256 + byte_at pkg 3

-- `tot_len - (ihl << 2)` as a `uint16_t`.
abbrev pub segment_len : Text → ℕ
segment_len pkg = (tot_len pkg + 65536 - ihl_bytes pkg) % 65536

-- The bytes of the addresses, of the pseudo header.
abbrev pseudo_header : Text → Text
pseudo_header pkg =
    byte_at pkg 12
    ∷ (byte_at pkg 13
        ∷ (byte_at pkg 14
            ∷ (byte_at pkg 15
                ∷ (byte_at pkg 16
                    ∷ (byte_at pkg 17
                        ∷ (byte_at pkg 18
                            ∷ (byte_at pkg 19
                                ∷ (0
                                    ∷ (byte_at pkg 9
                                        ∷ (segment_len pkg / 256
                                            ∷ (segment_len pkg % 256 ∷ [])))))))))))

-- `sizeof(buffer)` and `sizeof(PSEUDO_HEADER)`.
abbrev pub buffer_size : ℕ
buffer_size = 2048

abbrev pub pseudo_size : ℕ
pseudo_size = 12

-- What `memcpy` reads lies in the packet, and what it writes lies in the buffer.
unfoldable pub copies_in_bounds : Text → Bool
copies_in_bounds pkg =
    leb (pseudo_size + segment_len pkg) buffer_size
    && leb (ihl_bytes pkg + segment_len pkg) (length pkg)

-- The block that is summed, the filled part of the buffer: the pseudo header and the segment with
-- its checksum cleared.
unfoldable pub csum_block : Text → Option Text
unfolding copies_in_bounds
csum_block pkg =
    if copies_in_bounds pkg
    then some (
        pseudo_header pkg
        ++ set (set (take_padded (segment_len pkg) (drop (ihl_bytes pkg) pkg)) 16 0) 17 0)
    else none

unfoldable pub tcp_csum : Text → Option ℕ
unfolding csum csum_block
tcp_csum pkg =
    if not (byte_at pkg 9 == ipproto_tcp)
    then some 0
    else if leb buffer_size (tot_len pkg)
    then some 0
    else elim (csum_block pkg) [ none ↦ none | some block ↦ some (csum block) ]

-- The loop over the payload, which stops behind its eighth byte.
unfoldable pub clear_payload : ℕ → ℕ → ℕ → Text → Text
clear_payload zero offset i pkg = pkg
clear_payload (suc left) offset i pkg =
    let rest = clear_payload left offset (suc i) (set pkg (offset + i) 0) in
    if ltb 6 i then set pkg (offset + i) 0 else rest

abbrev pub payload_start : Text → ℕ
payload_start pkg = ihl_bytes pkg + byte_at pkg (ihl_bytes pkg + 12) / 16 * 4

-- `tcph->check = ...`: a 16-bit store, `tcph` being at the given offset.
abbrev pub store_check : Text → ℕ → ℕ → Text
store_check pkg tcph check = set (set pkg (tcph + 16) (check % 256)) (tcph + 17) (check / 256)

-- Where the loop over the payload stops; 0 if it has no round.
abbrev pub clear_end : Text → ℕ
clear_end pkg =
    if leb (tot_len pkg) (payload_start pkg)
    then 0
    else if leb (tot_len pkg) (payload_start pkg + 8)
    then tot_len pkg
    else payload_start pkg + 8

-- The TCP header's data offset and checksum and the bytes that the loop clears lie in the packet.
unfoldable pub writes_in_bounds : Text → Bool
writes_in_bounds pkg = leb (ihl_bytes pkg + 18) (length pkg) && leb (clear_end pkg) (length pkg)

unfoldable pub rst_tcp_link : Text → Option Text
unfolding clear_payload tcp_csum writes_in_bounds
rst_tcp_link pkg =
    if not (byte_at pkg 0 / 16 == 4)
    then some pkg
    else if not (byte_at pkg 9 == ipproto_tcp)
    then some pkg
    else if not (writes_in_bounds pkg)
    then none
    else let cleared = clear_payload (tot_len pkg - payload_start pkg) (payload_start pkg) 0 pkg in
      elim (tcp_csum cleared) [
        | none ↦ none
        | some check ↦ some (store_check cleared (ihl_bytes pkg) check)
      ]
