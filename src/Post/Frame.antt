-- ===== src/Post/Frame.antt =====
-- The frame of a match message and the buffer that it is printed into (SendMatchMsg of
-- net-policy.cpp).
use net_policy.Common.{
  ℕ, ◌+◌, ◌*◌, ◌<◌, ◌≤◌, ◌≡◌, ◌≢◌, ◌↔◌, ◌⊎◌, true, length, nat_eq, Text, byte_at, length-append,
  arith, refl,
}
use net_policy.Microseg.{Host}
use net_policy.Post.{
  MatchEvent, PostServer, frame_header, match_text, publish, write_frame, send_match_msg,
  dir_number,
}

-- What a reader of the frame takes the length to be.
abbrev pub frame_length : Text → ℕ
frame_length frame =
    byte_at frame 7 + byte_at frame 8 * 256 + byte_at frame 9 * 65536 + byte_at frame 10 * 16777216

-- The header of a message that is shorter than 2 ^ 32 bytes has eleven bytes, from which the length
-- is read back.
pub frame_length-frame_header :
    (len : ℕ)
    → len < 4294967296
    → (length (frame_header len) ≡ 11) × (frame_length (frame_header len) ≡ len)
unfolding frame_header
frame_length-frame_header len h = (refl, omega arith)

module _ (host : Host) where
  open host use {show_d}

  -- The text's length: its fixed part, and what it prints.
  length-match_text :
      (e : MatchEvent)
      → length (match_text host e)
        ≡ 116
          + (length (show_d e.tuple.proto)
              + length (show_d e.action)
              + length (show_d (dir_number e.dir))
              + length (show_d e.tuple.src_port)
              + length (show_d e.tuple.dst_port)
              + length e.tuple.src_addr
              + length e.tuple.dst_addr
              + length e.rule_key)
  unfolding match_text
  length-match_text e = simp (length-append) (omega arith)

  -- The buffer is overrun exactly if it was before, or there is a client and the printed numbers,
  -- addresses and rule key have 908 bytes or more together: a rule key that long is enough.
  pub send_match_msg_overrun :
      (p : PostServer) (e : MatchEvent)
      → ((send_match_msg host p e).overrun ≡ true) ↔ (
          (p.overrun ≡ true)
          ⊎ ((p.post_link_fd ≢ 0)
              × (908
                  ≤ length (show_d e.tuple.proto)
                    + length (show_d e.action)
                    + length (show_d (dir_number e.dir))
                    + length (show_d e.tuple.src_port)
                    + length (show_d e.tuple.dst_port)
                    + length e.tuple.src_addr
                    + length e.tuple.dst_addr
                    + length e.rule_key)))
  unfolding send_match_msg publish write_frame
  send_match_msg_overrun p e = ground (arith, length-match_text e)
