-- ===== src/Post.antt =====
-- The notifications of policy matches: net-policy.h and net-policy.cpp (PostServer). The server
-- keeps what it published to the event service, what it wrote to its client and which descriptors
-- it closed, and whether its `sprintf` ever wrote past its buffer.
pub mod Frame
use net_policy.Common.{
  ℕ, suc, ◌+◌, ◌/◌, ◌%◌, ◌<◌, ◌≤◌, ◌≡◌, Bool, true, false, ◌&&◌, ◌||◌, not, Option, none, some,
  List, [], ◌∷◌, ◌++◌, length, leb, ltb, ◌==◌, nat_eq, if◌then◌else◌, Text, codes,
}
use net_policy.Policy.{NetPolicyRule, FlowDir, ingress, egress}
use net_policy.Microseg.{Host, FiveTuple}

pub record MatchEvent : Type 0 where
  pub tuple : FiveTuple
  pub action : NetPolicyRule
  pub dir : FlowDir
  pub rule_key : Text

pub record PostServer : Type 0 where
  pub post_link_fd : ℕ
  pub closed_fds : List ℕ
  pub published : List MatchEvent
  pub written : List Text
  pub overrun : Bool

-- `Accept`: a descriptor that is left behind is closed.
unfoldable pub accept : PostServer → ℕ → PostServer
accept p client_fd =
    if ltb 0 p.post_link_fd && not (client_fd == p.post_link_fd)
    then record p { post_link_fd = client_fd; closed_fds = p.closed_fds ++ (p.post_link_fd ∷ []) }
    else record p { post_link_fd = client_fd }

unfoldable pub dir_number : FlowDir → ℕ
dir_number ingress = 0
dir_number egress = 1

abbrev pub data_size : ℕ
data_size = 1024

-- `#%% pre` and the length in four bytes, the lowest first.
unfoldable pub frame_header : ℕ → Text
frame_header len =
    codes "#%% pre"
    ++ (len % 256 ∷ (len / 256 % 256 ∷ (len / 65536 % 256 ∷ (len / 16777216 % 256 ∷ []))))

module _ (host : Host) where
  open host use {show_d, is_valid_utf8, write_ok}

  -- The text that `sprintf` prints.
  unfoldable pub match_text : MatchEvent → Text
  unfolding dir_number
  match_text e =
      codes "{\"type\":\"microseg\",\"proto\":"
      ++ (show_d e.tuple.proto
          ++ (codes ",\"action\":"
              ++ (show_d e.action
                  ++ (codes ",\"direction\":"
                      ++ (show_d (dir_number e.dir)
                          ++ (codes ",\"src_port\":"
                              ++ (show_d e.tuple.src_port
                                  ++ (codes ",\"dst_port\":"
                                      ++ (show_d e.tuple.dst_port
                                          ++ (codes ",\"src_ip\":\""
                                              ++ (e.tuple.src_addr
                                                  ++ (codes "\",\"dst_ip\":\""
                                                      ++ (e.tuple.dst_addr
                                                          ++ (codes "\",\"policy_name\":\""
                                                            ++ (e.rule_key
                                                            ++ codes "\"}")))))))))))))))

  -- The part before the early return: the event service gets texts that are valid UTF-8.
  unfoldable pub publish : PostServer → MatchEvent → PostServer
  publish p e =
      if is_valid_utf8 e.tuple.src_addr
        && (is_valid_utf8 e.tuple.dst_addr && is_valid_utf8 e.rule_key)
      then record p { published = p.published ++ (e ∷ []) }
      else p

  -- The two writes; the second is made if the first succeeds.
  unfoldable pub write_frame : PostServer → Text → PostServer
  unfolding frame_header
  write_frame p text =
      if write_ok p.post_link_fd (frame_header (length text))
      then if write_ok p.post_link_fd text
        then record p { written = p.written ++ (frame_header (length text) ∷ (text ∷ [])) }
        else record p { written = p.written ++ (frame_header (length text) ∷ []) }
      else p

  unfoldable pub send_match_msg : PostServer → MatchEvent → PostServer
  unfolding publish write_frame match_text
  send_match_msg p e =
      let published = publish p e in
      if p.post_link_fd == 0
      then published
      else write_frame
          (record published { overrun = p.overrun || leb data_size (length (match_text e)) })
          (match_text e)
