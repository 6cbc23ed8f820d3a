-- ===== src/Http/Connection.antt =====
-- A connection's HTTP side: http/connection.h and http/connection.cc (Connection), over the codecs,
-- which fills the interface of the connection table.
use net_policy.Common.{
  ℕ, ◌≡◌, refl, Bool, false, Option, none, some, [], ◌∷◌, ◌++◌, Text, Option-cases, inl, inr,
}
use net_policy.Http.{Header, HttpConnection, ParseState, continue, done, error}
use net_policy.Http.Inspector.{
  Llhttp, Protocol, http10, http11, http2, http3, HttpInspector, new_inspector, parse_http_header,
}
use net_policy.Http.Filters.{
  Filter, FilterStatus, filter_continue, stop_iteration, HttpFilterManager, add_filter, no_filters,
}
use net_policy.Http.Http1.{Http1Parser, Http1Connection, new_http1, dispatch_http1}
use net_policy.Http.Http2.{Nghttp2, Http2Connection, new_http2, dispatch_http2}

-- The libraries, and what the memory of payloads that were kept holds when they are read again: the
-- packet that keeps them points into them and copies nothing. A pointer to a payload's first byte is
-- read as a text up to the next zero byte.
pub record Libraries : Type 1 where
  pub llhttp : Llhttp
  pub http1 : Http1Parser
  pub nghttp2 : Nghttp2
  pub reread : Text → Text
  pub c_string : Text → Text

module _ (libs : Libraries) where
  open libs use {llhttp, http1, nghttp2, reread, c_string}

  pub data Codec : Type 0 where
    http1_codec : Http1Connection http1 → Codec
    http2_codec : Http2Connection nghttp2 → Codec

  pub record Connection (W : Type 0) : Type 0 where
    pub tcp_seq : ℕ
    pub rule_key : Text
    pub codec : Option Codec
    pub inspector : HttpInspector llhttp
    pub header : Header
    pub packet : Text
    pub filters_manager : HttpFilterManager W
    pub server_side : Bool

  unfoldable pub create_codec : Option Protocol → Option Codec
  create_codec none = none
  create_codec (some http10) = some (http1_codec (new_http1 http1))
  create_codec (some http11) = some (http1_codec (new_http1 http1))
  create_codec (some http2) = some (http2_codec (new_http2 nghttp2))
  create_codec (some http3) = none

  unfoldable pub header_of : Codec → Header
  header_of (http1_codec c) = c.header
  header_of (http2_codec c) = c.header

  -- The status that a codec's last header got from the filters; the one of HTTP/2 is never set.
  unfoldable pub status_of : Codec → Option FilterStatus
  status_of (http1_codec c) = c.status
  status_of (http2_codec c) = none

  module _ {W : Type 0} where
    unfoldable pub new_connection : Text → HttpFilterManager W → Bool → Connection W
    new_connection key manager server_side = record {
      tcp_seq = 0;
      rule_key = key;
      codec = none;
      inspector = new_inspector llhttp;
      header = record { method = []; path = []; host = []; parse_state = continue };
      packet = [];
      filters_manager = manager;
      server_side = server_side;
    }

    unfoldable pub dispatch : HttpFilterManager W → Bool → W → Codec → Text → W × Codec
    dispatch manager server_side w (http1_codec c) bytes =
        let (w', c') = dispatch_http1 http1 manager server_side w c bytes in (w', http1_codec c')
    dispatch manager server_side w (http2_codec c) bytes =
        (w, http2_codec (dispatch_http2 nghttp2 c bytes))

    -- The bytes that were kept go first.
    unfoldable pub dispatch_packet : HttpFilterManager W → Bool → W → Codec → Text → W × Codec
    dispatch_packet manager server_side w codec [] = (w, codec)
    dispatch_packet manager server_side w codec (b ∷ packet) =
        dispatch manager server_side w codec (reread (b ∷ packet))

    unfoldable pub feed_codec : W → Connection W → Codec → Text → W × Connection W × Header
    feed_codec w c codec bytes =
        let (w1, first) = dispatch_packet c.filters_manager c.server_side w codec c.packet in
        let (w2, last) = dispatch c.filters_manager c.server_side w1 first bytes in
        (w2, record c { codec = some last; packet = [] }, header_of last)

    abbrev pub inspected : Connection W → HttpInspector llhttp → ParseState → Connection W
    inspected c inspector state = record c {
      inspector = inspector;
      header = record c.header { parse_state = state };
    }

    -- A codec that could not be made is never used: the inspector knows two protocols.
    abbrev feed_new : W → Connection W → Option Codec → Text → W × Connection W × Header
    feed_new w c none bytes = (w, c, c.header)
    feed_new w c (some codec) bytes = feed_codec w c codec bytes

    unfoldable pub inspect_data :
        W → Connection W → HttpInspector llhttp → ParseState → Text → W × Connection W × Header
    inspect_data w c inspector done bytes =
        feed_new w (inspected c inspector done) (create_codec inspector.protocol) bytes
    inspect_data w c inspector continue bytes =
        let kept : Connection W = record (inspected c inspector continue) {
          packet = c.packet ++ bytes;
        } in
        (w, kept, kept.header)
    inspect_data w c inspector error bytes =
        let refused = inspected c inspector error in (w, refused, refused.header)

    abbrev pub take_codec : W → Connection W → Option Codec → Text → W × Connection W × Header
    take_codec w c (some codec) bytes = feed_codec w c codec bytes
    take_codec w c none bytes =
        let (inspector, state) = parse_http_header llhttp c.inspector bytes in
        inspect_data w c inspector state bytes

    unfoldable pub on_data : W → Connection W → Text → W × Connection W × Header
    on_data w c bytes = take_codec w c c.codec bytes

    -- The status of `processData`: with a codec it is the codec's, otherwise it says whether more is
    -- awaited.
    abbrev status_after : Connection W → Option FilterStatus
    status_after c = elim c.codec [
      | some codec ↦ status_of codec
      | none ↦ elim c.header.parse_state [
        | continue ↦ some filter_continue
        | done ↦ none
        | error ↦ some stop_iteration
      ]
    ]

    abbrev take_in :
        W
        → Connection W
        → Text
        → HttpInspector llhttp
        → ParseState
        → Option Codec
        → W × Connection W × Header
    take_in w c bytes inspector state none = inspect_data w c inspector state bytes
    take_in w c bytes inspector state (some codec) = feed_codec w c codec bytes

    -- The inspector is handed a pointer without the length.
    unfoldable pub process_data : W → Connection W → Text → W × Connection W × Option FilterStatus
    process_data w c [] = (w, c, some filter_continue)
    process_data w c (b ∷ bytes) =
        let (inspector, state) = parse_http_header llhttp c.inspector (c_string (b ∷ bytes)) in
        let (w', c', header) = take_in w c (b ∷ bytes) inspector state c.codec in
        (w', c', status_after c')

    -- A connection with a codec adds the filter a second time: the codec shares the manager.
    unfoldable pub register_filter : Connection W → Filter W → Connection W
    register_filter c filter = elim c.codec [
      | none ↦ record c { filters_manager = add_filter c.filters_manager filter }
      | some codec ↦ record c {
        filters_manager = add_filter (add_filter c.filters_manager filter) filter;
      }
    ]

    feed_codec-rule_key :
        (w : W) (c : Connection W) (codec : Codec) (bytes : Text)
        → (feed_codec w c codec bytes).1.rule_key ≡ c.rule_key
    unfolding feed_codec
    feed_codec-rule_key w c codec bytes = refl

    inspect_data-rule_key :
        (w : W) (c : Connection W) (i : HttpInspector llhttp) (s : ParseState) (bytes : Text)
        → (inspect_data w c i s bytes).1.rule_key ≡ c.rule_key
    unfolding inspect_data
    inspect_data-rule_key w c i done bytes = elim (Option-cases (create_codec i.protocol)) [
      | inl e ↦ rw (e) refl
      | inr (codec, e) ↦ rw (e) (feed_codec-rule_key w (inspected c i done) codec bytes)
    ]
    inspect_data-rule_key w c i continue bytes = refl
    inspect_data-rule_key w c i error bytes = refl

    pub on_data-rule_key :
        (w : W) (c : Connection W) (bytes : Text) → (on_data w c bytes).1.rule_key ≡ c.rule_key
    unfolding on_data
    on_data-rule_key w c bytes = by_codec c.codec
      where
        by_codec : (o : Option Codec) → (take_codec w c o bytes).1.rule_key ≡ c.rule_key
        by_codec none = inspect_data-rule_key w c _ _ bytes
        by_codec (some codec) = feed_codec-rule_key w c codec bytes

  -- The connections of the connection table: made for a rule key, without filters.
  abbrev pub http_connection : HttpConnection
  unfolding new_connection
  http_connection = record {
    Connection = Connection (Unit {0});
    connection = λ key. new_connection key no_filters false;
    get_rule_key = λ c. c.rule_key;
    on_data = λ c payload. ((on_data tt c payload).1, (on_data tt c payload).2);
    get_rule_key-connection = λ key. refl;
    get_rule_key-on_data = λ c payload. on_data-rule_key tt c payload;
  }
