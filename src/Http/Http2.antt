-- ===== src/Http/Http2.antt =====
-- The adapter over nghttp2: http/http2/codec.hh and http/http2/codec.cc (http2::ConnectionImpl). The
-- library's session is a parameter: receiving bytes makes a list of callbacks and succeeds or fails.
-- The copy of the header that the callbacks keep for each stream is never read, and is left out.
use net_policy.Common.{
  Bool, true, false, not, ◌||◌, List, [], ◌∷◌, ◌==◌, text_eq, if◌then◌else◌, Text, codes,
}
use net_policy.Http.{Header, continue, done, error}

-- `on_header_callback`: whether the frame is HEADERS of a request, the name and the value. The other
-- callbacks only log or keep the streams' copies.
pub record OnHeader : Type 0 where
  pub is_request : Bool
  pub name : Text
  pub value : Text

-- `nghttp2_session_server_new` and `nghttp2_session_mem_recv`, with whether it returns no error.
pub record Nghttp2 : Type 1 where
  pub Session : Type 0
  pub server_new : Session
  pub mem_recv : Session → Text → Session × List OnHeader × Bool

abbrev is_empty : Text → Bool
is_empty [] = true
is_empty (b ∷ bytes) = false

unfoldable pub is_header_complete : Header → Bool
is_header_complete h = not (is_empty h.path || (is_empty h.host || is_empty h.method))

unfoldable pub set_member : Text → Text → Header → Header
set_member name value h =
    if name == codes ":method"
    then record h { method = value }
    else if name == codes ":path"
    then record h { path = value }
    else if name == codes ":authority"
    then record h { host = value }
    else h

unfoldable pub on_header : OnHeader → Header → Header
on_header call h =
    if not call.is_request
    then h
    else let named = set_member call.name call.value h in
      if is_header_complete named then record named { parse_state = done } else named

unfoldable pub on_headers : List OnHeader → Header → Header
on_headers [] h = h
on_headers (call ∷ calls) h = on_headers calls (on_header call h)

module _ (nghttp2 : Nghttp2) where
  open nghttp2 use {Session, server_new, mem_recv}

  pub record Http2Connection : Type 0 where
    pub session : Session
    pub header : Header

  abbrev pub new_http2 : Http2Connection
  new_http2 = record {
    session = server_new;
    header = record { method = []; path = []; host = []; parse_state = continue };
  }

  -- Both overloads of `dispatch`; the filters are not called.
  unfoldable pub dispatch_http2 : Http2Connection → Text → Http2Connection
  dispatch_http2 c bytes =
      if is_header_complete c.header
      then c
      else let (session, calls, ok) = mem_recv c.session bytes in
        let header = on_headers calls c.header in
        record {
          session = session;
          header = if ok then header else record header { parse_state = error };
        }
