-- ===== src/Http/Filters.antt =====
-- The filters of a connection: http/filter.h, http/filter.cc (HttpFilterManager),
-- http/http_filter_factory.h, http/http_filter_factory.cc (HttpFilterFactory), http/header.h
-- (RequestHeaderMap) and http/extension/log.cc (LogFilter). The filters that a program adds are
-- parameters that act on a state of their own, which all share here.
use net_policy.Common.Maps.{lookup, contains_key, insert}
use net_policy.Common.{
  ℕ, ◌≡◌, refl, Bool, true, false, none, some, List, [], ◌∷◌, ◌++◌, length, text_eq, if◌then◌else◌,
  Text, Map, ◌⊎◌, inl, inr,
}

pub data FilterStatus : Type 0 where
  filter_continue stop_iteration drop_pkt : FilterStatus

abbrev pub RequestHeaderMap : Type 0
RequestHeaderMap = Map Text Text

-- `unordered_map::insert` keeps the value that is there.
unfoldable pub add_header : Text → Text → RequestHeaderMap → RequestHeaderMap
add_header key value headers =
    if contains_key key headers then headers else insert key value headers

unfoldable pub get_http_header : Text → RequestHeaderMap → Text
get_http_header key headers = elim (lookup key headers) [ none ↦ [] | some value ↦ value ]

-- The address of the segment's bytes is a number.
pub record TcpSegment : Type 0 where
  pub from : ℕ
  pub to : ℕ
  pub base : ℕ
  pub size : ℕ

-- `net::ConnectionInfo` of net/stream.h.
pub record ConnectionInfo : Type 0 where
  pub from : Text
  pub to : Text
  pub source_port : ℕ
  pub dest_port : ℕ

-- What a filter answers: the state, the thing it was shown, and its status.
abbrev pub Answer : Type 0 → Type 0 → Type 0
Answer W X = W × X × FilterStatus

pub record Filter (W : Type 0) : Type 0 where
  pub on_request_headers : W → RequestHeaderMap → Answer W RequestHeaderMap
  pub on_response_headers : W → RequestHeaderMap → Answer W RequestHeaderMap
  pub on_request_body : W → Text → Answer W Text
  pub on_response_body : W → Text → Answer W Text
  pub on_new_connection : W → ConnectionInfo → Answer W ConnectionInfo
  pub on_data : W → Text → Answer W Text
  pub on_close : W → W
  pub set_tcp_segment : W → ℕ → ℕ → W

module _ {W : Type 0} where
  -- A callback that only logs.
  abbrev logs : {X : Type 0} → W → X → Answer W X
  logs w x = (w, x, filter_continue)

  abbrev pub log_filter : Filter W
  log_filter = record {
    on_request_headers = logs;
    on_response_headers = logs;
    on_request_body = logs;
    on_response_body = logs;
    on_new_connection = logs;
    on_data = logs;
    on_close = λ w. w;
    set_tcp_segment = λ w base size. w;
  }

  -- The loop that all callbacks with a status share: it ends at `StopIteration`; any other status,
  -- `DropPkt` too, goes on.
  unfoldable pub run_filters :
      {X : Type 0} → (Filter W → W → X → Answer W X) → List (Filter W) → W → X → Answer W X
  run_filters callback [] w x = (w, x, filter_continue)
  run_filters callback (filter ∷ filters) w x =
      let (w', x', status) = callback filter w x in
      elim status [
        | filter_continue ↦ run_filters callback filters w' x'
        | drop_pkt ↦ run_filters callback filters w' x'
        | stop_iteration ↦ (w', x', stop_iteration)
      ]

  unfoldable pub close_filters : List (Filter W) → W → W
  close_filters [] w = w
  close_filters (filter ∷ filters) w = close_filters filters (filter.on_close w)

  unfoldable pub set_segments : List (Filter W) → W → ℕ → ℕ → W
  set_segments [] w base size = w
  set_segments (filter ∷ filters) w base size =
      set_segments filters (filter.set_tcp_segment w base size) base size

-- A callback of a factory, and the filter that it makes for a connection.
abbrev pub FilterCb : Type 0 → Type 0
FilterCb W = ℕ → ℕ → ℕ → Filter W

pub record HttpFilterManager (W : Type 0) : Type 0 where
  pub filters : List (Filter W)
  pub tcp_segment : TcpSegment
  pub connection : ConnectionInfo

module _ {W : Type 0} where
  unfoldable pub add_filter : HttpFilterManager W → Filter W → HttpFilterManager W
  add_filter m filter = record m { filters = m.filters ++ (filter ∷ []) }

  -- The default constructor.
  abbrev pub no_filters : HttpFilterManager W
  no_filters = record {
    filters = [];
    tcp_segment = record { from = 0; to = 0; base = 0; size = 0 };
    connection = record { from = []; to = []; source_port = 0; dest_port = 0 };
  }

  -- `HttpFilterFactory::registerFilter`.
  unfoldable pub register_callback : List (FilterCb W) → FilterCb W → List (FilterCb W)
  register_callback callbacks cb = callbacks ++ (cb ∷ [])

  -- `HttpFilterFactory::traverse` with the constructor's function.
  unfoldable pub add_all : List (FilterCb W) → ℕ → ℕ → ℕ → HttpFilterManager W → HttpFilterManager W
  add_all [] key from to m = m
  add_all (cb ∷ callbacks) key from to m =
      add_all callbacks key from to (add_filter m (cb key from to))

  unfoldable pub new_manager : List (FilterCb W) → ℕ → ℕ → ℕ → HttpFilterManager W
  new_manager callbacks key from to =
      let m = add_all callbacks key from to no_filters in
      record m { tcp_segment = record { from = from; to = to; base = 0; size = 0 } }

  module _ (m : HttpFilterManager W) where
    unfoldable pub decode_headers : W → RequestHeaderMap → Bool → Answer W RequestHeaderMap
    decode_headers w headers true = run_filters (λ f. f.on_request_headers) m.filters w headers
    decode_headers w headers false = run_filters (λ f. f.on_response_headers) m.filters w headers

    unfoldable pub decode_body : W → Text → Bool → Answer W Text
    decode_body w body true = run_filters (λ f. f.on_request_body) m.filters w body
    decode_body w body false = run_filters (λ f. f.on_response_body) m.filters w body

    unfoldable pub on_new_connection :
        W → ConnectionInfo → HttpFilterManager W × Answer W ConnectionInfo
    on_new_connection w conn =
        (record m { connection = conn }, run_filters (λ f. f.on_new_connection) m.filters w conn)

    unfoldable pub on_filter_data : W → Text → Answer W Text
    on_filter_data w bytes = run_filters (λ f. f.on_data) m.filters w bytes

    unfoldable pub on_close : W → W × FilterStatus
    on_close w = (close_filters m.filters w, filter_continue)

    unfoldable pub set_tcp_segment : W → ℕ → Text → W × HttpFilterManager W
    set_tcp_segment w base p = (
      set_segments m.filters w base (length p),
      record m { tcp_segment = record m.tcp_segment { base = base; size = length p } },
    )

FilterStatus-cases :
    (s : FilterStatus) → (s ≡ stop_iteration) ⊎ ((s ≡ filter_continue) ⊎ (s ≡ drop_pkt))
FilterStatus-cases stop_iteration = inl refl
FilterStatus-cases filter_continue = inr (inl refl)
FilterStatus-cases drop_pkt = inr (inr refl)

module _ {W X : Type 0} where
  -- The run over more filters goes on behind the first ones exactly if they do not stop it.
  abbrev go_on : (Filter W → W → X → Answer W X) → List (Filter W) → Answer W X → Answer W X
  go_on callback filters (w, x, filter_continue) = run_filters callback filters w x
  go_on callback filters (w, x, drop_pkt) = run_filters callback filters w x
  go_on callback filters (w, x, stop_iteration) = (w, x, stop_iteration)

  pub run_filters-append :
      (callback : Filter W → W → X → Answer W X) (first second : List (Filter W)) (w : W) (x : X)
      → run_filters callback (first ++ second) w x
        ≡ go_on callback second (run_filters callback first w x)
  unfolding run_filters
  run_filters-append callback [] second w x = refl
  run_filters-append callback (filter ∷ first) second w x =
      let (w', x', status) = callback filter w x in
      elim (FilterStatus-cases status) [
        | inl e ↦ rw (e, run_filters) refl
        | inr (inl e) ↦ rw (e, run_filters) (run_filters-append callback first second w' x')
        | inr (inr e) ↦ rw (e, run_filters) (run_filters-append callback first second w' x')
      ]
