-- ===== src/Http/Buffering.antt =====
-- Payloads over several packets: Connection::onData of http/connection.cc.
use net_policy.Common.{◌≡◌, refl, ap, sym, ◌∙◌, none, some, List, [], ◌∷◌, ◌++◌, Text}
use net_policy.Http.{Header, ParseState, continue, done}
use net_policy.Http.Inspector.{Llhttp, HttpInspector, parse_http_header}
use net_policy.Http.Connection.{
  Libraries, Codec, Connection, create_codec, header_of, dispatch, dispatch_packet, feed_codec,
  inspected, inspect_data, take_codec, on_data,
}
use mathlib.Core.List.{append-nil, append_assoc}

abbrev concat : List Text → Text
concat [] = []
concat (bytes ∷ payloads) = bytes ++ concat payloads

-- The inspector after payloads behind each of which it waits for more.
pub data Waits (llhttp : Llhttp)
    : HttpInspector llhttp → List Text → HttpInspector llhttp → Type 0 where
  ready : {i : HttpInspector llhttp} → Waits llhttp i [] i
  more :
      {i j k : HttpInspector llhttp} {bytes : Text} {payloads : List Text}
      → parse_http_header llhttp i bytes ≡ (j, continue)
      → Waits llhttp j payloads k
      → Waits llhttp i (bytes ∷ payloads) k

module _ (libs : Libraries) {W : Type 0} where
  -- The payloads one after the other, with the last header.
  unfoldable pub run_data :
      W → Connection libs W → Header → List Text → W × Connection libs W × Header
  run_data w c h [] = (w, c, h)
  run_data w c h (bytes ∷ payloads) =
      let (w', c', h') = on_data libs w c bytes in run_data w' c' h' payloads

  -- What the codec has after what `reread` makes of the payloads that were kept, and the one that
  -- decided the protocol.
  abbrev fed : W → Connection libs W → Codec libs → Text → Text → W × Codec libs
  fed w c codec kept bytes =
      let (w', first) = dispatch_packet libs c.filters_manager c.server_side w codec kept in
      dispatch libs c.filters_manager c.server_side w' first bytes

  on_data-fresh :
      (w : W) (c : Connection libs W) (j : HttpInspector libs.llhttp) (state : ParseState)
      (bytes : Text)
      → c.codec ≡ none
      → parse_http_header libs.llhttp c.inspector bytes ≡ (j, state)
      → on_data libs w c bytes ≡ inspect_data libs w c j state bytes
  unfolding on_data
  on_data-fresh w c j state bytes fresh e =
      ap (λ o. take_codec libs w c o bytes) fresh
      ∙ ap (λ seen. inspect_data libs w c seen.0 seen.1 bytes) e

  inspect_data-done :
      (w : W) (c : Connection libs W) (k : HttpInspector libs.llhttp) (bytes : Text)
      (codec : Codec libs)
      → create_codec libs k.protocol ≡ some codec
      → inspect_data libs w c k done bytes ≡ feed_codec libs w (inspected libs c k done) codec bytes
  unfolding inspect_data
  inspect_data-done w c k bytes codec made = rw (made) refl

  abbrev kept_more : Connection libs W → HttpInspector libs.llhttp → Text → Connection libs W
  kept_more c j bytes = record (inspected libs c j continue) { packet = c.packet ++ bytes }

  inspect_data-continue :
      (w : W) (c : Connection libs W) (j : HttpInspector libs.llhttp) (bytes : Text)
      → inspect_data libs w c j continue bytes
        ≡ (w, kept_more c j bytes, (kept_more c j bytes).header)
  unfolding inspect_data
  inspect_data-continue w c j bytes = refl

  -- On a connection without a codec, payloads behind which the inspector waits are kept. When a later
  -- one decides the protocol, the new codec gets, at once, what the memory of all that was kept, in
  -- order, holds by then (`reread`, which need not be what was kept), and then that payload; nothing is
  -- kept any more, and the answer is the codec's header.
  pub run_data-buffered :
      (w : W) (c : Connection libs W) (h : Header) (i k : HttpInspector libs.llhttp)
      (payloads : List Text) (bytes : Text) (codec : Codec libs)
      → c.codec ≡ none
      → Waits libs.llhttp c.inspector payloads i
      → parse_http_header libs.llhttp i bytes ≡ (k, done)
      → create_codec libs k.protocol ≡ some codec
      → let r = run_data w c h (payloads ++ (bytes ∷ [])) in
        let last = fed w c codec (c.packet ++ concat payloads) bytes in
        (r.0 ≡ last.0)
        × (r.1.codec ≡ some last.1)
        × (r.1.packet ≡ [])
        × (r.2 ≡ header_of libs last.1)
  unfolding run_data feed_codec
  run_data-buffered w c h i k [] bytes codec fresh ready decided made =
      rw
        (
          on_data-fresh w c k done bytes fresh decided,
          inspect_data-done w c k bytes codec made,
          append-nil c.packet,
        )
        (refl, refl, refl, refl)
  run_data-buffered w c h i k (first ∷ payloads) bytes codec fresh (more {j = j} waits rest) decided
        made =
      rw
        (
          run_data,
          on_data-fresh w c j continue first fresh waits,
          inspect_data-continue w c j first,
          sym (append_assoc c.packet first (concat payloads)),
        )
        (run_data-buffered w (kept_more c j first) _ i k payloads bytes codec fresh rest decided
          made)
