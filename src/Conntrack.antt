-- ===== src/Conntrack.antt =====
-- The conntrack sessions of crates/net_conntrack/src/session.rs, over libnetfilter_conntrack, a
-- parameter.
pub mod Marks
pub mod Effects
pub mod Opening
use net_policy.Common.{
  ℕ, suc, ◌+◌, ◌*◌, ◌/◌, ◌%◌, ◌-◌, ◌≡◌, Bool, true, false, not, Option, none, some, List, [], ◌∷◌,
  ltb, if◌then◌else◌, Text,
}
use net_policy.Policy.Rule.{StdText, unwrap_or}
use net_policy.Nfq.{mem, remove}

-- The objects and handles that the library holds and the boxes of the callback, by their addresses;
-- null is `none`.
pub record Live : Type 0 where
  pub objects : List ℕ
  pub handles : List ℕ
  pub boxes : ℕ

-- `nfct_new` and `nfct_open` give an address that is not in use, or null.
pub record Allocator : Type 0 where
  pub nfct_new : Live → Option ℕ
  pub nfct_open : Live → Option ℕ
  pub new_fresh : (l : Live) (p : ℕ) → nfct_new l ≡ some p → mem p l.objects ≡ false
  pub open_fresh : (l : Live) (p : ℕ) → nfct_open l ≡ some p → mem p l.handles ≡ false

pub record Handles : Type 0 where
  pub filter : ℕ
  pub update : ℕ
  pub query_handle : ℕ
  pub update_handle : ℕ

abbrev pub nfct_destroy : ℕ → Live → Live
nfct_destroy p l = record l { objects = remove p l.objects }

abbrev pub nfct_close : ℕ → Live → Live
nfct_close p l = record l { handles = remove p l.handles }

abbrev pub with_object : ℕ → Live → Live
with_object p l = record l { objects = p ∷ l.objects }

abbrev pub with_handle : ℕ → Live → Live
with_handle p l = record l { handles = p ∷ l.handles }

unfoldable pub open_conntrack_session : Allocator → Live → Live × Option Handles
open_conntrack_session a l = elim (a.nfct_new l) [
  | none ↦ (l, none)
  | some filter ↦
      let l₁ = with_object filter l in
      elim (a.nfct_open l₁) [
        | none ↦ (nfct_destroy filter l₁, none)
        | some query ↦
            let l₂ = with_handle query l₁ in
            elim (a.nfct_new l₂) [
              | none ↦ (nfct_close query (nfct_destroy filter l₂), none)
              | some update ↦
                  let l₃ = with_object update l₂ in
                  elim (a.nfct_open l₃) [
                    | none ↦ (nfct_destroy update (nfct_close query (nfct_destroy filter l₃)), none)
                    | some handle ↦ (
                      record (with_handle handle l₃) { boxes = suc l₃.boxes },
                      some (record {
                        filter = filter;
                        update = update;
                        query_handle = query;
                        update_handle = handle;
                      }),
                    )
                  ]
            ]
      ]
]

unfoldable pub drop_session : Handles → Live → Live
drop_session s l =
    let closed =
      nfct_close s.update_handle
        (nfct_close s.query_handle (nfct_destroy s.update (nfct_destroy s.filter l))) in
    record closed { boxes = closed.boxes - 1 }

pub data Attr : Type 0 where
  attr_mark orig_l3proto orig_l4proto orig_ipv4_src orig_ipv4_dst orig_port_src orig_port_dst : Attr

-- The objects' contents, and the kernel behind a handle: what a dump gives and whether it succeeds,
-- and an update with its success.
pub record Conntrack : Type 1 where
  pub Object : Type 0
  pub Kernel : Type 0
  pub set_attr : Attr → ℕ → Object → Object
  pub get_attr : Attr → Object → ℕ
  pub cmp_orig : Object → Object → Bool
  pub cmp_all : Object → Object → Bool
  pub copy_orig : Object → Object → Object
  pub query_dump : Kernel → List Object × Bool
  pub query_update : Kernel → Object → Kernel × Bool

pub record SharedFiveTuple : Type 0 where
  pub proto : ℕ
  pub src_addr : Text
  pub dst_addr : Text
  pub src_port : ℕ
  pub dst_port : ℕ

-- `to_be` on a little-endian machine.
abbrev pub to_be16 : ℕ → ℕ
to_be16 n = n % 256 * 256 + n / 256

abbrev pub to_be32 : ℕ → ℕ
to_be32 n = to_be16 (n % 65536) * 65536 + to_be16 (n / 65536)

abbrev pub inaddr_none : ℕ
inaddr_none = 4294967295

unfoldable pub inet_addr : StdText → Text → ℕ
inet_addr std text = elim (std.parse_ipv4 text) [ none ↦ inaddr_none | some addr ↦ to_be32 addr ]

module _ (lib : Conntrack) where
  -- The contents of the two objects of a session; the callback has the same two.
  pub record CallbackData : Type 0 where
    pub filter : lib.Object
    pub update : lib.Object

  abbrev pub set_nonzero : Attr → ℕ → ℕ → lib.Object → lib.Object
  set_nonzero a n v o = if ltb 0 n then lib.set_attr a v o else o

  abbrev pub set_addr : StdText → Attr → Text → lib.Object → lib.Object
  set_addr std a [] o = o
  set_addr std a (byte ∷ bytes) o = lib.set_attr a (inet_addr std (byte ∷ bytes)) o

  unfoldable pub set_filter : StdText → SharedFiveTuple → ℕ → lib.Object → lib.Object
  set_filter std t mark o = set_nonzero orig_port_dst t.dst_port (to_be16 t.dst_port) (
      set_nonzero orig_port_src t.src_port (to_be16 t.src_port) (
        set_addr std orig_ipv4_dst t.dst_addr (
          set_addr std orig_ipv4_src t.src_addr (
            set_nonzero orig_l4proto t.proto t.proto
              (lib.set_attr orig_l3proto 2 (lib.set_attr attr_mark mark o))))))

  -- The callback, on one entry of a dump.
  unfoldable pub update_net_session :
      CallbackData → lib.Kernel → lib.Object → CallbackData × lib.Kernel
  update_net_session s k ct =
      if not (lib.cmp_orig s.filter ct)
      then (s, k)
      else let mark = lib.get_attr attr_mark s.filter in
        if ltb 100 mark
        then (s, k)
        else let update = lib.set_attr attr_mark mark (lib.copy_orig s.update ct) in
          let s' = record s { update = update } in
          if lib.cmp_all update ct then (s', k) else (s', (lib.query_update k update).0)

  unfoldable pub each_entry :
      CallbackData → lib.Kernel → List lib.Object → CallbackData × lib.Kernel
  each_entry s k [] = (s, k)
  each_entry s k (ct ∷ entries) =
      let (s', k') = update_net_session s k ct in each_entry s' k' entries

  -- `false` is an error of the dump.
  unfoldable pub set_accept_mark :
      StdText → CallbackData → lib.Kernel → SharedFiveTuple → ℕ → CallbackData × lib.Kernel × Bool
  set_accept_mark std s k tuple mark =
      let (entries, dumped) = lib.query_dump k in
      let (s', k') =
        each_entry (record s { filter = set_filter std tuple mark s.filter }) k entries in
      (s', k', dumped)
