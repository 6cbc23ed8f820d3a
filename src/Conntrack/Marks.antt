-- ===== src/Conntrack/Marks.antt =====
-- The marks that a session sets: set_accept_mark of crates/net_conntrack/src/session.rs.
use net_policy.Common.{
  ℕ, ◌≤◌, ◌≡◌, ◌<◌, ◌⊎◌, refl, Bool, true, false, Bool-cases, inl, inr, List, [], ◌∷◌, ltb, ◌∙◌,
  Text, arith,
}
use net_policy.Policy.Rule.{StdText}
use net_policy.Conntrack.{
  Attr, attr_mark, orig_l3proto, orig_l4proto, orig_ipv4_src, orig_ipv4_dst, orig_port_src,
  orig_port_dst, Conntrack, SharedFiveTuple, CallbackData, set_nonzero, set_addr, set_filter,
  update_net_session, each_entry, set_accept_mark,
}

abbrev pub is_mark : Attr → Bool
is_mark attr_mark = true
is_mark orig_l3proto = false
is_mark orig_l4proto = false
is_mark orig_ipv4_src = false
is_mark orig_ipv4_dst = false
is_mark orig_port_src = false
is_mark orig_port_dst = false

-- The mark that was set is read back, and setting another attribute does not change it.
pub record KeepsMark (lib : Conntrack) : Type 0 where
  pub get_set : (v : ℕ) (o : lib.Object) → lib.get_attr attr_mark (lib.set_attr attr_mark v o) ≡ v
  pub get_other :
      (a : Attr) (v : ℕ) (o : lib.Object)
      → is_mark a ≡ false
      → lib.get_attr attr_mark (lib.set_attr a v o) ≡ lib.get_attr attr_mark o

module _ (lib : Conntrack) where
  module _ (filter : lib.Object) (mark : ℕ) where
    -- The object for an entry: its original tuple over what the object held, with the mark.
    abbrev pub marked : lib.Object → lib.Object → lib.Object
    marked update ct = lib.set_attr attr_mark mark (lib.copy_orig update ct)

    -- From an object and a kernel, what becomes of the kernel with the entries of a dump: an entry that
    -- does not fit the filter is passed over, and so is each if the mark is too large; one that has
    -- the mark already changes the object alone.
    pub data Marked : lib.Object → lib.Kernel → List lib.Object → lib.Kernel → Type 0 where
      done : (u : lib.Object) (k : lib.Kernel) → Marked u k [] k
      passed :
          (u ct : lib.Object) (k k' : lib.Kernel) (cts : List lib.Object)
          → (lib.cmp_orig filter ct ≡ false) ⊎ (100 < mark)
          → Marked u k cts k'
          → Marked u k (ct ∷ cts) k'
      alike :
          (u ct : lib.Object) (k k' : lib.Kernel) (cts : List lib.Object)
          → (lib.cmp_orig filter ct ≡ true) × (mark ≤ 100)
          → lib.cmp_all (marked u ct) ct ≡ true
          → Marked (marked u ct) k cts k'
          → Marked u k (ct ∷ cts) k'
      updated :
          (u ct : lib.Object) (k k' : lib.Kernel) (cts : List lib.Object)
          → (lib.cmp_orig filter ct ≡ true) × (mark ≤ 100)
          → lib.cmp_all (marked u ct) ct ≡ false
          → Marked (marked u ct) (lib.query_update k (marked u ct)).0 cts k'
          → Marked u k (ct ∷ cts) k'

module _ (lib : Conntrack) (laws : KeepsMark lib) where
  abbrev mark_of : lib.Object → ℕ
  mark_of = lib.get_attr attr_mark

  set_nonzero-mark :
      (a : Attr) (n v : ℕ) (o : lib.Object)
      → is_mark a ≡ false
      → mark_of (set_nonzero lib a n v o) ≡ mark_of o
  set_nonzero-mark a n v o h = ground (arith, laws.get_other a v o h)

  set_addr-mark :
      (std : StdText) (a : Attr) (t : Text) (o : lib.Object)
      → is_mark a ≡ false
      → mark_of (set_addr lib std a t o) ≡ mark_of o
  set_addr-mark std a [] o h = refl
  set_addr-mark std a (byte ∷ bytes) o h = laws.get_other a _ o h

  set_filter-mark :
      (std : StdText) (t : SharedFiveTuple) (mark : ℕ) (o : lib.Object)
      → mark_of (set_filter lib std t mark o) ≡ mark
  unfolding set_filter
  set_filter-mark std t mark o =
      set_nonzero-mark orig_port_dst t.dst_port _ _ refl
      ∙ set_nonzero-mark orig_port_src t.src_port _ _ refl
      ∙ set_addr-mark std orig_ipv4_dst t.dst_addr _ refl
      ∙ set_addr-mark std orig_ipv4_src t.src_addr _ refl
      ∙ set_nonzero-mark orig_l4proto t.proto t.proto _ refl
      ∙ laws.get_other orig_l3proto 2 _ refl
      ∙ laws.get_set mark o

  module _ (filter : lib.Object) (mark : ℕ) (same : mark_of filter ≡ mark) where
    each_entry-Marked :
        (u : lib.Object) (k : lib.Kernel) (cts : List lib.Object)
        → Marked lib filter mark u k cts
            (each_entry lib (record { filter = filter; update = u }) k cts).1
    unfolding each_entry update_net_session
    each_entry-Marked u k [] = done u k
    each_entry-Marked u k (ct ∷ cts) = elim (Bool-cases (lib.cmp_orig filter ct)) [
      | inr misfit ↦
          rw (misfit, each_entry, update_net_session)
            (passed u ct k _ cts (inl misfit) (each_entry-Marked u k cts))
      | inl fits ↦ elim (Bool-cases (ltb 100 mark)) [
        | inl high ↦
            rw (fits, same, high, each_entry, update_net_session)
              (passed u ct k _ cts (inr (ground (arith, high))) (each_entry-Marked u k cts))
        | inr low ↦ elim (Bool-cases (lib.cmp_all (marked lib filter mark u ct) ct)) [
          | inl e ↦
              rw (fits, same, low, e, each_entry, update_net_session)
                (alike u ct k _ cts (fits, ground arith) e
                  (each_entry-Marked (marked lib filter mark u ct) k cts))
          | inr e ↦
              rw (fits, same, low, e, each_entry, update_net_session)
                (updated u ct k _ cts (fits, ground arith) e
                  (each_entry-Marked (marked lib filter mark u ct) _ cts))
        ]
      ]
    ]

  -- If a mark that is set is read back, and setting other attributes keeps it: set_accept_mark goes
  -- through the dump in order and sends the kernel an update with the mark it was called with for
  -- exactly the entries that fit the filter of the tuple and the mark and do not have it already, and
  -- no update at all for a mark above 100.
  pub set_accept_mark-Marked :
      (std : StdText) (s : CallbackData lib) (k : lib.Kernel) (tuple : SharedFiveTuple) (mark : ℕ)
      → Marked lib
          (set_filter lib std tuple mark s.filter)
          mark
          s.update
          k
          (lib.query_dump k).0
          (set_accept_mark lib std s k tuple mark).1
  unfolding set_accept_mark
  set_accept_mark-Marked std s k tuple mark =
      each_entry-Marked (set_filter lib std tuple mark s.filter) mark
        (set_filter-mark std tuple mark s.filter) s.update k (lib.query_dump k).0
