-- ===== src/Examples/Sessions.antt =====
-- The conntrack sessions over a small library.
use net_policy.Common.{
  Among, inl, inr, ℕ, true, false, ◌&&◌, not, Option, none, some, List, [], ◌∷◌, ◌≡◌, refl, ◌==◌,
  nat_eq, if◌then◌else◌, arith,
}
use net_policy.Nfq.{mem}
use net_policy.Conntrack.{
  Live, Allocator, open_conntrack_session, Attr, attr_mark, orig_l3proto, orig_l4proto,
  orig_ipv4_src, orig_ipv4_dst, orig_port_src, orig_port_dst, Conntrack, SharedFiveTuple,
  CallbackData,
}
use net_policy.Conntrack.Marks.{is_mark}
use net_policy.Conntrack.Effects.{KeepsMarks}
use net_policy.Conntrack.Opening.{IsAllOrNothing, open_conntrack_session-IsAllOrNothing}

-- The first of two addresses that is free.
free_address : List ℕ → Option ℕ
free_address used = if not (mem 7 used) then some 7 else if not (mem 8 used) then some 8 else none

free_address_fresh : (used : List ℕ) (p : ℕ) → free_address used ≡ some p → mem p used ≡ false
unfolding free_address
free_address_fresh used p h = ground arith

abbrev allocator : Allocator
allocator = record {
  nfct_new = λ l. free_address l.objects;
  nfct_open = λ l. free_address l.handles;
  new_fresh = λ l. free_address_fresh l.objects;
  open_fresh = λ l. free_address_fresh l.handles;
}

-- Another session has an object and a handle already, so that the second object is refused.
abbrev busy : Live
busy = record { objects = 7 ∷ []; handles = 7 ∷ []; boxes = 1 }

open_conntrack_session-IsAllOrNothing_example :
    IsAllOrNothing busy (open_conntrack_session allocator busy)
open_conntrack_session-IsAllOrNothing_example = open_conntrack_session-IsAllOrNothing allocator busy

-- An entry has a mark and the protocol of its original direction.
record Entry : Type 0 where
  mark : ℕ
  proto : ℕ

set_entry : Attr → ℕ → Entry → Entry
set_entry attr_mark v o = record o { mark = v }
set_entry orig_l3proto v o = o
set_entry orig_l4proto v o = record o { proto = v }
set_entry orig_ipv4_src v o = o
set_entry orig_ipv4_dst v o = o
set_entry orig_port_src v o = o
set_entry orig_port_dst v o = o

abbrev entry : ℕ → ℕ → Entry
entry mark proto = record { mark = mark; proto = proto }

abbrev table : Conntrack
table = record {
  Object = Entry;
  Kernel = ℕ → ℕ;
  set_attr = set_entry;
  get_attr = λ a o. if is_mark a then o.mark else o.proto;
  cmp_orig = λ o p. o.proto == p.proto;
  cmp_all = λ o p. o.proto == p.proto && o.mark == p.mark;
  copy_orig = λ o p. record o { proto = p.proto };
  query_dump = λ k. (entry (k 6) 6 ∷ (entry (k 17) 17 ∷ []), true);
  query_update = λ k o. ((λ i. if o.proto == i then o.mark else k i), true);
}

abbrev tcp_tuple : SharedFiveTuple
tcp_tuple = record { proto = 6; src_addr = []; dst_addr = []; src_port = 0; dst_port = 0 }

abbrev fresh_session : CallbackData table
fresh_session = record { filter = entry 0 0; update = entry 0 0 }

books_dump :
    (k : ℕ → ℕ) (ct : Entry)
    → Among ct (entry (k 6) 6 ∷ (entry (k 17) 17 ∷ []))
    → k ct.proto ≡ ct.mark
books_dump k ct (inl e) = rw (← e)
books_dump k ct (inr (inl e)) = rw (← e)
books_dump k ct (inr (inr m)) = elim m [ ]

books : KeepsMarks table
unfolding set_entry
books = record {
  original_of = λ o. o.proto;
  mark_at = λ k i. k i;
  set_tuple = λ v o. refl;
  copy_tuple = λ u ct. refl;
  same_mark = λ o ct e. ground arith;
  update_marks = λ k o i. refl;
  dump_mark = books_dump;
}
