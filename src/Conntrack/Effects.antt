-- ===== src/Conntrack/Effects.antt =====
-- What set_accept_mark of crates/net_conntrack/src/session.rs does to the marks of the kernel.
use net_policy.Common.{
  ℕ, ◌≡◌, ◌⊎◌, Bool, true, false, ◌&&◌, ◌||◌, List, [], ◌∷◌, ◌==◌, nat_eq, if◌then◌else◌, Among,
}
use net_policy.Conntrack.{attr_mark, Conntrack}
use net_policy.Conntrack.Marks.{KeepsMark}

-- The kernel's connections by their original tuples, each with its mark. An object with a copied tuple
-- has that tuple; objects that the library finds alike have the same mark; an update, which succeeds,
-- gives the connection of the object's tuple the object's mark and leaves the others; and a dump
-- tells the marks.
pub record KeepsMarks (lib : Conntrack) : Type 0 where
  pub original_of : lib.Object → ℕ
  pub mark_at : lib.Kernel → ℕ → ℕ
  pub set_tuple :
      (v : ℕ) (o : lib.Object) → original_of (lib.set_attr attr_mark v o) ≡ original_of o
  pub copy_tuple : (u ct : lib.Object) → original_of (lib.copy_orig u ct) ≡ original_of ct
  pub same_mark :
      (o ct : lib.Object)
      → lib.cmp_all o ct ≡ true
      → lib.get_attr attr_mark o ≡ lib.get_attr attr_mark ct
  pub update_marks :
      (k : lib.Kernel) (o : lib.Object) (i : ℕ)
      → mark_at (lib.query_update k o).0 i
        ≡ (if original_of o == i then lib.get_attr attr_mark o else mark_at k i)
  pub dump_mark :
      (k : lib.Kernel) (ct : lib.Object)
      → Among ct (lib.query_dump k).0
      → mark_at k (original_of ct) ≡ lib.get_attr attr_mark ct

module _ (lib : Conntrack) (laws : KeepsMark lib) (kernel : KeepsMarks lib) where
  open kernel use {original_of, mark_at}

  -- An entry of the connection that fits the filter.
  unfoldable pub some_fits : lib.Object → ℕ → List lib.Object → Bool
  some_fits filter i [] = false
  some_fits filter i (ct ∷ cts) =
      let rest = some_fits filter i cts in (lib.cmp_orig filter ct && original_of ct == i) || rest

  module _ (filter : lib.Object) (mark : ℕ) where
    -- The kernel has the entry's mark still, or the new one.
    abbrev IsCurrent : lib.Kernel → lib.Object → Type 0
    IsCurrent k ct =
        (mark_at k (original_of ct) ≡ lib.get_attr attr_mark ct)
        ⊎ (mark_at k (original_of ct) ≡ mark)
