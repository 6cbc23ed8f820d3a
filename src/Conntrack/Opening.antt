-- ===== src/Conntrack/Opening.antt =====
-- What a session holds: open_conntrack_session and Drop of crates/net_conntrack/src/session.rs.
use net_policy.Common.{ℕ, ◌≡◌, refl, Option, List, none, some, Option-cases, inl, inr, arith}
use net_policy.Nfq.Release.{remove_first, remove_both}
use net_policy.Conntrack.{
  Live, Allocator, Handles, with_object, with_handle, open_conntrack_session, drop_session,
}

-- What is held is as before, at once or after the session is dropped.
unfoldable pub IsAllOrNothing : Live → Live × Option Handles → Type 0
IsAllOrNothing l (l', none) = l' ≡ l
IsAllOrNothing l (l', some s) = drop_session s l' ≡ l

same_live :
    (l : Live) (os hs : List ℕ) (n : ℕ)
    → os ≡ l.objects
    → hs ≡ l.handles
    → n ≡ l.boxes
    → record { objects = os; handles = hs; boxes = n } ≡ l
same_live l os hs n e e' e'' = rw (e, e', e'')

-- Whatever the library answers: if a session cannot be opened, the objects, handles and boxes held are
-- those held before; if it is opened, they are so after the session is dropped.
pub open_conntrack_session-IsAllOrNothing :
    (a : Allocator) (l : Live) → IsAllOrNothing l (open_conntrack_session a l)
unfolding IsAllOrNothing open_conntrack_session drop_session
open_conntrack_session-IsAllOrNothing a l = elim (Option-cases (a.nfct_new l)) [
  | inl e ↦ rw (e, open_conntrack_session)
  | inr (f, e) ↦
      let l₁ = with_object f l in
      let new_f = a.new_fresh l f e in
      elim (Option-cases (a.nfct_open l₁)) [
        | inl e₁ ↦
            rw (e, e₁, open_conntrack_session)
              (same_live l _ _ _ (remove_first f l.objects new_f) refl refl)
        | inr (q, e₁) ↦
            let l₂ = with_handle q l₁ in
            let open_q = a.open_fresh l₁ q e₁ in
            elim (Option-cases (a.nfct_new l₂)) [
              | inl e₂ ↦
                  rw (e, e₁, e₂, open_conntrack_session)
                    (same_live l _ _ _ (remove_first f l.objects new_f)
                      (remove_first q l.handles open_q) refl)
              | inr (u, e₂) ↦
                  let l₃ = with_object u l₂ in
                  let new_u = a.new_fresh l₂ u e₂ in
                  elim (Option-cases (a.nfct_open l₃)) [
                    | inl e₃ ↦
                        rw (e, e₁, e₂, e₃, open_conntrack_session)
                          (same_live l _ _ _ (remove_both f u l.objects new_f new_u)
                            (remove_first q l.handles open_q) refl)
                    | inr (h, e₃) ↦
                        let open_h = a.open_fresh l₃ h e₃ in
                        rw (e, e₁, e₂, e₃, open_conntrack_session)
                          (same_live l _ _ _ (remove_both f u l.objects new_f new_u)
                            (remove_both q h l.handles open_q open_h) (omega arith))
                  ]
            ]
      ]
]
