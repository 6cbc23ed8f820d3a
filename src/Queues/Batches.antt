-- ===== src/Queues/Batches.antt =====
-- A batch of packets: `drain_batch` of crates/net_nfq/src/queue.rs.
use net_policy.Common.Maps.{lookup, insert, erase}
use net_policy.Common.{
  ℕ, zero, suc, ◌≡◌, refl, sym, subst, ◌∙◌, Bool, true, false, Option, none, some, List, [], ◌∷◌,
  ◌++◌, ◌==◌, nat_eq, if◌then◌else◌, Map, Unique, map, arith,
}
use net_policy.Callback.{NfqMessage}
use net_policy.Queues.{Recv, ok, would_block, failed, max_batch, drain_loop, drain_batch}
use mathlib.Core.List.{append_assoc, append-nil}

-- Messages filed under their ids.
module _ {M : Type 0} (describe : M → NfqMessage) where
  abbrev pub by_id : List M → Map ℕ M
  by_id [] = []
  by_id (msg ∷ msgs) = ((describe msg).id, msg) ∷ by_id msgs

  pub insert_all : List M → Map ℕ M → Map ℕ M
  insert_all [] pending = pending
  insert_all (msg ∷ msgs) pending = insert_all msgs (insert (describe msg).id msg pending)

-- A new key goes to the end.
insert-fresh :
    {M : Type 0} (k : ℕ) (v : M) (m : Map ℕ M) → lookup k m ≡ none → insert k v m ≡ m ++ (k, v) ∷ []
unfolding lookup insert
insert-fresh k v [] h = refl
insert-fresh k v ((i, w) ∷ m) h = ground (arith, insert-fresh k v m)

pub lookup-first : {M : Type 0} (k : ℕ) (v : M) (m : Map ℕ M) → lookup k ((k, v) ∷ m) ≡ some v
unfolding lookup
lookup-first k v m = ground arith

-- A key that is missing has nothing to erase.
erase-fresh : {M : Type 0} (k : ℕ) (m : Map ℕ M) → lookup k m ≡ none → erase k m ≡ m
unfolding lookup erase
erase-fresh k [] h = refl
erase-fresh k ((i, w) ∷ m) h = ground (arith, erase-fresh k m)

pub erase-first :
    {M : Type 0} (k : ℕ) (v : M) (m : Map ℕ M) → lookup k m ≡ none → erase k ((k, v) ∷ m) ≡ m
unfolding erase
erase-first k v m h = ground (arith, erase-fresh k m h)

lookup-middle :
    {M : Type 0} (i k : ℕ) (v : M) (m n : Map ℕ M)
    → lookup i (m ++ (k, v) ∷ n) ≡ none
    → (i == k) ≡ false
unfolding lookup
lookup-middle i k v [] n h = ground arith
lookup-middle i k v ((j, w) ∷ m) n h = ground (arith, lookup-middle i k v m n)

Unique-middle :
    {M : Type 0} (k : ℕ) (v : M) (m n : Map ℕ M) → Unique (m ++ (k, v) ∷ n) → lookup k m ≡ none
unfolding lookup
Unique-middle k v [] n u = refl
Unique-middle k v ((i, w) ∷ m) n u =
    ground (arith, lookup-middle i k v m n u.0, Unique-middle k v m n u.1)

module _ {M : Type 0} (describe : M → NfqMessage) where
  insert_all-by_id :
      (msgs : List M) (m : Map ℕ M)
      → Unique (m ++ by_id describe msgs)
      → insert_all describe msgs m ≡ m ++ by_id describe msgs
  unfolding insert_all
  insert_all-by_id [] m u = sym (append-nil m)
  insert_all-by_id (msg ∷ msgs) m u =
      let k = (describe msg).id in
      let later = by_id describe msgs in
      let e = insert-fresh k msg m (Unique-middle k msg m later u) in
      rw e (
        insert_all-by_id msgs (m ++ (k, msg) ∷ [])
          (subst Unique (sym (append_assoc m ((k, msg) ∷ []) later)) u)
        ∙ append_assoc m ((k, msg) ∷ []) later)

-- What `recv` gives until it has nothing more, fails, or the room is used up; the last component says
-- whether it failed.
module _ {S M : Type 0} (recv_one : S → S × Recv M) where
  unfoldable pub taken : ℕ → S → S × List M × Bool
  taken zero s = (s, [], false)
  taken (suc room) s =
      let (s', received) = recv_one s in
      elim received [
        | ok msg ↦ let (s'', msgs, bad) = taken room s' in (s'', msg ∷ msgs, bad)
        | would_block ↦ (s', [], false)
        | failed ↦ (s', [], true)
      ]

  module _ (describe : M → NfqMessage) where
    abbrev pub filed :
        Map ℕ M → List NfqMessage → S × List M × Bool → S × Map ℕ M × Option (List NfqMessage)
    filed pending out (s, msgs, bad) =
        (s, insert_all describe msgs pending, if bad then none else some (out ++ map describe msgs))

    abbrev IsTaken : ℕ → S → Type 0
    IsTaken room s =
        (pending : Map ℕ M) (out : List NfqMessage)
        → drain_loop recv_one describe room s pending out ≡ filed pending out (taken room s)

    round-IsTaken :
        (room : ℕ) (s : S) (x : Recv M)
        → (recv_one s).1 ≡ x
        → IsTaken room (recv_one s).0
        → IsTaken (suc room) s
    unfolding drain_loop taken insert_all
    round-IsTaken room s (ok msg) e ih pending out =
        let later = (taken room (recv_one s).0).1 in
        let p = ih (insert (describe msg).id msg pending) (out ++ describe msg ∷ []) in
        rw (e, drain_loop, taken)
          (rw (append_assoc out (describe msg ∷ []) (map describe later)) at p)
    round-IsTaken room s would_block e ih pending out = rw (e, drain_loop, taken, append-nil out)
    round-IsTaken room s failed e ih pending out = rw (e, drain_loop, taken)

    drain_loop-IsTaken : (room : ℕ) (s : S) → IsTaken room s
    unfolding drain_loop taken insert_all
    drain_loop-IsTaken zero s pending out = rw (append-nil out)
    drain_loop-IsTaken (suc room) s pending out =
        round-IsTaken room s (recv_one s).1 refl (drain_loop-IsTaken room (recv_one s).0) pending
          out

    -- A call of `drain_batch` files what it took under the ids, and nothing else.
    pub drain_batch-taken :
        (s : S) (pending : Map ℕ M)
        → let (s', msgs, bad) = taken max_batch s in
          Unique (by_id describe msgs)
          → drain_batch recv_one describe s pending
            ≡ (s', by_id describe msgs, if bad then none else some (map describe msgs))
    unfolding drain_batch
    drain_batch-taken s pending u =
        rw (
          drain_loop-IsTaken max_batch s [] [],
          insert_all-by_id describe (taken max_batch s).1 [] u,
        )
