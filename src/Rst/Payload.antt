-- ===== src/Rst/Payload.antt =====
-- The bytes of a packet under rst_tcp_link of net-policy.cpp.
use net_policy.Common.{
  ℕ, zero, suc, ◌+◌, ◌/◌, ◌%◌, ◌≤◌, ◌<◌, ◌-◌, ◌∙◌, true, sym, ◌≡◌, ◌≢◌, ◌&&◌, Option-cases, none,
  some, [], ◌∷◌, length, ltb, leb, ◌==◌, nat_eq, if◌then◌else◌, Text, byte_at, set, arith, refl,
  Bool-cases, inl, inr,
}
use net_policy.Packet.{ipproto_tcp}
use net_policy.Rst.{
  clear_payload, payload_start, rst_tcp_link, tcp_csum, csum_block, copies_in_bounds,
  writes_in_bounds, store_check, ihl_bytes, tot_len,
}

length-set : (s : Text) (i v : ℕ) → length (set s i v) ≡ length s
length-set [] i v = refl
length-set (x ∷ s) zero v = refl
length-set (x ∷ s) (suc i) v = omega (arith, length-set s i v)

byte_at-set : (s : Text) (i v j : ℕ) → i ≢ j → byte_at (set s i v) j ≡ byte_at s j
byte_at-set [] i v j ne = refl
byte_at-set (x ∷ s) zero v zero ne = absurd (ne refl)
byte_at-set (x ∷ s) zero v (suc j) ne = refl
byte_at-set (x ∷ s) (suc i) v zero ne = refl
byte_at-set (x ∷ s) (suc i) v (suc j) ne = byte_at-set s i v j (omega arith)

byte_at-set_zero : (s : Text) (i : ℕ) → byte_at (set s i 0) i ≡ 0
byte_at-set_zero [] i = refl
byte_at-set_zero (x ∷ s) zero = refl
byte_at-set_zero (x ∷ s) (suc i) = byte_at-set_zero s i

length-clear_payload :
    (left offset i : ℕ) (s : Text) → length (clear_payload left offset i s) ≡ length s
unfolding clear_payload
length-clear_payload zero offset i s = refl
length-clear_payload (suc left) offset i s = ground (
  arith,
  length-set s (offset + i) 0,
  length-clear_payload left offset (suc i) (set s (offset + i) 0),
)

-- The loop clears its range, up to the payload's eighth byte, and no other byte.
clear_payload_lem :
    (left offset i : ℕ) (s : Text) (j : ℕ)
    → i ≤ 7
    → byte_at (clear_payload left offset i s) j ≡ (
        if leb (offset + i) j && (ltb j (offset + i + left) && ltb j (offset + 8))
        then 0
        else byte_at s j)
unfolding clear_payload
clear_payload_lem zero offset i s j h = ground arith
clear_payload_lem (suc left) offset i s j h = elim (Bool-cases (ltb 6 i)) [
  | inl b ↦ elim (Bool-cases (offset + i == j)) [
    | inl e ↦ ground (arith, byte_at-set_zero s j)
    | inr e ↦ ground (arith, byte_at-set s (offset + i) 0 j (ground arith))
  ]
  | inr b ↦ elim (Bool-cases (offset + i == j)) [
    | inl e ↦ ground (
      arith,
      byte_at-set_zero s j,
      clear_payload_lem left offset (suc i) (set s (offset + i) 0) j (ground arith),
    )
    | inr e ↦ ground (
      arith,
      byte_at-set s (offset + i) 0 j (ground arith),
      clear_payload_lem left offset (suc i) (set s (offset + i) 0) j (ground arith),
    )
  ]
]

-- The bytes of the IPv4 header are kept.
header_kept :
    (pkg : Text) (left offset j : ℕ)
    → j < offset
    → byte_at (clear_payload left offset 0 pkg) j ≡ byte_at pkg j
header_kept pkg left offset j h =
    ground (arith, clear_payload_lem left offset 0 pkg j (omega arith))

-- A packet whose total length ends behind the TCP checksum and within the packet.
pub record IsWhole (pkg : Text) : Type 0 where
  pub version : byte_at pkg 0 / 16 ≡ 4
  pub protocol : byte_at pkg 9 ≡ ipproto_tcp
  pub header : 20 ≤ ihl_bytes pkg
  pub checksum : ihl_bytes pkg + 18 ≤ tot_len pkg
  pub total : tot_len pkg ≤ length pkg

tcp_csum-some :
    (pkg : Text)
    → ihl_bytes pkg ≤ tot_len pkg
    → tot_len pkg ≤ length pkg
    → 20 ≤ ihl_bytes pkg
    → (check : ℕ) × (tcp_csum pkg ≡ some check)
unfolding tcp_csum csum_block copies_in_bounds
tcp_csum-some pkg h t k = elim (Option-cases (tcp_csum pkg)) [
  | inl e ↦ absurd (ground arith)
  | inr (check, e) ↦ (check, e)
]

abbrev cleared_of : Text → Text
cleared_of pkg = clear_payload (tot_len pkg - payload_start pkg) (payload_start pkg) 0 pkg

cleared_byte :
    (pkg : Text) (j : ℕ)
    → byte_at (cleared_of pkg) j ≡ (
        if leb (payload_start pkg) j
          && (ltb j (payload_start pkg + (tot_len pkg - payload_start pkg))
              && ltb j (payload_start pkg + 8))
        then 0
        else byte_at pkg j)
cleared_byte pkg j = ground (
  arith,
  clear_payload_lem (tot_len pkg - payload_start pkg) (payload_start pkg) 0 pkg j (omega arith),
)

cleared_csum : (pkg : Text) → IsWhole pkg → (check : ℕ) × (tcp_csum (cleared_of pkg) ≡ some check)
cleared_csum pkg w =
    let left = tot_len pkg - payload_start pkg in
    let start = payload_start pkg in
    let kept : (k : ℕ) → k < 20 → byte_at (cleared_of pkg) k ≡ byte_at pkg k =
      λ k h. header_kept pkg left start k (omega (arith, w.header)) in
    let size = length-clear_payload left start 0 pkg in
    tcp_csum-some (cleared_of pkg)
      (rw (kept 0 (omega arith), kept 2 (omega arith), kept 3 (omega arith))
        (omega (arith, w.checksum)))
      (rw (kept 2 (omega arith), kept 3 (omega arith), size) w.total)
      (rw (kept 0 (omega arith)) w.header)

rst_tcp_link-some :
    (pkg : Text) (check : ℕ)
    → IsWhole pkg
    → tcp_csum (cleared_of pkg) ≡ some check
    → rst_tcp_link pkg ≡ some (store_check (cleared_of pkg) (ihl_bytes pkg) check)
unfolding rst_tcp_link
rst_tcp_link-some pkg check w e =
    let inside : writes_in_bounds pkg ≡ true =
      unfold writes_in_bounds in ground (arith, w.checksum, w.total) in
    ground (arith, w.version, w.protocol, inside, e)

length-store_check : (s : Text) (tcph check : ℕ) → length (store_check s tcph check) ≡ length s
length-store_check s tcph check =
    length-set (set s (tcph + 16) (check % 256)) (tcph + 17) (check / 256)
    ∙ length-set s (tcph + 16) (check % 256)

byte_at-store_check :
    (s : Text) (tcph check j : ℕ)
    → j ≢ tcph + 16
    → j ≢ tcph + 17
    → byte_at (store_check s tcph check) j ≡ byte_at s j
byte_at-store_check s tcph check j n16 n17 =
    byte_at-set (set s (tcph + 16) (check % 256)) (tcph + 17) (check / 256) j (λ e. n17 (sym e))
    ∙ byte_at-set s (tcph + 16) (check % 256) j (λ e. n16 (sym e))

-- On a packet of IPv4 and TCP whose total length ends behind the TCP checksum and within the
-- packet, the reset stays within the packet and within the buffer on the stack. It keeps the
-- packet's length, and outside the two bytes of the checksum it sets the first eight bytes of the
-- payload, as far as the total length reaches, to zero and changes no other byte.
pub rst_tcp_link_lem :
    (pkg : Text) (j : ℕ)
    → IsWhole pkg
    → j ≢ ihl_bytes pkg + 16
    → j ≢ ihl_bytes pkg + 17
    → (out : Text) × (rst_tcp_link pkg ≡ some out)
      × (length out ≡ length pkg)
      × (byte_at out j ≡ (
          if leb (payload_start pkg) j
            && (ltb j (payload_start pkg + (tot_len pkg - payload_start pkg))
                && ltb j (payload_start pkg + 8))
          then 0
          else byte_at pkg j))
rst_tcp_link_lem pkg j w n16 n17 =
    let left = tot_len pkg - payload_start pkg in
    let (check, e) = cleared_csum pkg w in
    (
      store_check (cleared_of pkg) (ihl_bytes pkg) check,
      rst_tcp_link-some pkg check w e,
      length-store_check (cleared_of pkg) (ihl_bytes pkg) check
          ∙ length-clear_payload left (payload_start pkg) 0 pkg,
      byte_at-store_check (cleared_of pkg) (ihl_bytes pkg) check j n16 n17 ∙ cleared_byte pkg j,
    )

-- A total length that is less than the IPv4 header overruns the buffer on the stack.
csum_block-overrun : (pkg : Text) → tot_len pkg < ihl_bytes pkg → csum_block pkg ≡ none
unfolding csum_block copies_in_bounds
csum_block-overrun pkg h = ground arith
