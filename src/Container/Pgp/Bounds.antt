-- ===== src/Container/Pgp/Bounds.antt =====
-- The headers of the packet chain lie one behind the other, so its loop ends.
use quackiso.Base.{
  ℕ, zero, suc, ◌+◌, ◌/◌, ◌%◌, ◌≤◌, ◌<◌, ◌≡◌, refl, Bool, Option, none, some, Bytes, and_then, ltb,
  ◌==◌, length, get_elem?, get_elem?-lt, arith, Option-cases, Bool-cases, inl, inr,
}
use quackiso.Container.Der.{checked_add}
use quackiso.Container.Pgp.{
  PgpPacket, Header, map_packet, new_header, old_header, packet_of, pgp_header, packet_round, round,
  Round, return, go_on, packet_loop, pgp_packets,
}

module _ (prefix : Bytes) (at first tag body : ℕ) (len : Option ℕ) where
  new_header-le :
      new_header prefix at first ≡ some (tag, body, len)
      → (at < body) × (body ≤ at + 6) × (body ≤ length prefix)
  unfolding new_header
  new_header-le e = elim (Option-cases (get_elem? prefix (at + 1))) [
    | inl missing ↦ ground arith
    | inr (n, present) ↦ elim (Option-cases (get_elem? prefix (at + 2))) [
      | inl missing ↦ ground (arith, get_elem?-lt (at + 1) prefix present)
      | inr (m, second) ↦
          ground (arith, get_elem?-lt (at + 1) prefix present, get_elem?-lt (at + 2) prefix second)
    ]
  ]

  old_header-le :
      at < length prefix
      → old_header prefix at first ≡ some (tag, body, len)
      → (at < body) × (body ≤ at + 6) × (body ≤ length prefix)
  unfolding old_header
  old_header-le h e = elim (Option-cases (get_elem? prefix (at + 1))) [
    | inl missing ↦ ground arith
    | inr (n, present) ↦ ground (arith, get_elem?-lt (at + 1) prefix present)
  ]

-- Where a packet of a header that lies inside ends.
Follows : Bytes → ℕ → PgpPacket → Type 0
Follows prefix at packet =
    (at < packet.body)
    × (packet.body ≤ at + 6)
    × (packet.body ≤ length prefix)
    × ((next : ℕ) → packet.next ≡ some next → packet.body ≤ next)

next-le :
    (body : ℕ) (len : Option ℕ) (next : ℕ)
    → and_then len (checked_add body) ≡ some next
    → body ≤ next
next-le body none next e = cc
next-le body (some n) next e = ground arith

header-Follows :
    (prefix : Bytes) (at : ℕ) (o : Option Header) (packet : PgpPacket)
    → ((tag body : ℕ) (len : Option ℕ)
        → o ≡ some (tag, body, len)
        → (at < body) × (body ≤ at + 6) × (body ≤ length prefix))
    → map_packet o ≡ some packet
    → Follows prefix at packet
unfolding Follows
header-Follows prefix at none packet h e = cc
header-Follows prefix at (some (tag, body, len)) packet h e =
    let same : packet_of (tag, body, len) ≡ packet = ground arith in
    rw (← same) (ground (arith, h tag body len refl, next-le body len))

-- The header of a packet takes one to six bytes and lies inside the prefix, and the next one does
-- not start in front of the body.
pub pgp_header-bounds :
    (prefix : Bytes) (at : ℕ) (packet : PgpPacket)
    → pgp_header prefix at ≡ some packet
    → (at < packet.body)
      × (packet.body ≤ at + 6)
      × (packet.body ≤ length prefix)
      × ((next : ℕ) → packet.next ≡ some next → packet.body ≤ next)
unfolding pgp_header Follows
pgp_header-bounds prefix at packet e = elim (Option-cases (get_elem? prefix at)) [
  | inl missing ↦ absurd (ground arith)
  | inr (first, present) ↦ elim (Bool-cases (ltb first 128)) [
    | inl small ↦ absurd (ground arith)
    | inr marked ↦ elim (Bool-cases (first / 64 % 2 == 1)) [
      | inl new ↦
          header-Follows prefix at (new_header prefix at first) packet
            (new_header-le prefix at first) (rw new at (rw marked at (rw present at e)))
      | inr old ↦
          header-Follows prefix at (old_header prefix at first) packet
            (λ tag body len.
              old_header-le prefix at first tag body len (get_elem?-lt at prefix present))
            (rw old at (rw marked at (rw present at e)))
    ]
  ]
]

next-packet_round :
    (packet : PgpPacket) (version : Option ℕ) (keys next : ℕ)
    → packet_round packet version keys ≡ go_on next
    → packet.next ≡ some next
unfolding packet_round
next-packet_round packet version keys next e = ground arith

-- A round that goes on has read a header, and goes on behind it.
round-lt :
    (prefix : Bytes) (at keys next : ℕ)
    → round prefix at keys ≡ go_on next
    → (at < next) × (at < length prefix)
unfolding round
round-lt prefix at keys next e = elim (Option-cases (pgp_header prefix at)) [
  | inl missing ↦ absurd (ground arith)
  | inr (packet, header) ↦
      let (later, _, inside, behind) = pgp_header-bounds prefix at packet header in
      omega (
        arith,
        behind next (
            next-packet_round packet (get_elem? prefix packet.body) keys next
              (rw (round, header) at e)),
      )
]

after_round :
    (fuel : ℕ) (prefix : Bytes) (keys : ℕ) (r : Round)
    → ((next : ℕ)
        → r ≡ go_on next
        → (answer : Bool) × (packet_loop fuel prefix next (suc keys) ≡ some answer))
    → (answer : Bool) × (elim r [
      | return answer ↦ some answer
      | go_on next ↦ packet_loop fuel prefix next (suc keys)
    ]
        ≡ some answer)
after_round fuel prefix keys (return answer) h = (answer, refl)
after_round fuel prefix keys (go_on next) h = h next refl

packet_loop-some :
    (fuel : ℕ) (prefix : Bytes) (at keys : ℕ)
    → length prefix < at + suc fuel
    → (answer : Bool) × (packet_loop (suc fuel) prefix at keys ≡ some answer)
unfolding packet_loop
packet_loop-some zero prefix at keys h =
    after_round zero prefix keys (round prefix at keys)
      λ next e. absurd (omega (arith, round-lt prefix at keys next e))
packet_loop-some (suc fuel) prefix at keys h =
    after_round (suc fuel) prefix keys (round prefix at keys) λ next e.
      packet_loop-some fuel prefix next (suc keys) (omega (arith, round-lt prefix at keys next e))

-- The walk over the packet chain ends within one round more than there are bytes: the answer of
-- `pgp_packets` is the one that its loop returns.
pub pgp_packets_fuel :
    (prefix : Bytes) → packet_loop (suc (length prefix)) prefix 0 0 ≡ some (pgp_packets prefix)
unfolding pgp_packets
pgp_packets_fuel prefix =
    let (answer, e) = packet_loop-some (length prefix) prefix 0 0 (omega arith) in rw e refl
