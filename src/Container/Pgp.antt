-- ===== src/Container/Pgp.antt =====
-- The OpenPGP packet chain of src/container.rs. A `usize` has 64 bits.
pub mod Bounds
pub mod Written
pub mod Chain
use quackiso.Base.{
  ℕ, zero, suc, ◌+◌, ◌-◌, ◌*◌, ◌/◌, ◌%◌, ◌^◌, Bool, true, false, ◌&&◌, ◌||◌, [], ◌∷◌, Option, none,
  some, Bytes, codes, and_then, leb, ltb, ◌==◌, if◌then◌else◌, length, get_elem?,
}
use quackiso.Container.Der.{checked_add, big_endian, get_range}
use quackiso.Container.Scan.{document_starts_with}

abbrev pub pgp_armor : Bytes
pgp_armor = codes "-----BEGIN PGP MESSAGE-----"

abbrev pub pkesk : ℕ
pkesk = 1

abbrev pub skesk : ℕ
skesk = 3

abbrev pub sed : ℕ
sed = 9

abbrev pub seipd : ℕ
seipd = 18

pub record PgpPacket : Type 0 where
  pub tag : ℕ
  pub body : ℕ
  pub next : Option ℕ

-- The tag, where the body starts, and its length if the header states one.
abbrev pub Header : Type 0
Header = ℕ × ℕ × Option ℕ

-- `n @ 0..=191`, `192..=223`, `224..=254` and `255`
abbrev new_length : Bytes → ℕ → ℕ → ℕ → Option Header
new_length prefix at tag n =
    if leb n 191
    then some (tag, at + 2, some n)
    else if leb n 223
    then and_then (get_elem? prefix (at + 2))
        (λ second. some (tag, at + 3, some ((n - 192) * 256 + second + 192)))
    else if leb n 254
    then some (tag, at + 2, none)
    else and_then (get_range (at + 2) (at + 6) prefix)
        λ raw. some (tag, at + 6, some (big_endian 0 raw))

-- RFC 4880 onwards: six tag bits and a length that describes itself.
unfoldable pub new_header : Bytes → ℕ → ℕ → Option Header
new_header prefix at first =
    and_then (get_elem? prefix (at + 1)) (new_length prefix at (first % 64))

-- The original format: four tag bits and a length type.
unfoldable pub old_header : Bytes → ℕ → ℕ → Option Header
old_header prefix at first =
    let tag = first / 4 % 16 in
    if first % 4 == 0
    then and_then (get_elem? prefix (at + 1)) (λ n. some (tag, at + 2, some n))
    else if first % 4 == 1
    then and_then (get_range (at + 1) (at + 3) prefix)
        (λ raw. some (tag, at + 3, some (big_endian 0 raw)))
    else if first % 4 == 2
    then and_then (get_range (at + 1) (at + 5) prefix)
        (λ raw. some (tag, at + 5, some (big_endian 0 raw)))
    else some (tag, at + 1, none)

abbrev pub packet_of : Header → PgpPacket
packet_of (tag, body, len) = record {
  tag = tag;
  body = body;
  next = and_then len (checked_add body);
}

abbrev pub map_packet : Option Header → Option PgpPacket
map_packet none = none
map_packet (some h) = some (packet_of h)

-- `first & 0x80 == 0`, and `first & 0x40 != 0`
unfoldable pub pgp_header : Bytes → ℕ → Option PgpPacket
unfolding new_header old_header
pgp_header prefix at = and_then (get_elem? prefix at) λ first.
    if ltb first 128
    then none
    else map_packet
        (if first / 64 % 2 == 1 then new_header prefix at first else old_header prefix at first)

-- The versions that a session-key packet can have.
unfoldable pub known : ℕ → Option ℕ → Bool
known tag none = false
known tag (some v) =
    if tag == pkesk then v == 3 || v == 6 else if tag == skesk then leb 4 v && leb v 6 else false

-- What a round of the loop does: it returns, or goes on at the next header with one key more.
pub data Round : Type 0 where
  return : Bool → Round
  go_on : ℕ → Round

is_version : Option ℕ → Bool
is_version none = false
is_version (some v) = v == 1 || v == 2

-- A key packet has a definite length, and a version that exists.
key_round : PgpPacket → Option ℕ → Round
key_round packet version = elim packet.next [
  | none ↦ return false
  | some next ↦ if known packet.tag version then go_on next else return false
]

unfoldable pub packet_round : PgpPacket → Option ℕ → ℕ → Round
unfolding known is_version key_round
packet_round packet version keys =
    if packet.tag == pkesk || packet.tag == skesk
    then key_round packet version
    else if packet.tag == sed
    then return (ltb 0 keys)
    else if packet.tag == seipd
    then return (is_version version)
    else return false

abbrev pub round_of : Bytes → ℕ → Option PgpPacket → Round
round_of prefix keys none = return false
round_of prefix keys (some packet) = packet_round packet (get_elem? prefix packet.body) keys

unfoldable pub round : Bytes → ℕ → ℕ → Round
unfolding pgp_header packet_round
round prefix at keys = round_of prefix keys (pgp_header prefix at)

-- The loop, on fuel; `none` if that runs out.
unfoldable pub packet_loop : ℕ → Bytes → ℕ → ℕ → Option Bool
unfolding round
packet_loop zero prefix at keys = none
packet_loop (suc fuel) prefix at keys = elim (round prefix at keys) [
  | return answer ↦ some answer
  | go_on next ↦ packet_loop fuel prefix next (suc keys)
]

abbrev pub answer_of : Option Bool → Bool
answer_of none = false
answer_of (some answer) = answer

-- Every round moves forward, so one round more than there are bytes is enough.
unfoldable pub pgp_packets : Bytes → Bool
unfolding packet_loop
pgp_packets prefix = answer_of (packet_loop (suc (length prefix)) prefix 0 0)

unfoldable pub is_pgp : Bytes → Bool
unfolding pgp_packets document_starts_with
is_pgp prefix = document_starts_with prefix pgp_armor || pgp_packets prefix
