-- ===== src/Container/Pgp/Chain.antt =====
-- Chains of OpenPGP packets as they are written, in the format of RFC 4880 and later.
use quackiso.Base.{
  ℕ, zero, suc, ◌+◌, ◌^◌, ◌≤◌, ◌<◌, ◌≡◌, refl, ap, ◌∙◌, ◌⊎◌, true, List, [], ◌∷◌, ◌++◌, some, Bytes,
  All, length, length-append, append_assoc, arith,
}
use quackiso.Container.Pgp.Written.{packet_length, pgp_header-written, version-written}
use quackiso.Container.Pgp.{packet_round, round, return, go_on, packet_loop, answer_of, pgp_packets}

-- A session-key packet: its tag, the version, and the rest of its body.
pub record KeyPacket : Type 0 where
  pub tag : ℕ
  pub version : ℕ
  pub rest : Bytes

pub record IsKeyPacket (k : KeyPacket) : Type 0 where
  pub versioned :
      ((k.tag ≡ 1) × ((k.version ≡ 3) ⊎ (k.version ≡ 6)))
      ⊎ ((k.tag ≡ 3) × ((k.version ≡ 4) ⊎ ((k.version ≡ 5) ⊎ (k.version ≡ 6))))
  pub short : suc (length k.rest) < 2 ^ 32

abbrev pub key_text : KeyPacket → Bytes
key_text k = (192 + k.tag) ∷ (packet_length (suc (length k.rest)) ++ (k.version ∷ k.rest))

abbrev pub keys_text : List KeyPacket → Bytes
keys_text [] = []
keys_text (k ∷ ks) = key_text k ++ keys_text ks

packet_round-key :
    (k : KeyPacket) (body next keys : ℕ)
    → IsKeyPacket k
    → packet_round (record { tag = k.tag; body = body; next = some next }) (some k.version) keys
      ≡ go_on next
unfolding packet_round
packet_round-key k body next keys h = ground (arith, h.versioned)

key_text-append :
    (k : KeyPacket) (s : Bytes)
    → ◌≡◌ {A = Bytes}
        (key_text k ++ s)
        ((192 + k.tag) ∷ (packet_length (suc (length k.rest)) ++ (k.version ∷ (k.rest ++ s))))
key_text-append k s =
    ap (λ (t : Bytes). (192 + k.tag) ∷ t)
      (append_assoc (packet_length (suc (length k.rest))) (k.version ∷ k.rest) s)

body_of : KeyPacket → Bytes → ℕ
body_of k before = length before + 1 + length (packet_length (suc (length k.rest)))

-- The loop steps over a key packet, to what is written behind it.
round-key :
    (k : KeyPacket) (before s : Bytes) (keys next : ℕ)
    → IsKeyPacket k
    → length before < 2 ^ 63
    → length (before ++ key_text k) ≡ next
    → round (before ++ (key_text k ++ s)) (length before) keys ≡ go_on next
unfolding round body_of
round-key k before s keys next v short e =
    rw
      (
        round,
        key_text-append k s,
        pgp_header-written k.tag (suc (length k.rest)) before (k.version ∷ (k.rest ++ s))
            (ground (arith, v.versioned)) v.short short,
        version-written (192 + k.tag) (suc (length k.rest)) k.version before (k.rest ++ s),
        same,
      )
      (packet_round-key k (body_of k before) next keys v)
  where
    same :
        length before + 1 + length (packet_length (suc (length k.rest))) + suc (length k.rest)
        ≡ next
    same = omega (
      arith,
      length-append before (key_text k),
      length-append (packet_length (suc (length k.rest))) (k.version ∷ k.rest),
    )

-- Of the data packet, any version that exists is taken.
round-data :
    (tag n v : ℕ) (before s : Bytes) (keys : ℕ)
    → tag ≡ 18
    → (v ≡ 1) ⊎ (v ≡ 2)
    → n < 2 ^ 32
    → length before < 2 ^ 63
    → round (before ++ ((192 + tag) ∷ (packet_length n ++ (v ∷ s)))) (length before) keys
      ≡ return true
unfolding packet_round round
round-data tag n v before s keys e h small short =
    rw
      (
        round,
        pgp_header-written tag n before (v ∷ s) (omega arith) small short,
        version-written (192 + tag) n v before s,
      )
      (ground arith)

abbrev data_text : ℕ → ℕ → Bytes → Bytes
data_text n v s = 210 ∷ (packet_length n ++ (v ∷ s))

packet_loop-return :
    (fuel : ℕ) (prefix : Bytes) (at keys : ℕ)
    → round prefix at keys ≡ return true
    → packet_loop (suc fuel) prefix at keys ≡ some true
unfolding packet_loop
packet_loop-return fuel prefix at keys e = rw (packet_loop, e) refl

packet_loop-go_on :
    (fuel : ℕ) (prefix : Bytes) (at keys next : ℕ)
    → round prefix at keys ≡ go_on next
    → packet_loop (suc fuel) prefix at keys ≡ packet_loop fuel prefix next (suc keys)
unfolding packet_loop
packet_loop-go_on fuel prefix at keys next e = rw (packet_loop, e) refl

packet_loop-chain :
    (ks : List KeyPacket) (fuel n v : ℕ) (before s : Bytes) (keys : ℕ)
    → All IsKeyPacket ks
    → (v ≡ 1) ⊎ (v ≡ 2)
    → n < 2 ^ 32
    → length (before ++ keys_text ks) < 2 ^ 63
    → length ks < fuel
    → packet_loop fuel (before ++ (keys_text ks ++ data_text n v s)) (length before) keys
      ≡ some true
packet_loop-chain ks zero n v before s keys h w small short enough = absurd (omega arith)
packet_loop-chain [] (suc fuel) n v before s keys h w small short enough =
    packet_loop-return fuel (before ++ data_text n v s) (length before) keys
      (round-data 18 n v before s keys refl w small (omega (arith, length-append before [])))
packet_loop-chain (k ∷ ks) (suc fuel) n v before s keys h w small short enough =
    rw (append_assoc (key_text k) (keys_text ks) (data_text n v s)) (
      packet_loop-go_on fuel (before ++ (key_text k ++ (keys_text ks ++ data_text n v s)))
        (length before) keys (length (before ++ key_text k))
        (round-key k before (keys_text ks ++ data_text n v s) keys (length (before ++ key_text k))
          h.0 (omega (arith, length-append before (key_text k ++ keys_text ks))) refl)
      ∙ rw (← append_assoc before (key_text k) (keys_text ks ++ data_text n v s)) (
          packet_loop-chain ks fuel n v (before ++ key_text k) s (suc keys) h.1 w small
            (rw (append_assoc before (key_text k) (keys_text ks)) short) (omega arith)))

length-le-keys_text : (ks : List KeyPacket) → length ks ≤ length (keys_text ks)
length-le-keys_text [] = omega arith
length-le-keys_text (k ∷ ks) = omega (
  arith,
  length-le-keys_text ks,
  length-append (packet_length (suc (length k.rest)) ++ (k.version ∷ k.rest)) (keys_text ks),
)

-- Session-key packets and then encrypted data are taken for a PGP message, whatever the data are
-- and wherever the prefix cuts them.
pub pgp_packets-written :
    (ks : List KeyPacket) (n v : ℕ) (s : Bytes)
    → All IsKeyPacket ks
    → (v ≡ 1) ⊎ (v ≡ 2)
    → n < 2 ^ 32
    → length (keys_text ks) < 2 ^ 63
    → pgp_packets (keys_text ks ++ (210 ∷ (packet_length n ++ (v ∷ s)))) ≡ true
unfolding pgp_packets
pgp_packets-written ks n v s h w small short = ap answer_of (
    packet_loop-chain ks (suc (length (keys_text ks ++ data_text n v s))) n v [] s 0 h w small short
      (omega (arith, length-le-keys_text ks, length-append (keys_text ks) (data_text n v s))))
