-- ===== src/Mt/Headers/Written.antt =====
-- The headers of a message that is written block by block.
use quackiso.Base.{
  ℕ, ◌+◌, ◌<◌, ◌≡◌, refl, [], ◌∷◌, ◌++◌, none, some, Bytes, codes, if◌then◌else◌, length, arith,
  All, All-append, length-append, and_then,
}
use quackiso.Text.{is_digit, all}
use quackiso.Text.Digits.{IsDigit, all-is_digit}
use quackiso.Mt.Blocks.{block, block_at}
use quackiso.Mt.Blocks.Nesting.{IsBalanced}
use quackiso.Mt.Blocks.Written.{block_then, block_at-written}
use quackiso.Mt.Headers.{
  get_str, direction, direction_of, type_of, message_type, logical_terminal, bic11, sender_bic,
  receiver_bic,
}
use quackiso.Mt.Headers.Terminals.{
  IsAscii, get_str-IsAscii, Terminal, terminal_text, bic, IsTerminal, get_str-terminal_text,
}

-- Block 1: three characters of the application and the service, the terminal, and the session.
pub record First : Type 0 where
  pub service : ℕ × ℕ × ℕ
  pub own : Terminal
  pub session : Bytes

abbrev pub first_text : First → Bytes
first_text f = f.service.0 ∷ f.service.1 ∷ f.service.2 ∷ (terminal_text f.own ++ f.session)

-- Block 2 of a message to the network, which names the receiver, or of one from it, which names the
-- sender behind ten characters of the input's time and date.
pub data Second : Type 0 where
  input : (mt : ℕ × ℕ × ℕ) (other : Terminal) (rest : Bytes) → Second
  output : (mt : ℕ × ℕ × ℕ) (stamp : Bytes) (other : Terminal) (rest : Bytes) → Second

abbrev pub type_text : ℕ × ℕ × ℕ → Bytes
type_text mt = mt.0 ∷ mt.1 ∷ mt.2 ∷ []

abbrev pub second_text : Second → Bytes
second_text (input mt other rest) = b'I' ∷ (type_text mt ++ (terminal_text other ++ rest))
second_text (output mt stamp other rest) =
    b'O' ∷ (type_text mt ++ (stamp ++ (terminal_text other ++ rest)))

abbrev pub IsSecond : Second → Type 0
IsSecond (input mt other rest) = All IsDigit (type_text mt) × IsTerminal other × IsAscii rest
IsSecond (output mt stamp other rest) =
    All IsDigit (type_text mt)
    × (length stamp ≡ 10)
    × IsAscii stamp
    × IsTerminal other
    × IsAscii rest

-- What the headers say: the direction, the number, the sender, and the receiver.
abbrev pub header_of : First → Second → Bytes × Bytes × Terminal × Terminal
header_of f (input mt other rest) = (codes "I", type_text mt, f.own, other)
header_of f (output mt stamp other rest) = (codes "O", type_text mt, other, f.own)

direction-second_text :
    (f : First) (s : Second) → direction_of (second_text s) ≡ some (header_of f s).0
unfolding direction_of
direction-second_text f (input mt other rest) = refl
direction-second_text f (output mt stamp other rest) = refl

type_cut :
    (c : ℕ) (mt : ℕ × ℕ × ℕ) (rest : Bytes)
    → IsAscii (c ∷ (type_text mt ++ rest))
    → All IsDigit (type_text mt)
    → and_then
        (get_str 1 4 (c ∷ (type_text mt ++ rest)))
        (λ n. if all is_digit n then some n else none)
      ≡ some (type_text mt)
type_cut c mt rest h digits = rw (
  get_str-IsAscii 1 4 (c ∷ (type_text mt ++ rest)) h (omega arith) (omega arith),
  all-is_digit (type_text mt) digits,
)

letter-IsAscii :
    (c : ℕ) (mt : ℕ × ℕ × ℕ) → c < 128 → All IsDigit (type_text mt) → IsAscii (c ∷ type_text mt)
letter-IsAscii c mt h d = omega arith

IsAscii-append : (s t : Bytes) → IsAscii s → IsAscii t → IsAscii (s ++ t)
IsAscii-append = All-append (λ c. c < 128)

type_of-second_text :
    (f : First) (s : Second) → IsSecond s → type_of (second_text s) ≡ some (header_of f s).1
unfolding type_of
type_of-second_text f (input mt other rest) (digits, terminal, ascii) =
    type_cut b'I' mt (terminal_text other ++ rest)
      (IsAscii-append (b'I' ∷ type_text mt) (terminal_text other ++ rest)
        (letter-IsAscii b'I' mt (omega arith) digits)
        (IsAscii-append (terminal_text other) rest terminal.ascii ascii))
      digits
type_of-second_text f (output mt stamp other rest) (digits, _, stamped, terminal, ascii) =
    type_cut b'O' mt (stamp ++ (terminal_text other ++ rest))
      (IsAscii-append (b'O' ∷ type_text mt) (stamp ++ (terminal_text other ++ rest))
        (letter-IsAscii b'O' mt (omega arith) digits)
        (IsAscii-append stamp (terminal_text other ++ rest) stamped
          (IsAscii-append (terminal_text other) rest terminal.ascii ascii)))
      digits

input_bic :
    (mt : ℕ × ℕ × ℕ) (other : Terminal) (rest : Bytes)
    → IsSecond (input mt other rest)
    → and_then (get_str 4 16 (second_text (input mt other rest))) bic11 ≡ some (bic other)
input_bic mt other rest (digits, terminal, ascii) =
    get_str-terminal_text (b'I' ∷ type_text mt) rest other
      (letter-IsAscii b'I' mt (omega arith) digits) ascii terminal

output_bic :
    (mt : ℕ × ℕ × ℕ) (stamp : Bytes) (other : Terminal) (rest : Bytes)
    → IsSecond (output mt stamp other rest)
    → and_then (get_str 14 26 (second_text (output mt stamp other rest))) bic11 ≡ some (bic other)
output_bic mt stamp other rest (digits, size, stamped, terminal, ascii) =
    let pre = b'O' ∷ (type_text mt ++ stamp) in
    let long : 14 ≡ length pre = omega (arith, size, length-append {0} (type_text mt) stamp) in
    terminal_at 14 pre long (
      get_str-terminal_text pre rest other
        (IsAscii-append (b'O' ∷ type_text mt) stamp (letter-IsAscii b'O' mt (omega arith) digits)
          stamped)
        ascii terminal)
  where
    terminal_at :
        (lo : ℕ) (pre : Bytes)
        → lo ≡ length pre
        → and_then
            (get_str (length pre) (length pre + 12) (pre ++ (terminal_text other ++ rest)))
            bic11
          ≡ some (bic other)
        → and_then (get_str lo (lo + 12) (pre ++ (terminal_text other ++ rest))) bic11
          ≡ some (bic other)
    terminal_at lo pre e h = rw e h

block-block_at :
    (msg : Bytes) (n : ℕ) {content : Bytes} {line : ℕ}
    → block_at msg n ≡ some (content, line)
    → block msg n ≡ some content
unfolding block
block-block_at msg n e = rw (block, e)

module _ (f : First) (s : Second) (t : Bytes) (own : IsTerminal f.own) (session : IsAscii f.session)
    (service : IsAscii (f.service.0 ∷ f.service.1 ∷ f.service.2 ∷ [])) (second : IsSecond s)
    (nested : IsBalanced (first_text f)) (nested' : IsBalanced (second_text s)) where
  abbrev headed : Bytes
  headed = block_then 1 (first_text f) (block_then 2 (second_text s) t)

  first_block : block headed 1 ≡ some (first_text f)
  first_block = block-block_at headed 1 (
      block_at-written 1 [] (first_text f) (block_then 2 (second_text s) t) (λ e. omega arith) tt
        nested)

  second_block : block headed 2 ≡ some (second_text s)
  second_block = block-block_at headed 2 (
      block_at-written 2 ((1, first_text f) ∷ []) (second_text s) t (λ e. omega arith)
        (((λ e. omega arith), omega arith, nested), tt) nested')

  own_bic : and_then (logical_terminal headed) bic11 ≡ some (bic f.own)
  unfolding logical_terminal
  own_bic = rw first_block (
      get_str-terminal_text (f.service.0 ∷ f.service.1 ∷ f.service.2 ∷ []) f.session f.own service
        session own)

-- The facts on the two blocks, put together.
module _ (f : First) (msg : Bytes)
    (own : and_then (logical_terminal msg) bic11 ≡ some (bic f.own)) where
  parties :
      (s : Second)
      → IsSecond s
      → block msg 2 ≡ some (second_text s)
      → (sender_bic msg ≡ some (bic (header_of f s).2))
        × (receiver_bic msg ≡ some (bic (header_of f s).3))
  unfolding sender_bic receiver_bic direction direction_of
  parties (input mt other rest) h e = (rw e own, rw e (input_bic mt other rest h))
  parties (output mt stamp other rest) h e = (rw e (output_bic mt stamp other rest h), rw e own)

-- Of a message with its two headers written out, whatever stands behind them, `direction` says whether it
-- goes to the network or comes from it, `message_type` its number, and `sender_bic` and `receiver_bic` the
-- banks on the two sides, each without the letter of the terminal: the bank of block 1 sends a message
-- to the network and receives one from it. The headers are ASCII and nest their braces.
pub headers-written :
    (f : First) (s : Second) (t : Bytes)
    → IsTerminal f.own
    → IsAscii f.session
    → IsAscii (f.service.0 ∷ f.service.1 ∷ f.service.2 ∷ [])
    → IsSecond s
    → IsBalanced (first_text f)
    → IsBalanced (second_text s)
    → let msg = block_then 1 (first_text f) (block_then 2 (second_text s) t) in
      let said = header_of f s in
      (direction msg ≡ some said.0)
      × (message_type msg ≡ some said.1)
      × (sender_bic msg ≡ some (bic said.2))
      × (receiver_bic msg ≡ some (bic said.3))
unfolding direction message_type
headers-written f s t own session service second nested nested' =
    let msg = block_then 1 (first_text f) (block_then 2 (second_text s) t) in
    let found = second_block f s t own session service second nested nested' in
    let both =
      parties f msg (own_bic f s t own session service second nested nested') s second found in
    (
      rw found (direction-second_text f s),
      rw found (type_of-second_text f s second),
      both.0,
      both.1,
    )
