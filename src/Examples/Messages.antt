-- ===== src/Examples/Messages.antt =====
-- Messages as a whole: their framing, their blocks and headers, and a party field.
use quackiso.Base.{◌≡◌, refl, [], ◌∷◌, ◌++◌, codes, none, some, ok, false, arith, inl, List}
use quackiso.Text.{find, span}
use quackiso.Text.Trim.{trim, trim_end_newlines, trim_blank}
use quackiso.Mt.Line.{line_body}
use quackiso.Mt.Blocks.{block_at, line_of}
use quackiso.Mt.Blocks.Written.{block_then, blocks_then, block_at-written}
use quackiso.Mt.Blocks.Body.{body_then, IsBody, block_at-body}
use quackiso.Mt.Headers.{direction, message_type, sender_bic, receiver_bic}
use quackiso.Mt.Headers.Terminals.{Terminal, bic, IsTerminal}
use quackiso.Mt.Headers.Written.{First, first_text, Second, input, second_text, headers-written}
use quackiso.Mt.Parties.{party_field, join_lines}
use quackiso.Mt.Parties.Written.{
  Numbered, numbered_text, IsNumbered, IsLine, account_lines, party_of, party_field-numbered,
}
use quackiso.Mt.Take.{
  Fill, chunk, MtReader, read_line, take_line, cut_chunk, after_cr, as_text, utf8_from,
}
use quackiso.Mt.Reader.{
  next_message, message_loop, on_line, boundary, on_body_line, push_line, no_draft,
}
use quackiso.Mt.Take.Lines.{bytes_of, cut_line, Cuts, read_line-cut_line}
use quackiso.Mt.Reader.Fuel.{Run, next_message-Run}

-- A CRLF that two chunks share.
abbrev two_chunks : List Fill
two_chunks = chunk (codes ":20:A\r") ∷ chunk (codes "\n-\r") ∷ []

read_line-cut_line_example :
    Cuts (read_line 100 [] false two_chunks) (cut_line 100 (bytes_of two_chunks))
read_line-cut_line_example = read_line-cut_line 100 two_chunks ((λ e. cc), ((λ e. cc), tt))

abbrev reader : MtReader
reader = record { input = two_chunks; pending = none; limit = 100; taken = 0; line = 1 }

next_message-Run_example : Run no_draft reader (next_message reader)
next_message-Run_example = next_message-Run reader

-- A statement without blocks ends at its own terminator.
a_bare_statement_is_one_message :
    next_message reader ≡ ok (some (codes ":20:A\n"), record reader { input = []; taken = 2 })
unfolding next_message message_loop take_line read_line cut_chunk after_cr as_text utf8_from on_line
    boundary on_body_line push_line line_body trim_blank trim_end_newlines trim span find
a_bare_statement_is_one_message = refl

abbrev sender : Terminal
sender = record { bank = codes "AAAABEBB"; letter = b'A'; branch = codes "XXX" }

abbrev receiver : Terminal
receiver = record { bank = codes "CCCCFRPP"; letter = b'X'; branch = codes "123" }

abbrev first : First
first = record { service = (b'F', b'0', b'1'); own = sender; session = codes "0000000000" }

abbrev second : Second
second = input (b'1', b'0', b'3') receiver (codes "N")

sender-IsTerminal : IsTerminal sender
sender-IsTerminal = record { bank_length = refl; branch_length = refl; ascii = omega arith }

receiver-IsTerminal : IsTerminal receiver
receiver-IsTerminal = record { bank_length = refl; branch_length = refl; ascii = omega arith }

headers-written_example :
    let msg =
      block_then 1 (first_text first) (block_then 2 (second_text second) (codes "{4:\n-}")) in
    (direction msg ≡ some (codes "I"))
    × (message_type msg ≡ some (codes "103"))
    × (sender_bic msg ≡ some (bic sender))
    × (receiver_bic msg ≡ some (bic receiver))
headers-written_example =
    headers-written first second (codes "{4:\n-}") sender-IsTerminal (omega arith) (omega arith)
      (omega arith, receiver-IsTerminal, omega arith) refl refl

block_at-written_example :
    let msg =
      blocks_then
        ((1, codes "F01") ∷ [])
        (block_then 3 (codes "{108:A}{121:B}") (codes "{4:\n-}")) in
    block_at msg 3 ≡ some (codes "{108:A}{121:B}", line_of msg 10)
block_at-written_example =
    block_at-written 3 ((1, codes "F01") ∷ []) (codes "{108:A}{121:B}") (codes "{4:\n-}")
      (λ e. omega arith) (((λ e. omega arith), omega arith, refl), tt) refl

unclosed : find (codes "-}") (codes "\n" ++ (codes ":20:{A" ++ codes "\n")) ≡ none
unfolding find
unclosed = refl

note-IsBody : IsBody (codes "\n") (codes ":20:{A") (codes "\n")
note-IsBody = record {
  lead_newlines = (inl refl, tt);
  trail_newlines = (inl refl, tt);
  nonempty = λ e. cc;
  first_inside = refl;
  last_inside = refl;
  not_closed = unclosed;
}

block_at-body_example :
    let msg =
      blocks_then
        ((1, codes "F01") ∷ [])
        (body_then (codes "\n" ++ (codes ":20:{A" ++ codes "\n")) (codes "{5:}")) in
    block_at msg 4 ≡ some (codes ":20:{A", line_of msg 11)
block_at-body_example =
    block_at-body ((1, codes "F01") ∷ []) (codes "\n") (codes ":20:{A") (codes "\n") (codes "{5:}")
      (((λ e. omega arith), omega arith, refl), tt) note-IsBody

abbrev debtor : Numbered
debtor = record {
  account = some (codes "BE30");
  name = codes "PHILIPS";
  street = codes "HOOGSTRAAT 6" ∷ [];
  country = codes "BE";
  town = codes "ANTWERPEN";
}

account_trimmed : trim (codes "BE30") ≡ codes "BE30"
unfolding trim
account_trimmed = refl

account_line : IsLine (codes "/BE30")
unfolding trim
account_line = record { nonempty = λ e. cc; trimmed = refl; one_line = omega arith }

name_line : IsLine (codes "1/PHILIPS")
unfolding trim
name_line = record { nonempty = λ e. cc; trimmed = refl; one_line = omega arith }

street_line : IsLine (codes "2/HOOGSTRAAT 6")
unfolding trim
street_line = record { nonempty = λ e. cc; trimmed = refl; one_line = omega arith }

place_line : IsLine (codes "3/BE/ANTWERPEN")
unfolding trim
place_line = record { nonempty = λ e. cc; trimmed = refl; one_line = omega arith }

debtor-IsNumbered : IsNumbered debtor
debtor-IsNumbered = record {
  account = ((λ e. cc), account_trimmed, refl);
  name_char = refl;
  street_char = (refl, tt);
  place_char = refl;
  country_slash = omega arith;
}

party_field-numbered_example :
    party_field (codes "50F") (join_lines (account_lines debtor.account ++ numbered_text debtor))
    ≡ party_of debtor
party_field-numbered_example =
    party_field-numbered (codes "50F") debtor refl debtor-IsNumbered
      (account_line, (name_line, (street_line, (place_line, tt))))
