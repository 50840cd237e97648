-- ===== src/Mt/Headers/Terminals.antt =====
-- A logical terminal as it is written, and how its BIC is cut out of a header.
use quackiso.Base.{
  ℕ, ◌+◌, ◌-◌, ◌≤◌, ◌<◌, ◌≡◌, refl, sym, ap, ◌∙◌, true, [], ◌∷◌, ◌++◌, some, Bytes, ◌==◌, length,
  take, drop, get_or, arith, take-append_at, drop-append_at, take-length, All, All-append,
  length-append, zero, suc, append_assoc, le→leb, and_then,
}
use quackiso.Text.{is_ascii}
use quackiso.Temporal.{slice}
use quackiso.Mt.Headers.{is_boundary, get_str, bic11}

abbrev pub IsAscii : Bytes → Type 0
IsAscii = All (λ c. c < 128)

pub is_ascii-all : (s : Bytes) → IsAscii s → is_ascii s ≡ true
is_ascii-all [] h = refl
is_ascii-all (c ∷ s) h = ground (arith, is_ascii-all s h.1)

get_or-IsAscii : (i : ℕ) (s : Bytes) → IsAscii s → i < length s → get_or s i 128 < 128
get_or-IsAscii i [] h le = omega arith
get_or-IsAscii zero (c ∷ s) h le = h.0
get_or-IsAscii (suc i) (c ∷ s) h le = get_or-IsAscii i s h.1 (omega arith)

is_boundary-IsAscii : (i : ℕ) (s : Bytes) → IsAscii s → i ≤ length s → is_boundary i s ≡ true
is_boundary-IsAscii i s h le = ground (arith, get_or-IsAscii i s h)

pub get_str-IsAscii :
    (lo hi : ℕ) (s : Bytes)
    → IsAscii s
    → lo ≤ hi
    → hi ≤ length s
    → get_str lo hi s ≡ some (slice lo hi s)
unfolding get_str
get_str-IsAscii lo hi s h le fits = rw (
  le→leb lo hi le,
  le→leb hi (length s) fits,
  is_boundary-IsAscii lo s h (omega arith),
  is_boundary-IsAscii hi s h fits,
)

-- A logical terminal: the bank and its location, the letter of the terminal, and the branch.
pub record Terminal : Type 0 where
  pub bank : Bytes
  pub letter : ℕ
  pub branch : Bytes

abbrev pub terminal_text : Terminal → Bytes
terminal_text t = t.bank ++ t.letter ∷ t.branch

abbrev pub bic : Terminal → Bytes
bic t = t.bank ++ t.branch

pub record IsTerminal (t : Terminal) : Type 0 where
  pub bank_length : length t.bank ≡ 8
  pub branch_length : length t.branch ≡ 3
  pub ascii : IsAscii (terminal_text t)

pub bic11-terminal_text : (t : Terminal) → IsTerminal t → bic11 (terminal_text t) ≡ some (bic t)
unfolding bic11
bic11-terminal_text t h =
    let size : (length (terminal_text t) == 12) ≡ true =
      ground
        (arith, h.bank_length, h.branch_length, length-append {0} t.bank (t.letter ∷ t.branch)) in
    let front : take 8 (terminal_text t) ≡ t.bank =
      take-append_at 8 t.bank (t.letter ∷ t.branch) (sym h.bank_length) in
    let back : drop 9 (terminal_text t) ≡ t.branch =
      ap (drop 9) (sym (append_assoc t.bank (t.letter ∷ []) t.branch))
      ∙ drop-append_at 9 (t.bank ++ t.letter ∷ []) t.branch
          (omega (arith, h.bank_length, length-append {0} t.bank (t.letter ∷ []))) in
    let whole : take 3 t.branch ≡ t.branch =
      ap (λ n. take n t.branch) (sym h.branch_length) ∙ take-length t.branch in
    rw (size, is_ascii-all (terminal_text t) h.ascii, front, back, whole)

-- A terminal behind as many bytes as `lo` is what `get` cuts out, and its BIC is read.
pub get_str-terminal_text :
    (pre rest : Bytes) (t : Terminal)
    → IsAscii pre
    → IsAscii rest
    → IsTerminal t
    → and_then (get_str (length pre) (length pre + 12) (pre ++ (terminal_text t ++ rest))) bic11
      ≡ some (bic t)
get_str-terminal_text pre rest t hp hr h =
    let text = pre ++ (terminal_text t ++ rest) in
    let size : length (terminal_text t) ≡ 12 =
      omega
        (arith, h.bank_length, h.branch_length, length-append {0} t.bank (t.letter ∷ t.branch)) in
    let ascii =
      All-append (λ c. c < 128) pre (terminal_text t ++ rest) hp
        (All-append (λ c. c < 128) (terminal_text t) rest h.ascii hr) in
    let cut : length pre + 12 - length pre ≡ 12 = omega arith in
    rw
      (
        get_str-IsAscii (length pre) (length pre + 12) text ascii (omega arith) (
            omega (
              arith,
              size,
              length-append {0} pre (terminal_text t ++ rest),
              length-append {0} (terminal_text t) rest,
            )),
        cut,
        drop-append_at (length pre) pre (terminal_text t ++ rest) refl,
        take-append_at 12 (terminal_text t) rest (sym size),
      )
      (bic11-terminal_text t h)
