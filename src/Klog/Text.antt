-- ===== src/Klog/Text.antt =====
-- Where lib/klog.c puts the characters of a text.
use pandos_plus.Base.{
  ℕ, zero, suc, ◌+◌, ◌-◌, ◌*◌, ◌/◌, ◌%◌, ◌^◌, ◌<◌, ◌≤◌, ◌⊎◌, ◌≡◌, ◌≢◌, List, [], ◌∷◌, ltb, leb,
  ◌==◌, if◌then◌else◌, arith, refl, Bool-cases, inl, inr, length, All, update, ◌∙◌, sym, ap,
}
use pandos_plus.Klog.{
  Klog, klog_lines, klog_line_size, next_line, next_char, put_char, print_char, klog_print, digit,
  hex_loop, klog_print_hex,
}

-- The current place is in the buffer.
pub record IsValid (k : Klog) : Type 0 where
  pub line : k.klog_line_index < klog_lines
  pub char : k.klog_char_index < klog_line_size

put_char-IsValid : (c : ℕ) (k : Klog) → IsValid k → IsValid (put_char c k)
unfolding put_char next_char next_line
put_char-IsValid c k v = ground arith

print_char-IsValid : (c : ℕ) (k : Klog) → IsValid k → IsValid (print_char c k)
unfolding print_char next_line
print_char-IsValid c k v = ground (arith, put_char-IsValid c k)

-- If the next place is one of the buffer, it is so after `klog_print`, whatever the text.
pub klog_print-IsValid : (str : List ℕ) (k : Klog) → IsValid k → IsValid (klog_print str k)
unfolding klog_print
klog_print-IsValid [] k v = v
klog_print-IsValid (c ∷ str) k v =
    klog_print-IsValid str (print_char c k) (print_char-IsValid c k v)

-- the character at a place of a text that starts at `start`, or `old` outside of it
abbrev pub char_at : List ℕ → ℕ → ℕ → ℕ → ℕ
char_at [] start i old = old
char_at (c ∷ str) start i old = if start == i then c else char_at str (start + 1) i old

char_at_before : (str : List ℕ) (start i old : ℕ) → i < start → char_at str start i old ≡ old
char_at_before [] start i old few = refl
char_at_before (c ∷ str) start i old few = ground (arith, char_at_before str (start + 1) i old)

-- the log with `c` at the current place, on a line with room for more
abbrev written : ℕ → Klog → Klog
written c k = record k {
  klog_char_index = k.klog_char_index + 1;
  klog_buffer =
      update k.klog_buffer k.klog_line_index
        (update (k.klog_buffer k.klog_line_index) k.klog_char_index c);
}

print_char_plain :
    (c : ℕ) (k : Klog)
    → c ≢ b'\n'
    → k.klog_char_index + 1 < klog_line_size
    → print_char c k ≡ written c k
unfolding print_char put_char next_char
print_char_plain c k plain room = ground arith

-- A text with no newline that leaves room on the current line stands there from the current place
-- on, and nothing else of the buffer has changed.
pub klog_print-fits :
    (str : List ℕ) (k : Klog) (line i : ℕ)
    → All (λ c. c ≢ b'\n') str
    → k.klog_char_index + length str < klog_line_size
    → let k' = klog_print str k in
      (k'.klog_line_index ≡ k.klog_line_index)
      × (k'.klog_char_index ≡ k.klog_char_index + length str)
      × (k'.klog_buffer line i ≡ (
          if k.klog_line_index == line
          then char_at str k.klog_char_index i (k.klog_buffer line i)
          else k.klog_buffer line i))
unfolding klog_print
klog_print-fits [] k line i plain fits = ground arith
klog_print-fits (c ∷ str) k line i plain fits =
    let rest = klog_print-fits str (written c k) line i plain.1 (omega arith) in
    let before = char_at_before str (k.klog_char_index + 1) i c in
    let e = print_char_plain c k plain.0 (omega arith) in
    let same : klog_print (c ∷ str) k ≡ klog_print str (written c k) = ap (klog_print str) e in
    (
      ap (λ (j : Klog). j.klog_line_index) same ∙ rest.0,
      ap (λ (j : Klog). j.klog_char_index) same ∙ rest.1 ∙ omega arith,
      ap (λ (j : Klog). j.klog_buffer line i) same ∙ rest.2 ∙ ground (arith, before),
    )

-- the number that a digit stands for
abbrev pub nibble : ℕ → ℕ
nibble c = if leb c b'9' then c - b'0' else c + 10 - b'A'

-- the number whose digits are given with the lowest first
abbrev pub number : List ℕ → ℕ
number [] = 0
number (c ∷ digits) = nibble c + 16 * number digits

nibble-digit : (n : ℕ) → n < 16 → nibble (digit n) ≡ n
unfolding digit
nibble-digit n small = ground arith

print_digit : (n : ℕ) (k : Klog) → n < 16 → print_char (digit n) k ≡ put_char (digit n) k
unfolding print_char digit
print_digit n k small = ground arith

-- a character of `0` to `9` or of `A` to `F`
abbrev pub IsHex : ℕ → Type 0
IsHex c = ((b'0' ≤ c) × (c ≤ b'9')) ⊎ ((b'A' ≤ c) × (c ≤ b'F'))

-- At least one digit, and the digits from any place but the first on are not all 0.
abbrev pub IsTrimmed : List ℕ → Type 0
IsTrimmed [] = ⊥
IsTrimmed (c ∷ []) = Unit
IsTrimmed (c ∷ d ∷ digits) = (number (d ∷ digits) ≢ 0) × IsTrimmed (d ∷ digits)

-- The digits printed for a number, as a text, the lowest first.
abbrev pub Digits : ℕ → Klog → Klog → Type 0
Digits num k k' =
    (digits : List ℕ) × (k' ≡ klog_print digits k)
    × (number digits ≡ num)
    × All IsHex digits
    × IsTrimmed digits

digit-IsHex : (n : ℕ) → n < 16 → IsHex (digit n)
unfolding digit
digit-IsHex n small = elim (Bool-cases (ltb n 10)) [
  | inl e ↦ inl (ground arith)
  | inr e ↦ inr (ground arith)
]

IsTrimmed-cons :
    (c : ℕ) (digits : List ℕ) → number digits ≢ 0 → IsTrimmed digits → IsTrimmed (c ∷ digits)
IsTrimmed-cons c [] more h = absurd h
IsTrimmed-cons c (d ∷ digits) more h = (more, h)

one_digit : (rounds num : ℕ) (k : Klog) → num < 16 → Digits num k (hex_loop (suc rounds) num k)
unfolding hex_loop klog_print
one_digit rounds num k small = (
  digit (num % 16) ∷ [],
  ground (arith, print_digit (num % 16) k),
  ground (arith, nibble-digit (num % 16)),
  (digit-IsHex (num % 16) (omega arith), tt),
  tt,
)

hex_loop-Digits :
    (rounds num : ℕ) (k : Klog) → num < 16 ^ suc rounds → Digits num k (hex_loop (suc rounds) num k)
unfolding hex_loop klog_print
hex_loop-Digits zero num k few = one_digit zero num k (omega arith)
hex_loop-Digits (suc rounds) num k few = elim (Bool-cases (ltb 0 (num / 16))) [
  | inl more ↦
      let (digits, printed, is, hex, trimmed) =
        hex_loop-Digits rounds (num / 16) (put_char (digit (num % 16)) k) (omega arith) in
      (
        digit (num % 16) ∷ digits,
        rw more (printed ∙ ap (klog_print digits) (sym (print_digit (num % 16) k (omega arith)))),
        ground (arith, nibble-digit (num % 16), is),
        (digit-IsHex (num % 16) (omega arith), hex),
        IsTrimmed-cons (digit (num % 16)) digits (ground (arith, is)) trimmed,
      )
  | inr last ↦ one_digit (suc rounds) num k (ground arith)
]

-- `klog_print_hex` of a word writes a text of the characters `0` to `9` and `A` to `F`, the
-- digits of the word in base 16, the lowest first, with no leading zero but for the number 0.
pub klog_print_hex-Digits :
    (num : ℕ) (k : Klog) → num < 2 ^ 32 → Digits num k (klog_print_hex num k)
unfolding klog_print_hex
klog_print_hex-Digits num k word = hex_loop-Digits 7 num k word
