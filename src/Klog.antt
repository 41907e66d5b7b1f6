-- ===== src/Klog.antt =====
-- lib/klog.c: a ring of lines of text. A character is its code, a text the codes before its `\0`.
pub mod Text
pub mod Tests
use pandos_plus.Base.{
  ℕ, zero, suc, ◌+◌, ◌-◌, ◌/◌, ◌%◌, List, [], ◌∷◌, ltb, leb, ◌==◌, if◌then◌else◌, update,
}
use pandos_plus.Machine.{word_mod}

abbrev pub klog_lines : ℕ
klog_lines = 64

abbrev pub klog_line_size : ℕ
klog_line_size = 42

-- `klog_buffer[line][char]`
pub record Klog : Type 0 where
  pub klog_line_index : ℕ
  pub klog_char_index : ℕ
  pub klog_buffer : ℕ → ℕ → ℕ

-- The loop of `next_line` over the first `n` characters of the line.
pub blank_loop : ℕ → (ℕ → ℕ) → ℕ → ℕ
blank_loop zero line = line
blank_loop (suc i) line = update (blank_loop i line) i b' '

pub next_line : Klog → Klog
unfolding blank_loop
next_line k =
    let line = (k.klog_line_index + 1) % klog_lines in
    record k {
      klog_line_index = line;
      klog_char_index = 0;
      klog_buffer = update k.klog_buffer line (blank_loop klog_line_size (k.klog_buffer line));
    }

pub next_char : Klog → Klog
next_char k =
    let char = (k.klog_char_index + 1) % word_mod in
    if leb klog_line_size char
    then next_line (record k { klog_char_index = 0 })
    else record k { klog_char_index = char }

-- The character at the current place, and on to the next.
pub put_char : ℕ → Klog → Klog
put_char c k =
    let line = k.klog_line_index in
    next_char (record k {
      klog_buffer = update k.klog_buffer line (update (k.klog_buffer line) k.klog_char_index c);
    })

pub print_char : ℕ → Klog → Klog
print_char c k = if c == b'\n' then next_line k else put_char c k

pub klog_print : List ℕ → Klog → Klog
klog_print [] k = k
klog_print (c ∷ str) k = klog_print str (print_char c k)

-- `digits[n]`
pub digit : ℕ → ℕ
digit n = if ltb n 10 then b'0' + n else b'A' + n - 10

-- The `do` loop of `klog_print_hex`, on fuel: a round for each digit of a word.
pub hex_loop : ℕ → ℕ → Klog → Klog
hex_loop zero num k = k
hex_loop (suc rounds) num k =
    let rest = hex_loop rounds (num / 16) (put_char (digit (num % 16)) k) in
    if ltb 0 (num / 16) then rest else put_char (digit (num % 16)) k

pub klog_print_hex : ℕ → Klog → Klog
unfolding hex_loop
klog_print_hex num k = hex_loop 8 num k
