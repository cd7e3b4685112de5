-- ===== src/Usr/Tests.antt =====
-- Concrete runs of usr/lib/stdlib.c, usr/lib/string.c, usr/lib/stdio.c and usr/shell.c.
use sudo_os.Prelude.{
  Bool, true, false, replicate, take, ◌-◌, length-replicate, ℕ, ◌≡◌, ◌⊎◌, ◌+◌, List, refl, arith,
  none, some, [], ◌∷◌,
}
use sudo_os.Usr.Malloc.{Heap}
use sudo_os.Prelude.Int.{pos, negsuc}
use sudo_os.Drivers.Console.Format.{int, text, plain, format_text}
use sudo_os.Drivers.Keyboard.Input.{typed}
use sudo_os.Usr.Strtok.{words}
use sudo_os.Usr.Shell.{getline_keys, max_cmd_len, max_args, read_args, read_args-words}
use sudo_os.Usr.Memory.{memmove, moved, memmove-moved}
use sudo_os.Usr.Stdio.{printf, itoa_decimal}
use sudo_os.Usr.Atoi.{atoi, atoi-itoa_decimal}
use sudo_os.Usr.Stdio.Same.{Shared, ended, plain_char, converted, printf-kprintf}

-- Two blocks in use, which end where a page ends.
abbrev two_blocks : Heap
two_blocks = record {
  blocks =
      record { address = 4096; size = 16; is_free = false }
      ∷ record { address = 4136; size = 8128; is_free = false }
      ∷ [];
  heap = 12288;
}

abbrev always : ℕ → ℕ → Bool × Bool
always start size = (true, true)

abbrev memory : ℕ → ℕ
memory a = a + 1

-- The destination stands one byte behind the source.
memmove-moved_example : memmove memory 101 100 4 104 ≡ moved memory 101 100 4 104
memmove-moved_example = memmove-moved memory 101 100 4 104

-- "n%d:%s"
abbrev two_conversions : List ℕ
two_conversions = b'n' ∷ b'%' ∷ b'd' ∷ b':' ∷ b'%' ∷ b's' ∷ []

two_conversions-Shared : Shared two_conversions
two_conversions-Shared = plain_char b'n' (b'%' ∷ b'd' ∷ b':' ∷ b'%' ∷ b's' ∷ []) (omega arith) (
    converted b'%' b'd' (b':' ∷ b'%' ∷ b's' ∷ []) refl refl
      (plain_char b':' (b'%' ∷ b's' ∷ []) (omega arith) (converted b'%' b's' [] refl refl ended)))

printf-kprintf_example :
    printf two_conversions (int (negsuc 41) ∷ text (some (b'o' ∷ b'k' ∷ [])) ∷ [])
    ≡ format_text plain two_conversions (int (negsuc 41) ∷ text (some (b'o' ∷ b'k' ∷ [])) ∷ [])
printf-kprintf_example =
    printf-kprintf two_conversions-Shared (int (negsuc 41) ∷ text (some (b'o' ∷ b'k' ∷ [])) ∷ [])

-- "ls  usr", and the end of the line.
abbrev command : List ℕ
command = b'l' ∷ b's' ∷ b' ' ∷ b' ' ∷ b'u' ∷ b's' ∷ b'r' ∷ b'\n' ∷ []

read_args-words_example :
    ((read_args (replicate 256 0) none command ≡ none)
      × (typed getline_keys (max_cmd_len - 1) command [] ≡ none))
    ⊎ ((line : List ℕ) × (out : List ℕ) × (rest : List ℕ) × (typed getline_keys
            (max_cmd_len - 1)
            command
            []
          ≡ some (line, rest))
        × (read_args (replicate 256 0) none command
            ≡ some (take max_args (words (b' ' ∷ []) [] line), out, rest)))
read_args-words_example =
    read_args-words (replicate 256 0) none command (omega (arith, length-replicate {A = ℕ} 256 0))

atoi-itoa_decimal_example :
    ((t : List ℕ) × (itoa_decimal (pos 41) ≡ some t) × (atoi t ≡ some (pos 41)))
    × ((t : List ℕ) × (itoa_decimal (negsuc 41) ≡ some t) × (atoi t ≡ some (negsuc 41)))
atoi-itoa_decimal_example = atoi-itoa_decimal 41 (omega arith)
