-- ===== src/Usr/Memory.antt =====
-- `memcpy` and `memmove` of usr/lib/string.c on the bytes of memory, by address; no address wraps.
use sudo_os.Prelude.{
  ℕ, zero, suc, ◌+◌, ◌-◌, ◌≤◌, ◌≡◌, arith, ◌==◌, ◌&&◌, leb, ltb, if◌then◌else◌, Bool-cases, inl,
  inr,
}

abbrev pub write_byte : (ℕ → ℕ) → ℕ → ℕ → ℕ → ℕ
write_byte mem p c q = if q == p then c else mem q

-- `while (n--) *d++ = *s++`
unfoldable pub copy_up : (ℕ → ℕ) → ℕ → ℕ → ℕ → ℕ → ℕ
copy_up mem d s zero = mem
copy_up mem d s (suc n) = copy_up (write_byte mem d (mem s)) (d + 1) (s + 1) n

-- `while (n--) *lastd-- = *lasts--`, where the pointers stand at `d + n` and `s + n`.
unfoldable pub copy_down : (ℕ → ℕ) → ℕ → ℕ → ℕ → ℕ → ℕ
copy_down mem d s zero = mem
copy_down mem d s (suc n) = copy_down (write_byte mem (d + n) (mem (s + n))) d s n

unfoldable pub memcpy : (ℕ → ℕ) → ℕ → ℕ → ℕ → ℕ → ℕ
memcpy mem dest src n = copy_up mem dest src n

unfoldable pub memmove : (ℕ → ℕ) → ℕ → ℕ → ℕ → ℕ → ℕ
memmove mem dest src n = if ltb dest src then copy_up mem dest src n else copy_down mem dest src n

-- Each of the `n` bytes from `d` on is the byte that stood as far behind `s`; every other byte is the same.
abbrev pub moved : (ℕ → ℕ) → ℕ → ℕ → ℕ → ℕ → ℕ
moved mem d s n q = if leb d q && ltb q (d + n) then mem (s + (q - d)) else mem q

copy_up-moved : (n : ℕ) (mem : ℕ → ℕ) (d s q : ℕ) → d ≤ s → copy_up mem d s n q ≡ moved mem d s n q
unfolding copy_up
copy_up-moved zero mem d s q le = ground arith
copy_up-moved (suc n) mem d s q le =
    ground (arith, copy_up-moved n (write_byte mem d (mem s)) (d + 1) (s + 1) q)

copy_down-moved :
    (n : ℕ) (mem : ℕ → ℕ) (d s q : ℕ) → s ≤ d → copy_down mem d s n q ≡ moved mem d s n q
unfolding copy_down
copy_down-moved zero mem d s q le = ground arith
copy_down-moved (suc n) mem d s q le =
    ground (arith, copy_down-moved n (write_byte mem (d + n) (mem (s + n))) d s q)

-- `memmove` puts the bytes that stood at the source to the destination and leaves every other byte, however
-- the two overlap.
pub memmove-moved :
    (mem : ℕ → ℕ) (dest src n q : ℕ) → memmove mem dest src n q ≡ moved mem dest src n q
unfolding memmove
memmove-moved mem dest src n q = elim (Bool-cases (ltb dest src)) [
  | inl lt ↦ rw lt (copy_up-moved n mem dest src q (ground arith))
  | inr ge ↦ rw ge (copy_down-moved n mem dest src q (ground arith))
]
