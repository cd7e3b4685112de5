-- ===== src/Drivers/Console/Tests.antt =====
-- Concrete runs of kernel/src/drivers/console.c.
use sudo_os.Prelude.{ℕ, ◌≡◌, refl, some, arith, List, [], ◌∷◌}
use sudo_os.Prelude.Int.{negsuc}
use sudo_os.Drivers.Console.{Console, console_init, kprint}
use sudo_os.Drivers.Console.Format.{int, plain, kprintf}
use sudo_os.Drivers.Console.Typed.{asks, a_number, kprintf-IsValid}
use sudo_os.Drivers.Console.History.{IsValid, console_init-IsValid, kprint-IsValid}

abbrev screen : Console
screen = console_init 640 480

abbrev text : List ℕ
text = b'o' ∷ b'k' ∷ 8 ∷ 10 ∷ []

console_init-IsValid_example : IsValid (console_init 640 480)
console_init-IsValid_example = console_init-IsValid 640 480 (omega arith)

kprint-IsValid_example : IsValid (kprint screen text)
kprint-IsValid_example = kprint-IsValid text (console_init-IsValid 640 480 (omega arith))

asks_int : asks plain (b'P' ∷ b'%' ∷ b'd' ∷ 10 ∷ []) ≡ some (a_number ∷ [])
unfolding asks
asks_int = refl

-- `PID %d` and a newline, for PID -7.
kprintf-IsValid_example :
    (c' : Console) × (kprintf screen (b'P' ∷ b'%' ∷ b'd' ∷ 10 ∷ []) (int (negsuc 6) ∷ []) ≡ some c')
    × IsValid c'
kprintf-IsValid_example =
    kprintf-IsValid screen (b'P' ∷ b'%' ∷ b'd' ∷ 10 ∷ []) (a_number ∷ []) (int (negsuc 6) ∷ [])
      asks_int (omega arith, tt) (console_init-IsValid 640 480 (omega arith))
