-- ===== src/Arch/Isr.antt =====
-- `isr_handler` of kernel/src/arch/interrupts.c, the handlers that it calls, and the messages of the
-- exceptions. A handler is a function on the system; the port writes are in the order of the calls.
use sudo_os.Prelude.{
  ℕ, ◌&&◌, Option, none, some, List, [], ◌∷◌, ◌==◌, leb, ltb, if◌then◌else◌, get_or,
}
use sudo_os.Prelude.Text.{ascii}
use sudo_os.Drivers.Console.Format.{word, text}
use sudo_os.Fs.Ramfs.{Outcome, done}
use sudo_os.Fs.Ramfs.Dirs.{chain}
use sudo_os.Arch.System.{System, Registers, Answer, Calls}
use sudo_os.Arch.Syscall.{say, syscall_handler}

-- `interrupt_handlers`, with `none` for NULL.
abbrev pub Handlers : Type 0
Handlers = ℕ → Option (System → Registers → System)

unfoldable pub register_interrupt_handler : Handlers → ℕ → (System → Registers → System) → Handlers
register_interrupt_handler table n handler m = if m == n then some handler else table m

abbrev pub exception_messages : List (List ℕ)
exception_messages =
    ascii "0: Divide-by-zero Error"
    ∷ ascii "1: Debug Exception"
    ∷ ascii "2: Non-maskable Interrupt"
    ∷ ascii "3: Breakpoint"
    ∷ ascii "4: Overflow"
    ∷ ascii "5: Bound Range Exceeded"
    ∷ ascii "6: Invalid Opcode"
    ∷ ascii "7: Device Not Available"
    ∷ ascii "8: Double Fault"
    ∷ ascii "9: Coprocessor Segment Overrun"
    ∷ ascii "10: Invalid TSS"
    ∷ ascii "11: Segment Not Present"
    ∷ ascii "12: Stack-Segment Fault"
    ∷ ascii "13: General Protection Fault"
    ∷ ascii "14: Page Fault"
    ∷ ascii "15: Reserved"
    ∷ ascii "16: x87 Floating-Point Exception"
    ∷ ascii "17: Alignment Check"
    ∷ ascii "18: Machine Check"
    ∷ ascii "19: SIMD Floating-Point Exception"
    ∷ ascii "20: Virtualization Exception"
    ∷ ascii "21: Control Protection Exception"
    ∷ ascii "22: Reserved"
    ∷ ascii "23: Reserved"
    ∷ ascii "24: Reserved"
    ∷ ascii "25: Reserved"
    ∷ ascii "26: Reserved"
    ∷ ascii "27: Reserved"
    ∷ ascii "28: Reserved"
    ∷ ascii "29: Reserved"
    ∷ ascii "30: Reserved"
    ∷ ascii "31: Reserved"
    ∷ []

-- The ports and bytes that acknowledge an interrupt.
unfoldable pub end_of_interrupt : ℕ → List (ℕ × ℕ)
end_of_interrupt int_no =
    if leb 32 int_no && leb int_no 47
    then (if leb 40 int_no then (0xA0, 0x20) ∷ (0x20, 0x20) ∷ [] else (0x20, 0x20) ∷ [])
    else []

-- The lines that an exception without a handler prints.
unfoldable pub print_exception : System → Registers → Outcome System
print_exception s regs = chain (say s (ascii "=== CPU EXCEPTION ===\n") []) λ s1.
    chain
      (say s1 (ascii "Exception: %s\n")
        (text (some (get_or exception_messages regs.int_no [])) ∷ []))
      λ s2. chain (say s2 (ascii "Error Code: %lx\n") (word regs.err_code ∷ [])) λ s3.
        chain (say s3 (ascii "RIP: %lx\n") (word regs.rip ∷ []))
          λ s4. say s4 (ascii "=====================\n") []

-- How an interrupt ends: a system call's answer, a return, or the endless halt of an exception.
pub data Ending : Type 0 where
  call_made : Answer → Ending
  returned : System → Ending
  halted : System → Ending

-- What follows the acknowledgement.
unfoldable pub run_handler : Handlers → System → Registers → Outcome Ending
run_handler table s regs = elim (table regs.int_no) [
  | some handler ↦ done (returned (handler s regs))
  | none ↦
      if ltb regs.int_no 32
      then chain (print_exception s regs) (λ s'. done (halted s'))
      else done (returned s)
]

-- `isr_handler`: the port writes, and the end.
unfoldable pub isr_handler :
    Calls → Handlers → System → ℕ → Registers → List (ℕ × ℕ) × Outcome Ending
isr_handler calls table s frame regs =
    if regs.int_no == 128
    then ([], chain (syscall_handler calls s frame regs) (λ a. done (call_made a)))
    else (end_of_interrupt regs.int_no, run_handler table s regs)
