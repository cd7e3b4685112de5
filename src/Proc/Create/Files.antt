-- ===== src/Proc/Create/Files.antt =====
-- The descriptors over `sys_fork` of kernel/src/proc/proc.c.
use mathlib.Core.Option.{some-injective}
use sudo_os.Prelude.{
  ℕ, zero, suc, ◌+◌, ◌^◌, ◌<◌, ◌≡◌, ◌∙◌, ◌==◌, refl, sym, subst, ap, arith, Option, none, some,
  Bool-cases, inl, inr, get_or, replicate, length,
}
use sudo_os.Prelude.Int.{ℤ}
use sudo_os.Arch.Syscall.Owned.{Owned-fewer}
use sudo_os.Arch.Syscall.Fds.{Exclusive}
use sudo_os.Fs.Ramfs.Fds.{ref_of}
use sudo_os.Proc.Create.{World, max_fd, sys_fork}
use sudo_os.Proc.Create.Forked.{Forked, FreshPcb, sys_fork-Forked}

pub get_or-replicate : (n i : ℕ) → ◌≡◌ {A = Option ℕ} (get_or (replicate n none) i none) none
get_or-replicate zero i = refl
get_or-replicate (suc n) zero = refl
get_or-replicate (suc n) (suc i) = get_or-replicate n i

Forked-Exclusive :
    (child : ℕ) (w : World) (r : ℤ × World)
    → Forked child w r
    → Exclusive w.system
    → Exclusive r.1.system
Forked-Exclusive child w r f o =
    Owned-fewer w.system.handles r.1.system.handles w.system.fd_table r.1.system.fd_table o
      (ap length f.spared.handles)
      λ p fd i h. (
        elim (Bool-cases (p == child)) [
          | inl e ↦
              let at : p ≡ child = ground arith in
              let none_here : get_or (r.1.system.fd_table p) fd none ≡ none =
                rw (at, f.table) (get_or-replicate max_fd fd) in
              absurd (cc (sym h ∙ none_here))
          | inr e ↦
              subst (λ t. get_or t fd none ≡ some i) (f.spared.fds p (λ q. absurd (ground arith))) h
        ],
        ap (λ hs. ref_of hs i) f.spared.handles,
      )

-- Where `kmalloc` does not hand out the PCB of the current process and the address of the next kernel stack does
-- not wrap, a call of `sys_fork` that returns keeps the following, whatever its result: every open file that
-- a descriptor of any process names is in the table of open files and has a count other than 0, and no two
-- descriptors, of one process or of two, the child's included, name the same open file.
pub sys_fork-Exclusive :
    (w : World) (entry : ℕ) (r : ℤ × World)
    → FreshPcb w
    → w.kstack_ptr + 0x5000 < 2 ^ 64
    → Exclusive w.system
    → sys_fork w entry ≡ some r
    → Exclusive r.1.system
sys_fork-Exclusive w entry r fresh room o e = elim (sys_fork-Forked w entry fresh room) [
  | inl (f, _) ↦ absurd (cc (sym f ∙ e))
  | inr (r', child, e', f) ↦
      let same : r' ≡ r = some-injective r' r (sym e' ∙ e) in
      subst (λ x. Exclusive x.1.system) same (Forked-Exclusive child w r' f o)
]
