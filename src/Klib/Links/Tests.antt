-- ===== src/Klib/Links/Tests.antt =====
-- Concrete rings of kernel/src/lib/list.h.
use sudo_os.Prelude.{◌≡◌, refl, arith, [], ◌∷◌, inl}
use sudo_os.Klib.Links.{Links, list_init}
use sudo_os.Klib.Links.Ring.{Ring, add_after, add_before, del, run, run_view}
use sudo_os.Klib.Links.Runs.{run-Ring, list_init-Ring}

abbrev unset : Links
unset = record { next = λ p. 0; prev = λ p. 0 }

-- 10 and 20 are queued behind the head 1, 10 is taken out, and 10 is queued again.
requeued : run_view [] (add_before 10 ∷ add_before 20 ∷ del 10 ∷ add_before 10 ∷ []) ≡ 20 ∷ 10 ∷ []
unfolding run_view sudo_os.Klib.Links.Ring.erase
requeued = refl

run-Ring_example :
    Ring
      (run (list_init unset 1) 1 (add_before 10 ∷ add_before 20 ∷ del 10 ∷ add_before 10 ∷ []))
      1
      (run_view [] (add_before 10 ∷ add_before 20 ∷ del 10 ∷ add_before 10 ∷ []))
unfolding sudo_os.Klib.Links.Ring.erase
run-Ring_example =
    run-Ring (add_before 10 ∷ add_before 20 ∷ del 10 ∷ add_before 10 ∷ []) (list_init unset 1) 1 []
      (list_init-Ring unset 1) (omega arith, (omega arith, (inl refl, (omega arith, tt))))
