-- ===== src/Paging/Range/Rounds.antt =====
-- One more round over a range of addresses, and the last one.
use freak_os.Base.{
  ℕ, suc, ◌<◌, ◌≡◌, inl, inr, refl, true, false, arith, ◌==◌, Bool-cases, ltb, Option, some,
}
use freak_os.Paging.{Memory}
use freak_os.Paging.Range.{rounds}

pub rounds_more :
    (step : ℕ → Memory → Option (ℕ × Memory)) (fuel start end next : ℕ) (m t u : Memory)
    → step start m ≡ some (next, t)
    → 0 < next
    → ltb next end ≡ true
    → rounds step fuel next end t ≡ some u
    → rounds step (suc fuel) start end m ≡ some u
unfolding rounds
rounds_more step fuel start end next m t u e pos more run =
    let on : (next == 0) ≡ false = ground arith in rw (rounds, e, on, more) run

pub rounds_last :
    (step : ℕ → Memory → Option (ℕ × Memory)) (fuel start end next : ℕ) (m t : Memory)
    → step start m ≡ some (next, t)
    → ltb next end ≡ false
    → rounds step (suc fuel) start end m ≡ some t
unfolding rounds
rounds_last step fuel start end next m t e last = elim (Bool-cases (next == 0)) [
  | inl h ↦ rw (rounds, e, last, h) refl
  | inr h ↦ rw (rounds, e, last, h) refl
]
