-- ===== src/BlockCache/Slots.antt =====
-- The searches over the slots.
use freak_os.Base.{
  ℕ, zero, suc, ◌+◌, ◌≤◌, ◌<◌, ◌≡◌, inl, inr, Bool, true, false, none, some, ltb, arith,
  if◌then◌else◌, Bool-cases, dec_lt,
}
use freak_os.BlockCache.{Slot, find_slot, oldest}

module _ {A : Type 0} (test : Slot A → Bool) (slots : ℕ → Slot A) where
  pub find_slot-some :
      (rounds i j : ℕ)
      → find_slot test rounds i slots ≡ some j
      → (i ≤ j) × (j < i + rounds) × (test (slots j) ≡ true)
  unfolding find_slot
  find_slot-some zero i j e = cc
  find_slot-some (suc rounds) i j e = elim (Bool-cases (test (slots i))) [
    | inl here ↦ ground arith
    | inr past ↦ ground (arith, find_slot-some rounds (i + 1) j)
  ]

  pub find_slot-none :
      (rounds i j : ℕ)
      → find_slot test rounds i slots ≡ none
      → i ≤ j
      → j < i + rounds
      → test (slots j) ≡ false
  unfolding find_slot
  find_slot-none zero i j e lo hi = absurd (omega arith)
  find_slot-none (suc rounds) i j e lo hi = elim (Bool-cases (test (slots i))) [
    | inl here ↦ ground arith
    | inr past ↦ ground (arith, find_slot-none rounds (i + 1) j)
  ]

-- The victim is a slot, and none is older.
pub oldest_lt :
    {A : Type 0} (rounds i max : ℕ) (slots : ℕ → Slot A) (n : ℕ)
    → i + rounds ≤ n
    → max < n
    → oldest rounds i max slots < n
unfolding oldest
oldest_lt zero i max slots n h m = m
oldest_lt (suc rounds) i max slots n h m =
    oldest_lt rounds (i + 1) (if ltb (slots max).time (slots i).time then i else max) slots n
      (omega arith) (ground arith)

pub oldest_max :
    {A : Type 0} (rounds i max : ℕ) (slots : ℕ → Slot A)
    → let o = oldest rounds i max slots in
      ((slots max).time ≤ (slots o).time)
      × ((j : ℕ) → i ≤ j → j < i + rounds → (slots j).time ≤ (slots o).time)
unfolding oldest
oldest_max zero i max slots = (omega arith, λ j lo hi. absurd (omega arith))
oldest_max (suc rounds) i max slots =
    let next = if ltb (slots max).time (slots i).time then i else max in
    let (from, rest) = oldest_max rounds (i + 1) next slots in
    let better : ((slots max).time ≤ (slots next).time) × ((slots i).time ≤ (slots next).time) =
      ground arith in
    (
      omega arith,
      λ j lo hi. elim (dec_lt i j) [
        | yes p ↦ rest j (omega arith) (omega arith)
        | no p ↦ let e : j ≡ i = omega arith in rw e (omega arith)
      ],
    )
