-- ===== src/Stdin/Ring.antt =====
-- The ring as a queue.
use freak_os.Base.{
  ℕ, zero, suc, ◌+◌, ◌-◌, ◌≤◌, ◌<◌, ◌%◌, ◌^◌, ◌≡◌, ◌∙◌, ap, sym, inl, inr, refl, true, false, List,
  [], ◌∷◌, ◌++◌, arith, ltb, ◌==◌, if◌then◌else◌, update, Bool-cases, min,
}
use freak_os.Base.Word.{add32}
use mathlib.Core.Path.{subst}
use freak_os.Stdin.{Stdin, stdin_buf_len, store, read_ready, count}

-- The characters that `n` rounds from the position on would read.
abbrev pub pending : (ℕ → ℕ) → ℕ → ℕ → List ℕ
pending buffer r zero = []
pending buffer r (suc n) = buffer (r % stdin_buf_len) ∷ pending buffer (r + 1) n

-- What was written and not read.
abbrev pub unread : Stdin → List ℕ
unread d = pending d.buffer d.rpos (d.wpos - d.rpos)

-- The reader is behind the writer by no more than the ring holds.
pub record IsRing (d : Stdin) : Type 0 where
  pub behind : d.rpos ≤ d.wpos
  pub fits : d.wpos ≤ d.rpos + stdin_buf_len

pending-away :
    (buffer : ℕ → ℕ) (w c r n : ℕ)
    → r + n ≤ w
    → w < r + stdin_buf_len
    → pending (update buffer (w % stdin_buf_len) c) r n ≡ pending buffer r n
pending-away buffer w c r zero lo hi = refl
pending-away buffer w c r (suc n) lo hi =
    let far : (r % stdin_buf_len == w % stdin_buf_len) ≡ false = ground arith in
    rw far (
      ap (λ xs. buffer (r % stdin_buf_len) ∷ xs)
        (pending-away buffer w c (r + 1) n (omega arith) (omega arith)))

pending-next :
    (buffer : ℕ → ℕ) (r n : ℕ)
    → pending buffer r (suc n) ≡ pending buffer r n ++ buffer ((r + n) % stdin_buf_len) ∷ []
pending-next buffer r zero = let e : r + 0 ≡ r = omega arith in rw e refl
pending-next buffer r (suc n) =
    let e : r + suc n ≡ r + 1 + n = omega arith in
    rw e (ap (λ xs. buffer (r % stdin_buf_len) ∷ xs) (pending-next buffer (r + 1) n))

count-pending : (buffer : ℕ → ℕ) (r n : ℕ) → count (pending buffer r n) ≡ n
count-pending buffer r zero = refl
count-pending buffer r (suc n) = omega (arith, count-pending buffer (r + 1) n)

abbrev pub replace_first : ℕ → List ℕ → List ℕ
replace_first c [] = []
replace_first c (x ∷ xs) = c ∷ xs

-- The queue after a character is offered to it.
abbrev pub push : ℕ → List ℕ → List ℕ
push c xs = if ltb (count xs) stdin_buf_len then xs ++ c ∷ [] else replace_first c xs

store_room :
    (c r n : ℕ) (buffer : ℕ → ℕ)
    → n < stdin_buf_len
    → pending (update buffer ((r + n) % stdin_buf_len) c) r (suc n) ≡ pending buffer r n ++ c ∷ []
store_room c r n buffer lt =
    let g : ℕ → ℕ = update buffer ((r + n) % stdin_buf_len) c in
    let same : ((r + n) % stdin_buf_len == (r + n) % stdin_buf_len) ≡ true = ground arith in
    let last : g ((r + n) % stdin_buf_len) ≡ c = rw same refl in
    pending-next g r n
    ∙ rw (last, pending-away buffer (r + n) c r n (omega arith) (omega arith)) refl

store_full :
    (c r n : ℕ) (buffer : ℕ → ℕ)
    → suc n ≡ stdin_buf_len
    → pending (update buffer ((r + suc n) % stdin_buf_len) c) r (suc n)
      ≡ replace_first c (pending buffer r (suc n))
store_full c r n buffer full =
    let same : (r % stdin_buf_len == (r + suc n) % stdin_buf_len) ≡ true = ground arith in
    let wraps : (r + suc n) % stdin_buf_len ≡ (r + 0) % stdin_buf_len = omega arith in
    rw same
      (ap (λ xs. c ∷ xs) (pending-away buffer (r + suc n) c (r + 1) n (omega arith) (omega arith)))

-- With room in the ring a character joins the end of the queue of unread ones. In a full ring it takes the
-- place of the oldest, in front of all the others. The reader stays behind the writer by no more than the
-- ring holds. The positions are below their overflow.
pub store-push :
    (c : ℕ) (d : Stdin)
    → IsRing d
    → d.wpos + 1 < 2 ^ 31
    → IsRing (store c d) × (unread (store c d) ≡ push c (unread d))
unfolding store
store-push c d v small =
    let n = d.wpos - d.rpos in
    let size = count-pending d.buffer d.rpos n in
    let there : d.rpos + n ≡ d.wpos = omega arith in
    elim (Bool-cases (ltb n stdin_buf_len)) [
      | inl room ↦
          let grown : add32 d.wpos 1 - d.rpos ≡ suc n = ground arith in
          let stored =
            subst
              (λ w.
                pending (update d.buffer (w % stdin_buf_len) c) d.rpos (suc n)
                ≡ pending d.buffer d.rpos n ++ c ∷ [])
              there (store_room c d.rpos n d.buffer (ground arith)) in
          rw room
            (record { behind = ground arith; fits = ground arith }, rw (size, room, grown) stored)
      | inr full ↦
          let whole : suc 2047 ≡ n = ground arith in
          let stored =
            subst
              (λ w.
                pending (update d.buffer (w % stdin_buf_len) c) d.rpos n
                ≡ replace_first c (pending d.buffer d.rpos n))
              there
              (subst
                (λ m.
                  pending (update d.buffer ((d.rpos + m) % stdin_buf_len) c) d.rpos m
                  ≡ replace_first c (pending d.buffer d.rpos m))
                whole (store_full c d.rpos 2047 d.buffer refl)) in
          rw full (record { behind = v.behind; fits = v.fits }, rw (size, full) stored)
    ]

-- A read of `len` characters stores those at the front of the queue, in order, as many as there are up to
-- `len`, and leaves the others.
pub read_ready-front :
    (len : ℕ) (d : Stdin)
    → IsRing d
    → d.wpos < 2 ^ 31
    → let (cs, e) = read_ready len d in
      IsRing e × (cs ++ unread e ≡ unread d) × (count cs ≡ min len (count (unread d)))
unfolding read_ready
read_ready-front zero d v small = (v, refl, omega arith)
read_ready-front (suc len) d v small = elim (Bool-cases (ltb d.rpos d.wpos)) [
  | inl some_left ↦
      let d' : Stdin = record d { rpos = add32 d.rpos 1 } in
      let v' : IsRing d' = record { behind = ground arith; fits = ground arith } in
      let (is, queue, len') = read_ready-front len d' v' small in
      let next : add32 d.rpos 1 ≡ d.rpos + 1 = ground arith in
      let less : d.wpos - d.rpos ≡ suc (d.wpos - (d.rpos + 1)) = ground arith in
      let first : unread d ≡ d.buffer (d.rpos % stdin_buf_len) ∷ unread d' = rw (next, less) refl in
      rw some_left (
        is,
        ap (λ xs. d.buffer (d.rpos % stdin_buf_len) ∷ xs) queue ∙ sym first,
        omega (arith, len', ap count first),
      )
  | inr none_left ↦
      let size = count-pending d.buffer d.rpos (d.wpos - d.rpos) in
      rw none_left (v, refl, ground (arith, size))
]
