-- ===== src/Process/Release.antt =====
-- How `do_exit` releases the memory of its task.
use freak_os.Base.{
  ℕ, ◌<◌, ◌^◌, ◌≡◌, ◌∙◌, ap, refl, true, false, List, [], some, arith, ◌==◌, leb, Bool-cases, inl,
  inr, update,
}
use freak_os.Base.Word.{sub32}
use freak_os.Pmm.Single.{IsReturned, free_pages-IsReturned}
use freak_os.Vmm.{Vma}
use freak_os.Paging.{Memory}
use freak_os.Paging.Space.{IsSpace}
use freak_os.AddressSpace.{exit_mmap}
use freak_os.AddressSpace.Teardown.{AreUser, IsTornDown, exit_mmap-IsTornDown}
use freak_os.Process.{Spaces, put_pgdir, mm_destroy, destroy_space, release_mm}

-- The areas are torn down, and then the frame of the directory is given back.
pub record IsDissolved (pgdir : ℕ) (vmas : List Vma) (m u : Memory) : Type 0 where
  pub stripped : Memory
  pub torn : IsTornDown pgdir vmas m stripped
  pub returned : IsReturned stripped.page_count pgdir stripped.frames u.frames

put_pgdir-IsReturned :
    (pgdir : ℕ) (m : Memory)
    → IsSpace pgdir m
    → (u : Memory) × (put_pgdir pgdir m ≡ some u) × IsReturned m.page_count pgdir m.frames u.frames
unfolding put_pgdir
put_pgdir-IsReturned pgdir m s =
    let h = s.held pgdir (inl refl) in
    let (a, e, r) =
      free_pages-IsReturned m.page_count pgdir m.frames s.area h.fits h.used h.clean in
    let known : leb pgdir m.page_count ≡ true = ground (arith, h.fits) in
    (record m { frames = a }, rw (known, e) refl, r)

destroy_space_run :
    (mm : ℕ) (s : Spaces) (m u : Memory)
    → exit_mmap (s.pgdir mm) (s.mm_count mm) (s.vma_list mm) s.memory ≡ some m
    → put_pgdir (s.pgdir mm) m ≡ some u
    → destroy_space mm s ≡ some (mm_destroy mm (record s { memory = u }))
unfolding destroy_space
destroy_space_run mm s m u e e' = rw (destroy_space, e, e') refl

mm_destroy_last :
    (mm : ℕ) (s : Spaces)
    → s.mm_count mm ≡ 0
    → mm_destroy mm s ≡ record s { vma_list = update s.vma_list mm [] }
unfolding mm_destroy
mm_destroy_last mm s alone = rw alone refl

destroy_space-IsDissolved :
    (mm : ℕ) (s : Spaces)
    → s.mm_count mm ≡ 0
    → IsSpace (s.pgdir mm) s.memory
    → AreUser (s.vma_list mm)
    → (t : Spaces) × (destroy_space mm s ≡ some t)
      × IsDissolved (s.pgdir mm) (s.vma_list mm) s.memory t.memory
      × (t.vma_list mm ≡ [])
destroy_space-IsDissolved mm s alone space user =
    let (m, e, torn) = exit_mmap-IsTornDown (s.pgdir mm) (s.vma_list mm) s.memory space user in
    let (u, e', returned) = put_pgdir-IsReturned (s.pgdir mm) m torn.space in
    let run = destroy_space_run mm s m u (rw alone e) e' in
    let last = mm_destroy_last mm (record s { memory = u }) alone in
    (
      record s { vma_list = update s.vma_list mm []; memory = u },
      run ∙ ap some last,
      record { stripped = m; torn = torn; returned = returned },
      ground arith,
    )

-- The map of a task that another task shares stays, with one sharer less; else it is dissolved.
pub record IsReleased (task : ℕ) (s t : Spaces) : Type 0 where
  pub gone : t.mm task ≡ 0
  pub shared :
      (s.mm task == 0) ≡ false
      → (s.mm_count (s.mm task) == 1) ≡ false
      → (t.memory ≡ s.memory) × (t.mm_count (s.mm task) ≡ sub32 (s.mm_count (s.mm task)) 1)
  pub dissolved :
      (s.mm task == 0) ≡ false
      → (s.mm_count (s.mm task) == 1) ≡ true
      → IsDissolved (s.pgdir (s.mm task)) (s.vma_list (s.mm task)) s.memory t.memory
        × (t.vma_list (s.mm task) ≡ [])

-- What a map that only this task has must be like.
abbrev pub IsOwner : ℕ → Spaces → Type 0
IsOwner task s =
    (s.mm task == 0) ≡ false
    → (s.mm_count (s.mm task) == 1) ≡ true
    → IsSpace (s.pgdir (s.mm task)) s.memory × AreUser (s.vma_list (s.mm task))

pub release_mm-IsReleased :
    (task : ℕ) (s : Spaces)
    → s.mm_count (s.mm task) < 2 ^ 32
    → IsOwner task s
    → (t : Spaces) × (release_mm task s ≡ some t) × IsReleased task s t
unfolding release_mm
release_mm-IsReleased task s bound owner = elim (Bool-cases (s.mm task == 0)) [
  | inl none_at_all ↦ (
    s,
    rw none_at_all refl,
    record {
      gone = ground arith;
      shared = λ some_mm. ground arith;
      dissolved = λ some_mm. ground arith;
    },
  )
  | inr some_mm ↦
      let mm = s.mm task in
      let t : Spaces = record s { mm_count = update s.mm_count mm (sub32 (s.mm_count mm) 1) } in
      elim (Bool-cases (s.mm_count mm == 1)) [
        | inl last ↦
            let (space, user) = owner some_mm last in
            let zero_left : t.mm_count mm ≡ 0 = ground arith in
            let test : (t.mm_count mm == 0) ≡ true = ground arith in
            let (u, e, d, empty) = destroy_space-IsDissolved mm t zero_left space user in
            (
              record u { mm = update u.mm task 0 },
              rw (some_mm, test, e) refl,
              record {
                gone = ground arith;
                shared = λ a b. ground arith;
                dissolved = λ a b. (d, empty);
              },
            )
        | inr more ↦
            let test : (t.mm_count mm == 0) ≡ false = ground arith in
            (
              record t { mm = update t.mm task 0 },
              rw (some_mm, test) refl,
              record {
                gone = ground arith;
                shared = λ a b. (refl, ground arith);
                dissolved = λ a b. ground arith;
              },
            )
      ]
]
