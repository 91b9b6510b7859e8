-- ===== src/Files/Table.antt =====
-- The table of open files: its invariant, and looking a descriptor up after a change.
use freak_os.Base.{
  ℕ, ◌<◌, ◌^◌, ◌≡◌, ap, inl, inr, refl, Bool, true, false, List, [], ◌∷◌, Option, none, some, arith,
  ◌==◌, has, Distinct, Bool-cases,
}
use mathlib.Core.Option as Opt
use freak_os.Files.{File, FileStruct, find_file, change_file, drop_file, has_fd}

abbrev pub keys : (File → ℕ) → List File → List ℕ
keys k [] = []
keys k (f ∷ fs) = k f ∷ keys k fs

abbrev pub fds : List File → List ℕ
fds fs = keys (λ f. f.fd) fs

abbrev pub inodes : List File → List ℕ
inodes fs = keys (λ f. f.inode) fs

-- Descriptors are below the next one, which has not reached the sign bit; no two files have the same
-- descriptor or the same inode.
pub record IsFiles (files : FileStruct) : Type 0 where
  pub below : (fd : ℕ) → has fd (fds files.file_list) ≡ true → fd < files.file_next_id
  pub small : files.file_next_id < 2 ^ 31
  pub distinct : Distinct (fds files.file_list)
  pub shared : Distinct (inodes files.file_list)

-- What a descriptor stands for.
abbrev pub lookup : ℕ → List File → Option File
lookup fd fs = find_file (has_fd fd) fs

pub lookup-none : (fd : ℕ) (fs : List File) → has fd (fds fs) ≡ false → lookup fd fs ≡ none
lookup-none fd [] h = refl
lookup-none fd (f ∷ fs) h = ground (arith, lookup-none fd fs)

pub lookup-fd : (fd : ℕ) (fs : List File) (f : File) → lookup fd fs ≡ some f → f.fd ≡ fd
lookup-fd fd [] f e = cc
lookup-fd fd (g ∷ fs) f e = elim (Bool-cases (has_fd fd g)) [
  | inl here ↦ ground arith
  | inr there ↦ ground (arith, lookup-fd fd fs f)
]

module _ (fd : ℕ) (g : File → File) (same : (f : File) → (g f).fd ≡ f.fd) where
  pub lookup-change :
      (fs : List File) (f : File)
      → lookup fd fs ≡ some f
      → lookup fd (change_file (has_fd fd) g fs) ≡ some (g f)
  lookup-change [] f e = cc
  lookup-change (x ∷ xs) f e = elim (Bool-cases (has_fd fd x)) [
    | inl here ↦
        let there : has_fd fd (g x) ≡ true = ground (arith, same x) in
        let found : some x ≡ some f = rw here at e in rw (here, there) (ap (Opt.map g) found)
    | inr past ↦ rw (past, past) (lookup-change xs f (rw past at e))
  ]

  pub lookup-other :
      (other : ℕ) (fs : List File)
      → (other == fd) ≡ false
      → lookup other (change_file (has_fd fd) g fs) ≡ lookup other fs
  lookup-other other [] n = refl
  lookup-other other (x ∷ xs) n = elim (Bool-cases (has_fd fd x)) [
    | inl here ↦
        let far : has_fd other x ≡ false = ground arith in
        let far' : has_fd other (g x) ≡ false = ground (arith, same x) in rw (here, far, far') refl
    | inr past ↦ rw past (elim (Bool-cases (has_fd other x)) [
      | inl e ↦ rw e refl
      | inr e ↦ rw e (lookup-other other xs n)
    ])
  ]

pub lookup-dropped :
    (fd : ℕ) (fs : List File) → Distinct (fds fs) → lookup fd (drop_file (has_fd fd) fs) ≡ none
lookup-dropped fd [] d = refl
lookup-dropped fd (x ∷ xs) d = elim (Bool-cases (has_fd fd x)) [
  | inl here ↦ rw here (lookup-none fd xs (ground arith))
  | inr there ↦ rw (there, there) (lookup-dropped fd xs d.1)
]

pub lookup-kept :
    (fd other : ℕ) (fs : List File)
    → (other == fd) ≡ false
    → lookup other (drop_file (has_fd fd) fs) ≡ lookup other fs
lookup-kept fd other [] n = refl
lookup-kept fd other (x ∷ xs) n = elim (Bool-cases (has_fd fd x)) [
  | inl here ↦ let far : has_fd other x ≡ false = ground arith in rw (here, far) refl
  | inr past ↦ rw past (elim (Bool-cases (has_fd other x)) [
    | inl e ↦ rw e refl
    | inr e ↦ rw e (lookup-kept fd other xs n)
  ])
]

-- What changes no descriptor and no inode keeps the invariant.
fds-change :
    (test : File → Bool) (g : File → File) (fs : List File)
    → ((f : File) → (g f).fd ≡ f.fd)
    → fds (change_file test g fs) ≡ fds fs
fds-change test g [] same = refl
fds-change test g (x ∷ xs) same = elim (Bool-cases (test x)) [
  | inl e ↦ rw (e, same x) refl
  | inr e ↦ rw (e, fds-change test g xs same) refl
]

inodes-change :
    (test : File → Bool) (g : File → File) (fs : List File)
    → ((f : File) → test f ≡ true → (g f).inode ≡ f.inode)
    → inodes (change_file test g fs) ≡ inodes fs
inodes-change test g [] same = refl
inodes-change test g (x ∷ xs) same = elim (Bool-cases (test x)) [
  | inl e ↦ rw (e, same x e) refl
  | inr e ↦ rw (e, inodes-change test g xs same) refl
]

pub IsFiles-change :
    (test : File → Bool) (g : File → File) (files : FileStruct)
    → IsFiles files
    → ((f : File) → (g f).fd ≡ f.fd)
    → ((f : File) → test f ≡ true → (g f).inode ≡ f.inode)
    → IsFiles (record files { file_list = change_file test g files.file_list })
IsFiles-change test g files v same same' =
    let a = fds-change test g files.file_list same in
    let b = inodes-change test g files.file_list same' in
    record {
      below = λ fd h. v.below fd (rw a at h);
      small = v.small;
      distinct = rw a v.distinct;
      shared = rw b v.shared;
    }

fds-drop :
    (test : File → Bool) (a : ℕ) (fs : List File)
    → has a (fds (drop_file test fs)) ≡ true
    → has a (fds fs) ≡ true
fds-drop test a [] h = h
fds-drop test a (x ∷ xs) h = ground (arith, fds-drop test a xs)

inodes-drop :
    (test : File → Bool) (a : ℕ) (fs : List File)
    → has a (inodes (drop_file test fs)) ≡ true
    → has a (inodes fs) ≡ true
inodes-drop test a [] h = h
inodes-drop test a (x ∷ xs) h = ground (arith, inodes-drop test a xs)

fds-drop-Distinct :
    (test : File → Bool) (fs : List File) → Distinct (fds fs) → Distinct (fds (drop_file test fs))
fds-drop-Distinct test [] d = d
fds-drop-Distinct test (x ∷ xs) d =
    ground (arith, fds-drop test x.fd xs, fds-drop-Distinct test xs d.1)

inodes-drop-Distinct :
    (test : File → Bool) (fs : List File)
    → Distinct (inodes fs)
    → Distinct (inodes (drop_file test fs))
inodes-drop-Distinct test [] d = d
inodes-drop-Distinct test (x ∷ xs) d =
    ground (arith, inodes-drop test x.inode xs, inodes-drop-Distinct test xs d.1)

pub IsFiles-drop :
    (test : File → Bool) (files : FileStruct)
    → IsFiles files
    → IsFiles (record files { file_list = drop_file test files.file_list })
IsFiles-drop test files v = record {
  below = λ fd h. v.below fd (fds-drop test fd files.file_list h);
  small = v.small;
  distinct = fds-drop-Distinct test files.file_list v.distinct;
  shared = inodes-drop-Distinct test files.file_list v.shared;
}
