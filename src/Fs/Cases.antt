-- ===== src/Fs/Cases.antt =====
-- The branches of `fs_write` and `fs_remove` of kernel/fs.c.
use siathos.Prelude.{
  ℕ, zero, suc, ◌-◌, ◌*◌, ◌^◌, ◌<◌, ◌≤◌, ◌≡◌, ◌≢◌, ◌⊎◌, inl, inr, refl, sym, ap, subst, ◌∙◌, Bool,
  true, false, not, ◌&&◌, some, List, arith, ltb, ◌==◌, if◌then◌else◌, Bool-cases, Option-cases,
  modify, Text, same, same_refl,
}
use native.Mathlib.Nat.{pow-suc}
use siathos.Fs.{Node, Fs, max_data, is_dir_kind, root, fs_get, fs_has_children}
use siathos.Fs.Ops.{grow, new_capacity, filled, write_at, fs_write, removed, remove_at, fs_remove}

-- Doubling `n` times from a positive start passes every size up to `2 ^ n`.
le-grow : (size cap n : ℕ) → 0 < cap → size ≤ cap * 2 ^ n → size ≤ grow size cap n
unfolding grow
le-grow size cap zero pos h = omega arith
le-grow size cap (suc n) pos h = elim (Bool-cases (ltb cap size)) [
  | inl low ↦ rw low (
      le-grow size (cap * 2) n (omega arith) (omega (arith, ap (λ (t : ℕ). cap * t) (pow-suc 2 n))))
  | inr high ↦ rw high (ground (arith, high))
]

pub le-new_capacity : (size cap : ℕ) → size ≤ max_data → size ≤ new_capacity size cap
le-new_capacity size cap h =
    le-grow size start 22 (ground arith) (omega (arith, pos, ap (λ (t : ℕ). start * t) big))
  where
    start : ℕ
    start = if cap == 0 then 256 else cap * 2

    pos : 0 < start
    pos = ground arith

    big : 2 ^ 22 ≡ max_data
    big = refl

-- A write that succeeds.
pub record Wrote (path : Text) (bytes : List ℕ) (size : ℕ) (s u : Fs) : Type 0 where
  pub slot : ℕ
  pub old : Node
  pub found : fs_get path s ≡ some (slot, old)
  pub plain : is_dir_kind old.kind ≡ false
  pub room : ℕ
  pub fits : size ≤ room
  pub small : size ≤ max_data
  pub nodes : u.nodes ≡ modify s.nodes slot (filled bytes size room)

pub fs_write-cases :
    (path : Text) (bytes : List ℕ) (size : ℕ) (has_memory : Bool) (s : Fs)
    → (fs_write path bytes size has_memory s ≡ (false, s))
      ⊎ (((fs_write path bytes size has_memory s).0 ≡ true)
          × Wrote path bytes size s (fs_write path bytes size has_memory s).1)
unfolding fs_write
fs_write-cases path bytes size has_memory s = elim (Bool-cases (ltb max_data size)) [
  | inl big ↦ inl (ap (λ b. if b then (false, s) else there) big)
  | inr small ↦ elim (Option-cases (fs_get path s)) [
    | inl gone ↦ inl (
        ap (λ b. if b then (false, s) else there) small
        ∙ ap (λ o. write_at o bytes size has_memory s) gone)
    | inr ((i, n), e) ↦
        let at : fs_write path bytes size has_memory s
            ≡ write_at (some (i, n)) bytes size has_memory s =
          ap (λ b. if b then (false, s) else there) small
          ∙ ap (λ o. write_at o bytes size has_memory s) e in
        elim (write_at-cases i n e (ground (arith, small))) [
          | inl bad ↦ inl (at ∙ bad)
          | inr (ok, w) ↦
              inr
                (ap (λ r. r.0) at ∙ ok, subst (Wrote path bytes size s) (sym (ap (λ r. r.1) at)) w)
        ]
  ]
]
  where
    there : Bool × Fs
    there = write_at (fs_get path s) bytes size has_memory s

    cap : Node → ℕ
    cap n = if ltb n.capacity size then new_capacity size n.capacity else n.capacity

    wrote : ℕ → Node → Bool × Fs
    wrote i n = (true, record s { nodes = modify s.nodes i (filled bytes size (cap n)) })

    body : ℕ → Node → Bool × Fs
    body i n = if ltb n.capacity size && not has_memory then (false, s) else wrote i n

    cap-fits : (n : Node) → size ≤ max_data → size ≤ cap n
    cap-fits n small = elim (Bool-cases (ltb n.capacity size)) [
      | inl more ↦ rw more (le-new_capacity size n.capacity small)
      | inr same_cap ↦ rw same_cap (ground (arith, same_cap))
    ]

    write_at-cases :
        (i : ℕ) (n : Node)
        → fs_get path s ≡ some (i, n)
        → size ≤ max_data
        → (write_at (some (i, n)) bytes size has_memory s ≡ (false, s))
          ⊎ (((write_at (some (i, n)) bytes size has_memory s).0 ≡ true)
              × Wrote path bytes size s (write_at (some (i, n)) bytes size has_memory s).1)
    write_at-cases i n e small = elim (Bool-cases (is_dir_kind n.kind)) [
      | inl d ↦ inl (ap (λ b. if b then (false, s) else body i n) d)
      | inr plain ↦ elim (Bool-cases (ltb n.capacity size && not has_memory)) [
        | inl short ↦ inl (
            ap (λ b. if b then (false, s) else body i n) plain
            ∙ ap (λ b. if b then (false, s) else wrote i n) short)
        | inr enough ↦
            let done : write_at (some (i, n)) bytes size has_memory s ≡ wrote i n =
              ap (λ b. if b then (false, s) else body i n) plain
              ∙ ap (λ b. if b then (false, s) else wrote i n) enough in
            inr (
              ap (λ r. r.0) done,
              subst (Wrote path bytes size s) (sym (ap (λ r. r.1) done)) (record {
                slot = i;
                old = n;
                found = e;
                plain = plain;
                room = cap n;
                fits = cap-fits n small;
                small = small;
                nodes = refl;
              }),
            )
      ]
    ]

-- A removal that succeeds.
pub record Gone (path : Text) (s u : Fs) : Type 0 where
  pub slot : ℕ
  pub old : Node
  pub found : fs_get path s ≡ some (slot, old)
  pub not_root : path ≢ root
  pub empty : (is_dir_kind old.kind && fs_has_children path s) ≡ false
  pub nodes : u.nodes ≡ modify s.nodes slot removed

pub fs_remove-cases :
    (path : Text) (s : Fs)
    → (fs_remove path s ≡ (false, s))
      ⊎ (((fs_remove path s).0 ≡ true) × Gone path s (fs_remove path s).1)
unfolding fs_remove
fs_remove-cases path s = elim (Bool-cases (same path root)) [
  | inl r ↦ inl (ap (λ b. if b then (false, s) else there) r)
  | inr fine ↦ elim (Option-cases (fs_get path s)) [
    | inl gone ↦
        inl (ap (λ b. if b then (false, s) else there) fine ∙ ap (λ o. remove_at o path s) gone)
    | inr ((i, n), e) ↦
        let at : fs_remove path s ≡ remove_at (some (i, n)) path s =
          ap (λ b. if b then (false, s) else there) fine ∙ ap (λ o. remove_at o path s) e in
        elim (Bool-cases (is_dir_kind n.kind && fs_has_children path s)) [
          | inl full ↦ inl (at ∙ ap (λ b. if b then (false, s) else without i) full)
          | inr clear ↦
              let done = at ∙ ap (λ b. if b then (false, s) else without i) clear in
              inr (
                ap (λ r. r.0) done,
                subst (Gone path s) (sym (ap (λ r. r.1) done)) (record {
                  slot = i;
                  old = n;
                  found = e;
                  not_root = λ r.
                      ground
                        (arith, fine, ap (same path) r, ap (λ q. same q path) r, same_refl path);
                  empty = clear;
                  nodes = refl;
                }),
              )
        ]
  ]
]
  where
    there : Bool × Fs
    there = remove_at (fs_get path s) path s

    without : ℕ → Bool × Fs
    without i = (true, record { nodes = modify s.nodes i removed; count = s.count - 1 })
