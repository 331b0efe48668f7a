-- ===== src/Fs/Move.antt =====
-- What a move of kernel/fs.c does to every path.
use siathos.Prelude.{
  ℕ, ◌<◌, ◌≡◌, ◌≢◌, inl, inr, refl, sym, ap, subst, ◌∙◌, Bool, true, false, ◌||◌, Option, none,
  some, arith, if◌then◌else◌, Bool-cases, Option-cases, length, take, get_elem?,
  get_elem?-modify-some, ℕ_discrete, Text,
}
use mathlib.Core.Option.{some-injective}
use siathos.Fs.{file, Node, Fs, name_max, is_dir_kind, fs_get, fs_create, new_node, is_some}
use siathos.Fs.Ops.{filled, removed, copy_made, copy_at, fs_copy, move_made, fs_move}
use siathos.Fs.Lookup.{fs_get-some, Made, fs_create-cases}
use siathos.Fs.Cases.{Wrote, fs_write-cases, Gone, fs_remove-cases}
use siathos.Fs.Finds.{Made-others, Made-found, Wrote-others, Wrote-found, Gone-others}
use siathos.Fs.Tree.{IsTree}
use siathos.Fs.Keeps.{Made-IsTree, Wrote-IsTree}

-- A removed path is not found again.
pub Gone-missing : (path : Text) (s u : Fs) → Gone path s u → IsTree s → fs_get path u ≡ none
Gone-missing path s u r t = elim (Option-cases (fs_get path u)) [
  | inl e ↦ e
  | inr ((j, b), e) ↦ absurd (still j b (fs_get-some path u j b e))
]
  where
    still :
        (j : ℕ) (b : Node) → (get_elem? u.nodes j ≡ some b) × (b.used ≡ true) × (b.path ≡ path) → ⊥
    still j b (g, used, p) =
        let (at, was_used, was) = fs_get-some path s r.slot r.old r.found in
        let (a, h, e) =
          get_elem?-modify-some s.nodes r.slot j removed b
            (sym (ap (λ l. get_elem? l j) r.nodes) ∙ g) in
        elim (ℕ_discrete r.slot j) [
          | yes x ↦ ground (arith, used, e)
          | no x ↦
              let kept : b ≡ a = ground (arith, e) in
              x (t.unique r.slot j r.old b at (h ∙ ap some (sym kept)) was_used used (was ∙ sym p))
        ]

-- A copy that succeeds, by its two steps.
pub record Copied (src dst : Text) (owner : ℕ) (s u : Fs) : Type 0 where
  pub slot : ℕ
  pub node : Node
  pub found : fs_get src s ≡ some (slot, node)
  pub plain : is_dir_kind node.kind ≡ false
  pub middle : Fs
  pub made : Made dst file owner s middle
  pub wrote : Wrote dst node.bytes node.size middle u

copy_made-Wrote :
    (r : Bool × Fs) (dst : Text) (n : Node) (has_memory : Bool)
    → (copy_made r dst n has_memory).0 ≡ true
    → (r.0 ≡ true) × Wrote dst n.bytes n.size r.1 (copy_made r dst n has_memory).1
copy_made-Wrote (false, s) dst n has_memory ok = absurd (ground arith)
copy_made-Wrote (true, s) dst n has_memory ok =
    elim (fs_write-cases dst n.bytes n.size has_memory s) [
      | inl bad ↦ absurd (ground (arith, sym ok ∙ ap (λ r. r.0) bad))
      | inr (_, w) ↦ (refl, w)
    ]

copy_at-Copied :
    (o : Option (ℕ × Node)) (src dst : Text) (owner : ℕ) (has_memory : Bool) (s : Fs)
    → fs_get src s ≡ o
    → (copy_at o dst owner has_memory s).0 ≡ true
    → Copied src dst owner s (copy_at o dst owner has_memory s).1
copy_at-Copied none src dst owner has_memory s at ok = absurd (ground arith)
copy_at-Copied (some (i, n)) src dst owner has_memory s at ok =
    elim (Bool-cases (is_dir_kind n.kind || is_some (fs_get dst s))) [
      | inl bad ↦ absurd (ground (arith, sym ok ∙ ap (λ b. (if b then (false, s) else body).0) bad))
      | inr fine ↦
          let on : copy_at (some (i, n)) dst owner has_memory s ≡ body =
            ap (λ b. if b then (false, s) else body) fine in
          let (created, w) =
            copy_made-Wrote (fs_create dst file owner s) dst n has_memory
              (sym (ap (λ r. r.0) on) ∙ ok) in
          elim (fs_create-cases dst file owner s) [
            | inl bad ↦ absurd (ground (arith, sym created ∙ ap (λ r. r.0) bad))
            | inr (_, m) ↦ subst (Copied src dst owner s) (sym (ap (λ r. r.1) on)) (record {
              slot = i;
              node = n;
              found = at;
              plain = ground (arith, fine);
              middle = (fs_create dst file owner s).1;
              made = m;
              wrote = w;
            })
          ]
    ]
  where
    body : Bool × Fs
    body = copy_made (fs_create dst file owner s) dst n has_memory

fs_copy-Copied :
    (src dst : Text) (owner : ℕ) (has_memory : Bool) (s : Fs)
    → (fs_copy src dst owner has_memory s).0 ≡ true
    → Copied src dst owner s (fs_copy src dst owner has_memory s).1
unfolding fs_copy
fs_copy-Copied src dst owner has_memory s ok =
    copy_at-Copied (fs_get src s) src dst owner has_memory s refl ok

move_made-Gone :
    (r : Bool × Fs) (src : Text)
    → (move_made r src).0 ≡ true
    → (r.0 ≡ true) × Gone src r.1 (move_made r src).1
move_made-Gone (false, s) src ok = absurd (ground arith)
move_made-Gone (true, s) src ok = elim (fs_remove-cases src s) [
  | inl bad ↦ absurd (ground (arith, sym ok ∙ ap (λ r. r.0) bad))
  | inr (_, g) ↦ (refl, g)
]

-- After `fs_move` succeeds on a tree of files, with a destination that fits a node, the destination
-- is a file with the bytes that the source held, the source is not found, and a search for any
-- other path finds the same node as before.
pub fs_move-moves :
    (src dst : Text) (owner : ℕ) (has_memory : Bool) (s : Fs)
    → length dst < name_max
    → IsTree s
    → (fs_move src dst owner has_memory s).0 ≡ true
    → let u = (fs_move src dst owner has_memory s).1 in
      (i : ℕ) × (n : Node) × (j : ℕ) × (m : Node) × (fs_get src s ≡ some (i, n))
      × (fs_get dst u ≡ some (j, m))
      × ((m.bytes ≡ take n.size n.bytes) × (m.size ≡ n.size) × (m.kind ≡ file))
      × (fs_get src u ≡ none)
      × ((other : Text) → other ≢ src → other ≢ dst → fs_get other u ≡ fs_get other s)
unfolding fs_move
fs_move-moves src dst owner has_memory s short t ok =
    let (copied_ok, g) = move_made-Gone (fs_copy src dst owner has_memory s) src ok in
    let c = fs_copy-Copied src dst owner has_memory s copied_ok in
    let m = c.made in
    let w = c.wrote in
    let s2 = (fs_copy src dst owner has_memory s).1 in
    let t2 =
      Wrote-IsTree dst c.node.bytes c.node.size c.middle s2 w
        (Made-IsTree dst file owner s c.middle short m t) in
    let apart : dst ≢ src = λ e. ground (arith, c.found, m.missing, ap (λ p. fs_get p s) e) in
    let new = Made-found dst file owner s c.middle short m in
    let old_new : w.old ≡ new_node dst file owner m.old =
      ap (λ (x : ℕ × Node). x.1) (some-injective _ _ (sym w.found ∙ new)) in
    (
      c.slot,
      c.node,
      w.slot,
      filled c.node.bytes c.node.size w.room w.old,
      c.found,
      Gone-others src s2 _ g dst apart ∙ Wrote-found dst c.node.bytes c.node.size c.middle s2 w,
      (refl, refl, ap (λ (n : Node). n.kind) old_new),
      Gone-missing src s2 _ g t2,
      λ other not_src not_dst.
          Gone-others src s2 _ g other not_src
          ∙ Wrote-others dst c.node.bytes c.node.size c.middle s2 w other not_dst
          ∙ Made-others dst file owner s c.middle short m other not_dst,
    )
