-- ===== src/Vfs/Normal.antt =====
-- `vfs_normalize` of kernel/vfs.c gives a normal path, and keeps one.
use mathlib.Core.Option.{some-injective}
use siathos.Prelude.{
  ℕ, zero, suc, ◌<◌, ◌≤◌, ◌≡◌, ◌≢◌, inl, inr, sym, ap, subst, ◌∙◌, Option, none, some, List, [],
  ◌∷◌, All, arith, ◌==◌, if◌then◌else◌, Bool-cases, Option-cases, length, take, length-take, Text,
  same, same_refl,
}
use siathos.Fs.{slash, root}
use siathos.Vfs.{
  cons_piece, pieces, dot, dots, piece_max, go_up, append_piece, enter_comp, enter, walk, whole,
  or_root, normalize,
}
use siathos.Vfs.Path.{NoSlash, IsNormal, root-IsNormal, go_up-IsNormal, append_piece-IsNormal}

take-NoSlash : (n : ℕ) (cs : Text) → NoSlash cs → NoSlash (take n cs)
take-NoSlash zero cs h = tt
take-NoSlash (suc n) [] h = tt
take-NoSlash (suc n) (c ∷ cs) (x, h) = (x, take-NoSlash n cs h)

enter_comp-IsNormal :
    (room : ℕ) (out comp o : Text)
    → IsNormal room out
    → NoSlash comp
    → 0 < length comp
    → length comp ≤ piece_max
    → enter_comp room out comp ≡ some o
    → IsNormal room o
enter_comp-IsNormal room out comp o n plain pos short e = elim (Bool-cases (same comp dot)) [
  | inl d ↦
      subst (IsNormal room)
        (some-injective _ _ (sym (ap (λ b. if b then some out else further) d) ∙ e)) n
  | inr d ↦ elim (Bool-cases (same comp dots)) [
    | inl dd ↦
        subst (IsNormal room)
          (some-injective _ _ (
            sym (
              ap (λ b. if b then some out else further) d
              ∙ ap (λ b. if b then some (go_up out) else append_piece room out comp) dd)
            ∙ e))
          (go_up-IsNormal room out n)
    | inr dd ↦
        append_piece-IsNormal room out comp o n
          (record {
            plain = plain;
            some_bytes = pos;
            short = short;
            not_dot = λ h. ground (arith, d, ap (same comp) (sym h), same_refl comp);
            not_dots = λ h. ground (arith, dd, ap (same comp) (sym h), same_refl comp);
          })
          (sym (
              ap (λ b. if b then some out else further) d
              ∙ ap (λ b. if b then some (go_up out) else append_piece room out comp) dd)
            ∙ e)
  ]
]
  where
    further : Option Text
    further = if same comp dots then some (go_up out) else append_piece room out comp

enter-IsNormal :
    (room : ℕ) (out p o : Text)
    → IsNormal room out
    → NoSlash p
    → enter room out p ≡ some o
    → IsNormal room o
enter-IsNormal room out [] o n plain e = subst (IsNormal room) (some-injective _ _ e) n
enter-IsNormal room out (c ∷ cs) o n plain e =
    enter_comp-IsNormal room out (take piece_max (c ∷ cs)) o n
      (take-NoSlash piece_max (c ∷ cs) plain) (omega (arith, length-take piece_max (c ∷ cs)))
      (omega (arith, length-take piece_max (c ∷ cs))) e

walk-IsNormal :
    (room : ℕ) (ps : List Text) (out o : Text)
    → IsNormal room out
    → All NoSlash ps
    → walk room ps out ≡ some o
    → IsNormal room o
unfolding walk
walk-IsNormal room [] out o n plain e = subst (IsNormal room) (some-injective _ _ e) n
walk-IsNormal room (p ∷ ps) out o n (x, plain) e = elim (Option-cases (enter room out p)) [
  | inl bad ↦ absurd (
      ground (
        arith,
        sym (
              ap
                (λ r. elim r as (λ (_ : Option Text). Option Text) [
                  | none ↦ none
                  | some q ↦ walk room ps q
                ])
                bad)
            ∙ e,
      ))
  | inr (q, h) ↦ walk-IsNormal room ps q o (enter-IsNormal room out p q n x h) plain (
      sym (
        ap
          (λ r. elim r as (λ (_ : Option Text). Option Text) [
            | none ↦ none
            | some q ↦ walk room ps q
          ])
          h)
      ∙ e)
]

cons_piece-NoSlash :
    (c : ℕ) (ps : List Text) → c ≢ slash → All NoSlash ps → All NoSlash (cons_piece c ps)
cons_piece-NoSlash c [] h hs = ((h, tt), tt)
cons_piece-NoSlash c (p ∷ ps) h (x, hs) = ((h, x), hs)

pieces-NoSlash : (cs : Text) → All NoSlash (pieces cs)
unfolding pieces
pieces-NoSlash [] = (tt, tt)
pieces-NoSlash (c ∷ cs) = elim (Bool-cases (c == slash)) [
  | inl e ↦ rw e (tt, pieces-NoSlash cs)
  | inr e ↦ rw e (cons_piece-NoSlash c (pieces cs) (ground (arith, e)) (pieces-NoSlash cs))
]

or_root-IsNormal : (room : ℕ) (o : Text) → 1 < room → IsNormal room o → IsNormal room (or_root o)
or_root-IsNormal room [] h n = root-IsNormal room h
or_root-IsNormal room (c ∷ cs) h n = n

-- For a path that is not empty and a buffer of two bytes or more, `vfs_normalize` fails or gives a
-- path that is `/`, or names of 1 to 31 bytes behind slashes, none of them `.` or `..`, and that
-- fits the buffer with its terminator, whatever the working directory is.
pub normalize-IsNormal :
    (cwd : Text) (c : ℕ) (cs : Text) (room : ℕ) (out : Text)
    → 1 < room
    → normalize cwd (c ∷ cs) room ≡ some out
    → IsNormal room out
unfolding normalize
normalize-IsNormal cwd c cs room out h e =
    elim (Option-cases (walk room (pieces (whole cwd (c ∷ cs))) root)) [
      | inl bad ↦ absurd (ground (arith, sym (ap finish bad) ∙ e))
      | inr (o, w) ↦ subst (IsNormal room) (some-injective _ _ (sym (ap finish w) ∙ e)) (
          or_root-IsNormal room o h (
            walk-IsNormal room (pieces (whole cwd (c ∷ cs))) root o (root-IsNormal room h)
              (pieces-NoSlash (whole cwd (c ∷ cs))) w))
    ]
  where
    finish : Option Text → Option Text
    finish r = elim r [ none ↦ none | some o ↦ some (or_root o) ]
