-- ===== src/Vfs/Path.antt =====
-- The paths that `vfs_normalize` of kernel/vfs.c gives.
use mathlib.Core.Option.{some-injective}
use siathos.Prelude.{
  ℕ, ◌+◌, ◌<◌, ◌≤◌, ◌≡◌, ◌≢◌, inl, inr, refl, sym, ap, ◌∙◌, true, false, Option, none, some, List,
  [], ◌∷◌, ◌++◌, All, arith, ltb, leb, if◌then◌else◌, Bool-cases, length, take, length-append, Text,
  same, same_ne,
}
use siathos.Fs.{slash, root, parent_of, before_slash}
use siathos.Vfs.{dot, dots, piece_max, cut, go_up, append_piece}

-- The pieces of a path, the last one first, behind slashes.
unfoldable pub joined : List Text → Text
joined [] = []
joined (c ∷ cs) = joined cs ++ (slash ∷ c)

unfoldable pub render : List Text → Text
unfolding joined
render [] = root
render (c ∷ cs) = joined (c ∷ cs)

abbrev pub NoSlash : Text → Type 0
NoSlash cs = All (λ (c : ℕ). c ≢ slash) cs

-- A piece of a normal path: a name of 1 to 31 bytes, neither `.` nor `..`.
pub record IsName (c : Text) : Type 0 where
  pub plain : NoSlash c
  pub some_bytes : 0 < length c
  pub short : length c ≤ piece_max
  pub not_dot : c ≢ dot
  pub not_dots : c ≢ dots

parent_of-none : (c : Text) → NoSlash c → parent_of c ≡ none
unfolding parent_of
parent_of-none [] h = refl
parent_of-none (x ∷ c) (nx, h) = ap (before_slash x) (parent_of-none c h) ∙ ground arith

pub parent_of_joined : (p c : Text) → NoSlash c → parent_of (p ++ (slash ∷ c)) ≡ some p
unfolding parent_of
parent_of_joined [] c h = ap (before_slash slash) (parent_of-none c h)
parent_of_joined (x ∷ p) c h = ap (before_slash x) (parent_of_joined p c h)

cut-some : (q out : Text) → 0 < length q → cut (some q) out ≡ q
cut-some [] out h = absurd (omega arith)
cut-some (c ∷ q) out h = refl

pub length-joined_pos : (c : Text) (cs : List Text) → 0 < length (joined (c ∷ cs))
unfolding joined
length-joined_pos c cs = omega (arith, length-append (joined cs) (slash ∷ c))

abbrev tail_of : List Text → List Text
tail_of [] = []
tail_of (c ∷ cs) = cs

-- `..` drops the last piece, and stops at the root.
go_up-render : (cs : List Text) → All IsName cs → go_up (render cs) ≡ render (tail_of cs)
unfolding go_up render parent_of joined
go_up-render [] h = refl
go_up-render (c ∷ []) (n, _) = ap (λ o. cut o (slash ∷ c)) (parent_of_joined [] c n.plain)
go_up-render (c ∷ (d ∷ cs)) (n, _) =
    ap (λ o. cut o (joined (d ∷ cs) ++ (slash ∷ c))) (parent_of_joined (joined (d ∷ cs)) c n.plain)
    ∙ cut-some (joined (d ∷ cs)) _ (length-joined_pos d cs)

pub IsName-not_dots : (c : Text) → IsName c → (same c dot ≡ false) × (same c dots ≡ false)
IsName-not_dots c n = (same_ne c dot n.not_dot, same_ne c dots n.not_dots)

length-joined_two : (c : Text) (cs : List Text) → IsName c → 1 < length (joined (c ∷ cs))
unfolding joined
length-joined_two c cs n = omega (arith, length-append (joined cs) (slash ∷ c), n.some_bytes)

-- A path that has one more piece, if there is room.
pub append_piece-render :
    (room : ℕ) (cs : List Text) (c : Text)
    → All IsName cs
    → append_piece room (render cs) c
      ≡ (if leb room (length (render (c ∷ cs))) then none else some (render (c ∷ cs)))
unfolding append_piece render joined
append_piece-render room [] c ns =
    let e : 1 + length c ≡ length (slash ∷ c) = omega arith in
    ap (λ (n : ℕ). if leb room n then none else some (slash ∷ c)) e
append_piece-render room (d ∷ cs) c (n, _) =
    let two : ltb 1 (length (joined (d ∷ cs))) ≡ true = ground (arith, length-joined_two d cs n) in
    let e : length (joined (d ∷ cs)) + 1 + length c ≡ length (joined (c ∷ (d ∷ cs))) =
      omega (arith, length-append (joined (d ∷ cs)) (slash ∷ c)) in
    ap (λ b. if b then longer else shorter) two
    ∙ ap (λ (k : ℕ). if leb room k then none else some (joined (c ∷ (d ∷ cs)))) e
  where
    longer : Option Text
    longer =
        if leb room (length (joined (d ∷ cs)) + 1 + length c)
        then none
        else some (joined (d ∷ cs) ++ (slash ∷ c))

    shorter : Option Text
    shorter = if leb room (1 + length c) then none else some (take 1 (joined (d ∷ cs)) ++ c)

-- A path of names that fits the buffer.
pub record IsNormal (room : ℕ) (out : Text) : Type 0 where
  pub names : List Text
  pub good : All IsName names
  pub spelled : out ≡ render names
  pub fits : length out < room

pub root-IsNormal : (room : ℕ) → 1 < room → IsNormal room root
unfolding render
root-IsNormal room h = record { names = []; good = tt; spelled = refl; fits = omega arith }

pub length-tail :
    (cs : List Text) → All IsName cs → length (render (tail_of cs)) ≤ length (render cs)
unfolding render joined
length-tail [] ns = omega arith
length-tail (c ∷ []) (n, _) = omega arith
length-tail (c ∷ (d ∷ cs)) ns = omega (arith, length-append (joined (d ∷ cs)) (slash ∷ c))

All-tail : (cs : List Text) → All IsName cs → All IsName (tail_of cs)
All-tail [] ns = tt
All-tail (c ∷ cs) (n, ns) = ns

pub go_up-IsNormal : (room : ℕ) (out : Text) → IsNormal room out → IsNormal room (go_up out)
go_up-IsNormal room out n =
    let e = ap go_up n.spelled ∙ go_up-render n.names n.good in
    record {
      names = tail_of n.names;
      good = All-tail n.names n.good;
      spelled = e;
      fits = omega (arith, n.fits, ap length e, ap length n.spelled, length-tail n.names n.good);
    }

pub append_piece-IsNormal :
    (room : ℕ) (out c o : Text)
    → IsNormal room out
    → IsName c
    → append_piece room out c ≡ some o
    → IsNormal room o
append_piece-IsNormal room out c o n name e =
    let there = render (c ∷ n.names) in
    let shown =
      sym (append_piece-render room n.names c n.good)
      ∙ sym (ap (λ t. append_piece room t c) n.spelled)
      ∙ e in
    elim (Bool-cases (leb room (length there))) [
      | inl long ↦
          absurd (ground (arith, sym (ap (λ b. if b then none else some there) long) ∙ shown))
      | inr fits ↦
          let at : there ≡ o =
            some-injective _ _ (sym (ap (λ b. if b then none else some there) fits) ∙ shown) in
          record {
            names = c ∷ n.names;
            good = (name, n.good);
            spelled = sym at;
            fits = omega (arith, ap length at, leb-lt fits);
          }
    ]
  where
    leb-lt : {k : ℕ} → leb room k ≡ false → k < room
    leb-lt h = ground (arith, h)
