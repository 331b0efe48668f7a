-- ===== src/Vfs/Fixed.antt =====
-- A normal path stays as it is in `vfs_normalize` of kernel/vfs.c.
use mathlib.Core.Option.{some-injective}
use siathos.Prelude.{
  ℕ, ◌-◌, ◌*◌, ◌<◌, ◌≤◌, ◌≡◌, inl, inr, refl, sym, ap, ◌∙◌, false, Option, none, some, List, [],
  ◌∷◌, ◌++◌, All, arith, leb, ◌==◌, if◌then◌else◌, Bool-cases, Option-cases, length, Text, same,
}
use siathos.Fs.{slash, root, name_max}
use siathos.Fs.Lookup.{take_all}
use siathos.Vfs.{
  cons_piece, pieces, dots, piece_max, go_up, append_piece, enter_comp, enter, walk, or_root,
  normalize,
}
use siathos.Vfs.Normal.{normalize-IsNormal}
use siathos.Vfs.Path.{
  joined, render, NoSlash, IsName, append_piece-render, IsName-not_dots, length-tail,
}

pieces-plain : (c : Text) → NoSlash c → pieces c ≡ c ∷ []
unfolding pieces
pieces-plain [] h = refl
pieces-plain (x ∷ c) (nx, h) =
    let off : (x == slash) ≡ false = ground (arith, nx) in
    ap (λ b. if b then [] ∷ pieces c else cons_piece x (pieces c)) off
    ∙ ap (cons_piece x) (pieces-plain c h)

cons_piece_some :
    (c : ℕ) (ps : List Text) → (p : Text) × (qs : List Text) × (cons_piece c ps ≡ p ∷ qs)
cons_piece_some c [] = (c ∷ [], [], refl)
cons_piece_some c (p ∷ ps) = (c ∷ p, ps, refl)

pieces_some : (cs : Text) → (p : Text) × (ps : List Text) × (pieces cs ≡ p ∷ ps)
unfolding pieces
pieces_some [] = ([], [], refl)
pieces_some (c ∷ cs) = elim (Bool-cases (c == slash)) [
  | inl e ↦ ([], pieces cs, ap (λ b. if b then [] ∷ pieces cs else cons_piece c (pieces cs)) e)
  | inr e ↦
      let (p, ps, h) = cons_piece_some c (pieces cs) in
      (p, ps, ap (λ b. if b then [] ∷ pieces cs else cons_piece c (pieces cs)) e ∙ h)
]

cons_piece-append :
    (c : ℕ) (ps qs : List Text) (p : Text) (rest : List Text)
    → ps ≡ p ∷ rest
    → cons_piece c (ps ++ qs) ≡ cons_piece c ps ++ qs
cons_piece-append c [] qs p rest e = absurd (ground arith)
cons_piece-append c (x ∷ ps) qs p rest e = refl

pieces-snoc : (p c : Text) → NoSlash c → pieces (p ++ (slash ∷ c)) ≡ pieces p ++ (c ∷ [])
unfolding pieces
pieces-snoc [] c h = ap (◌∷◌ []) (pieces-plain c h)
pieces-snoc (x ∷ p) c h =
    let (q, qs, e) = pieces_some p in
    let ih = pieces-snoc p c h in
    elim (Bool-cases (x == slash)) [
      | inl on ↦ rw on (ap (◌∷◌ []) ih)
      | inr off ↦ rw off (ap (cons_piece x) ih ∙ cons_piece-append x (pieces p) (c ∷ []) q qs e)
    ]

walk-snoc :
    (room : ℕ) (ps : List Text) (c out o o' : Text)
    → walk room ps out ≡ some o
    → enter room o c ≡ some o'
    → walk room (ps ++ (c ∷ [])) out ≡ some o'
unfolding walk
walk-snoc room [] c out o o' w e =
    let same_out : out ≡ o = some-injective _ _ w in
    ap (λ r. elim r as (λ (_ : Option Text). Option Text) [ none ↦ none | some q ↦ some q ])
      (ap (λ q. enter room q c) same_out ∙ e)
walk-snoc room (p ∷ ps) c out o o' w e = elim (Option-cases (enter room out p)) [
  | inl bad ↦ absurd (ground (arith, sym (ap (further ps) bad) ∙ w))
  | inr (q, h) ↦
      ap (further (ps ++ (c ∷ []))) h ∙ walk-snoc room ps c q o o' (sym (ap (further ps) h) ∙ w) e
]
  where
    further : List Text → Option Text → Option Text
    further qs r = elim r [ none ↦ none | some q ↦ walk room qs q ]

enter-name :
    (room : ℕ) (cs : List Text) (c : Text)
    → All IsName cs
    → IsName c
    → length (render (c ∷ cs)) < room
    → enter room (render cs) c ≡ some (render (c ∷ cs))
enter-name room cs [] ns n fits = absurd (omega (arith, n.some_bytes))
enter-name room cs (x ∷ c) ns n fits =
    let (a, b) = IsName-not_dots (x ∷ c) n in
    let short : leb room (length (render ((x ∷ c) ∷ cs))) ≡ false = ground (arith, fits) in
    ap (enter_comp room (render cs)) (take_all piece_max (x ∷ c) n.short)
    ∙ ap (λ t. if t then some (render cs) else further) a
    ∙ ap (λ t. if t then some (go_up (render cs)) else append_piece room (render cs) (x ∷ c)) b
    ∙ append_piece-render room cs (x ∷ c) ns
    ∙ ap (λ t. if t then none else some (render ((x ∷ c) ∷ cs))) short
  where
    further : Option Text
    further =
        if same (x ∷ c) dots
        then some (go_up (render cs))
        else append_piece room (render cs) (x ∷ c)

walk-joined :
    (room : ℕ) (cs : List Text)
    → All IsName cs
    → length (render cs) < room
    → walk room (pieces (joined cs)) root ≡ some (render cs)
unfolding walk pieces joined render
walk-joined room [] ns fits = refl
walk-joined room (c ∷ cs) (n, ns) fits =
    ap (λ ps. walk room ps root) (pieces-snoc (joined cs) c n.plain)
    ∙ walk-snoc room (pieces (joined cs)) c root (render cs) (render (c ∷ cs))
        (walk-joined room cs ns (omega (arith, length-tail (c ∷ cs) (n, ns), fits)))
        (enter-name room cs c ns n fits)

joined-slash : (c : Text) (cs : List Text) → (t : Text) × (joined (c ∷ cs) ≡ slash ∷ t)
unfolding joined
joined-slash c [] = (c, refl)
joined-slash c (d ∷ cs) =
    let (t, e) = joined-slash d cs in (t ++ (slash ∷ c), ap (λ p. p ++ (slash ∷ c)) e)

finish : Option Text → Option Text
finish r = elim r [ none ↦ none | some o ↦ some (or_root o) ]

normalize_absolute :
    (cwd t : Text) (room : ℕ)
    → length (slash ∷ t) ≤ name_max * 2 - 1
    → normalize cwd (slash ∷ t) room ≡ finish (walk room (pieces (slash ∷ t)) root)
unfolding normalize finish
normalize_absolute cwd t room h =
    ap (λ p. finish (walk room (pieces p) root)) (take_all (name_max * 2 - 1) (slash ∷ t) h)

normalize-render :
    (cwd : Text) (room : ℕ) (cs : List Text)
    → All IsName cs
    → length (render cs) < room
    → room ≤ name_max * 2
    → normalize cwd (render cs) room ≡ some (render cs)
unfolding render walk pieces finish
normalize-render cwd room [] ns fits small = normalize_absolute cwd [] room (omega arith)
normalize-render cwd room (c ∷ cs) ns fits small =
    let (t, e) = joined-slash c cs in
    ap (λ p. normalize cwd p room) e
    ∙ normalize_absolute cwd t room (omega (arith, ap length e))
    ∙ ap (λ p. finish (walk room (pieces p) root)) (sym e)
    ∙ ap finish (walk-joined room (c ∷ cs) ns fits)
    ∙ ap (λ p. some (or_root p)) e
    ∙ ap some (sym e)

-- What `vfs_normalize` gave for a path that is not empty, it gives again for that path, in whatever
-- working directory, with a buffer of 2 to 512 bytes.
pub normalize-normalize :
    (cwd other : Text) (c : ℕ) (cs : Text) (room : ℕ) (out : Text)
    → 1 < room
    → room ≤ name_max * 2
    → normalize cwd (c ∷ cs) room ≡ some out
    → normalize other out room ≡ some out
normalize-normalize cwd other c cs room out h small e =
    let n = normalize-IsNormal cwd c cs room out h e in
    ap (λ p. normalize other p room) n.spelled
    ∙ normalize-render other room n.names n.good (omega (arith, n.fits, ap length n.spelled)) small
    ∙ ap some (sym n.spelled)
