-- ===== src/Vfs/Guarded.antt =====
-- A path that callers of kernel/vfs.c may not write stays as it is.
use siathos.Prelude.{
  ℕ, ◌<◌, ◌≡◌, ◌≢◌, inl, inr, refl, sym, ap, ◌∙◌, Bool, true, false, not, ◌&&◌, ◌||◌, Option, none,
  some, List, [], ◌∷◌, All, if◌then◌else◌, length, Text, arith, Bool-cases,
}
use siathos.Fs.{Kind, file, Fs, name_max, fs_get, fs_exists, fs_create}
use siathos.Fs.Ops.{fs_remove}
use siathos.Fs.Others.{
  fs_create-others, fs_write-others, fs_remove-others, fs_copy-others, fs_move-others,
}
use siathos.Vfs.Access.{cap_fs_read, cap_fs_write, check_cap}
use siathos.Vfs.Calls.{
  is_pseudo, Caller, path_of, create_in, vfs_create, write_after, made_for, write_in, vfs_write,
  remove_in, vfs_remove, both_in, vfs_copy, vfs_move,
}
use siathos.Vfs.Kept.{path_of-short, Call, creates, writes, removes, copies, moves, step, run}

-- A path that the check lets be written is not one that it does not.
allowed_ne :
    (p q : Text) (c : Caller)
    → check_cap p cap_fs_write c.session ≡ false
    → check_cap q cap_fs_write c.session ≡ true
    → p ≢ q
allowed_ne p q c off on e = ground (arith, off, on, ap (λ t. check_cap t cap_fs_write c.session) e)

module _ (p : Text) (c : Caller) (shut : check_cap p cap_fs_write c.session ≡ false) where
  create_in-kept :
      (o : Option Text) (kind : Kind) (s : Fs)
      → ((q : Text) → o ≡ some q → length q < name_max)
      → fs_get p (create_in o c kind s).1 ≡ fs_get p s
  create_in-kept none kind s h = refl
  create_in-kept (some q) kind s h = elim (Bool-cases (check_cap q cap_fs_write c.session)) [
    | inl on ↦
        ap (λ b. fs_get p (if b then fs_create q kind c.owner s else (false, s)).1) on
        ∙ fs_create-others q kind c.owner s (h q refl) p (allowed_ne p q c shut on)
    | inr off ↦ ap (λ b. fs_get p (if b then fs_create q kind c.owner s else (false, s)).1) off
  ]

  made_for-kept :
      (q : Text) (s : Fs)
      → length q < name_max
      → p ≢ q
      → fs_get p (made_for q c.owner s).1 ≡ fs_get p s
  made_for-kept q s h ne = elim (Bool-cases (fs_exists q s)) [
    | inl on ↦ ap (λ b. fs_get p (if b then (true, s) else fs_create q file c.owner s).1) on
    | inr off ↦
        ap (λ b. fs_get p (if b then (true, s) else fs_create q file c.owner s).1) off
        ∙ fs_create-others q file c.owner s h p ne
  ]

  write_after-kept :
      (r : Bool × Fs) (q : Text) (bytes : List ℕ) (size : ℕ)
      → p ≢ q
      → fs_get p (write_after r q bytes size c.has_memory).1 ≡ fs_get p r.1
  write_after-kept (false, s) q bytes size ne = refl
  write_after-kept (true, s) q bytes size ne = fs_write-others q bytes size c.has_memory s p ne

  write_in-kept :
      (o : Option Text) (bytes : List ℕ) (size : ℕ) (s : Fs)
      → ((q : Text) → o ≡ some q → length q < name_max)
      → fs_get p (write_in o c bytes size s).1 ≡ fs_get p s
  write_in-kept none bytes size s h = refl
  write_in-kept (some q) bytes size s h =
      elim (Bool-cases (not (check_cap q cap_fs_write c.session) || is_pseudo q)) [
        | inl bad ↦ ap (λ b. fs_get p (if b then (false, s) else body).1) bad
        | inr fine ↦
            let ne = allowed_ne p q c shut (ground (arith, fine)) in
            ap (λ b. fs_get p (if b then (false, s) else body).1) fine
            ∙ write_after-kept (made_for q c.owner s) q bytes size ne
            ∙ made_for-kept q s (h q refl) ne
      ]
    where
      body : Bool × Fs
      body = write_after (made_for q c.owner s) q bytes size c.has_memory

  remove_in-kept : (o : Option Text) (s : Fs) → fs_get p (remove_in o c s).1 ≡ fs_get p s
  remove_in-kept none s = refl
  remove_in-kept (some q) s = elim (Bool-cases (check_cap q cap_fs_write c.session)) [
    | inl on ↦
        ap (λ b. fs_get p (if b then fs_remove q s else (false, s)).1) on
        ∙ fs_remove-others q s p (allowed_ne p q c shut on)
    | inr off ↦ ap (λ b. fs_get p (if b then fs_remove q s else (false, s)).1) off
  ]

  both_in-kept :
      (act : Text → Text → Fs → Bool × Fs) (o d : Option Text) (s : Fs)
      → ((a b : Text) → o ≡ some a → d ≡ some b → p ≢ b → fs_get p (act a b s).1 ≡ fs_get p s)
      → fs_get p (both_in act o d c s).1 ≡ fs_get p s
  both_in-kept act none d s f = refl
  both_in-kept act (some a) none s f = refl
  both_in-kept act (some a) (some b) s f =
      elim (Bool-cases (check_cap a cap_fs_read c.session && check_cap b cap_fs_write c.session)) [
        | inl on ↦
            ap (λ t. fs_get p (if t then act a b s else (false, s)).1) on
            ∙ f a b refl refl (allowed_ne p b c shut (ground (arith, on)))
        | inr off ↦ ap (λ t. fs_get p (if t then act a b s else (false, s)).1) off
      ]

-- The caller of a call may not write the path, and a move does not take it away.
abbrev pub Spares : Text → Call → Type 0
Spares p (creates c path kind) = check_cap p cap_fs_write c.session ≡ false
Spares p (writes c path bytes size) = check_cap p cap_fs_write c.session ≡ false
Spares p (removes c path) = check_cap p cap_fs_write c.session ≡ false
Spares p (copies c src dst) = check_cap p cap_fs_write c.session ≡ false
Spares p (moves c src dst) = (check_cap p cap_fs_write c.session ≡ false) × (path_of c src ≢ some p)

step-kept : (p : Text) (s : Fs) (k : Call) → Spares p k → fs_get p (step s k) ≡ fs_get p s
unfolding step vfs_create vfs_write vfs_remove vfs_copy vfs_move
step-kept p s (creates c path kind) h =
    create_in-kept p c h (path_of c path) kind s (path_of-short c path)
step-kept p s (writes c path bytes size) h =
    write_in-kept p c h (path_of c path) bytes size s (path_of-short c path)
step-kept p s (removes c path) h = remove_in-kept p c h (path_of c path) s
step-kept p s (copies c src dst) h =
    both_in-kept p c h _ (path_of c src) (path_of c dst) s
      (λ a b from to ne. fs_copy-others a b c.owner c.has_memory s (path_of-short c dst b to) p ne)
step-kept p s (moves c src dst) (h, stays) =
    both_in-kept p c h _ (path_of c src) (path_of c dst) s (λ a b from to ne.
      fs_move-others a b c.owner c.has_memory s p (path_of-short c dst b to)
        (λ e. stays (from ∙ ap some (sym e))) ne)

-- Where `vfs_check_cap` refuses every caller of a sequence of calls of vfs.c the writing of a path,
-- and no move names it as its source, a search for the path finds the same node after the calls as
-- before.
pub vfs_run-kept :
    (p : Text) (s : Fs) (ks : List Call) → All (Spares p) ks → fs_get p (run s ks) ≡ fs_get p s
unfolding run
vfs_run-kept p s [] h = refl
vfs_run-kept p s (k ∷ ks) (h, hs) = vfs_run-kept p (step s k) ks hs ∙ step-kept p s k h
