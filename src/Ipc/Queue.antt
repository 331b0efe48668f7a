-- ===== src/Ipc/Queue.antt =====
-- A mailbox of kernel/ipc.c as a first-in first-out queue of at most 64 messages.
use siathos.Prelude.{
  ℕ, zero, suc, ◌+◌, ◌-◌, ◌%◌, ◌<◌, ◌≤◌, ◌≡◌, ◌≢◌, inl, inr, refl, ap, ◌∙◌, true, false, List, [],
  ◌∷◌, ◌++◌, arith, ltb, leb, if◌then◌else◌, Bool-cases, length, get_or, set, length-set,
  get_or-set_self, get_or-set_ne,
}
use siathos.Ipc.{queue_max, Message, Mailbox, blank, push, front, pop, emptied}

-- `n` messages of the ring from place `h` on.
pub window : List Message → ℕ → ℕ → List Message
window ms h zero = []
window ms h (suc n) = get_or ms (h % queue_max) blank ∷ window ms (h + 1) n

pub contents : Mailbox → List Message
unfolding window
contents mb = window mb.msgs mb.head mb.count

pub record IsRing (mb : Mailbox) : Type 0 where
  pub room : length mb.msgs ≡ queue_max
  pub place : mb.head < queue_max
  pub fits : mb.count ≤ queue_max

window-set :
    (ms : List Message) (m : Message) (k h n : ℕ)
    → ((i : ℕ) → i < n → k ≢ (h + i) % queue_max)
    → window (set ms k m) h n ≡ window ms h n
unfolding window
window-set ms m k h zero f = refl
window-set ms m k h (suc n) f =
    ap (λ x. x ∷ window (set ms k m) (h + 1) n)
      (get_or-set_ne ms k (h % queue_max) m blank (λ e. f 0 (omega arith) (omega (arith, e))))
    ∙ ap (◌∷◌ (get_or ms (h % queue_max) blank))
        (window-set ms m k (h + 1) n (λ i lt e. f (i + 1) (omega arith) (omega (arith, e))))

window-snoc :
    (ms : List Message) (h n : ℕ)
    → window ms h (suc n) ≡ window ms h n ++ (get_or ms ((h + n) % queue_max) blank ∷ [])
unfolding window
window-snoc ms h zero = ap (λ (i : ℕ). get_or ms (i % queue_max) blank ∷ []) (omega arith)
window-snoc ms h (suc n) = ap (◌∷◌ (get_or ms (h % queue_max) blank)) (
    window-snoc ms (h + 1) n
    ∙ ap (λ (i : ℕ). window ms (h + 1) n ++ (get_or ms (i % queue_max) blank ∷ [])) (omega arith))

length-window : (ms : List Message) (h n : ℕ) → length (window ms h n) ≡ n
unfolding window
length-window ms h zero = refl
length-window ms h (suc n) = ap suc (length-window ms (h + 1) n)

pub length-contents : (mb : Mailbox) → length (contents mb) ≡ mb.count
unfolding contents
length-contents mb = length-window mb.msgs mb.head mb.count

window-mod :
    (ms : List Message) (a b n : ℕ) → a % queue_max ≡ b % queue_max → window ms a n ≡ window ms b n
unfolding window
window-mod ms a b zero e = refl
window-mod ms a b (suc n) e =
    ap (λ (i : ℕ). get_or ms i blank ∷ window ms (a + 1) n) e
    ∙ ap (◌∷◌ (get_or ms (b % queue_max) blank)) (window-mod ms (a + 1) (b + 1) n (omega arith))

window-pop :
    (ms : List Message) (h n : ℕ) (m : Message) (rest : List Message)
    → h < queue_max
    → window ms h n ≡ m ∷ rest
    → (get_or ms h blank ≡ m) × (window ms ((h + 1) % queue_max) (n - 1) ≡ rest)
unfolding window
window-pop ms h zero m rest lt e = absurd (ground arith)
window-pop ms h (suc n) m rest lt e =
    let cut : (get_or ms (h % queue_max) blank ≡ m) × (window ms (h + 1) n ≡ rest) =
      ground (arith, e) in
    let place : h % queue_max ≡ h = omega arith in
    let less : suc n - 1 ≡ n = omega arith in
    (
      rw place at (cut.0),
      rw less (window-mod ms ((h + 1) % queue_max) (h + 1) n (omega arith) ∙ cut.1),
    )

pub contents-emptied : (pid : ℕ) (mb : Mailbox) → contents (emptied pid mb) ≡ []
unfolding contents window
contents-emptied pid mb = refl

pub push-IsRing : (m : Message) (mb : Mailbox) → IsRing mb → IsRing (push m mb)
unfolding push
push-IsRing m mb r = elim (Bool-cases (leb queue_max mb.count)) [
  | inl full ↦ rw full r
  | inr free ↦
      rw free
        (record { room = length-set mb.msgs _ m ∙ r.room; place = r.place; fits = ground arith })
]

pub pop-IsRing : (mb : Mailbox) → IsRing mb → IsRing (pop mb)
unfolding pop
pop-IsRing mb r = record { room = r.room; place = omega arith; fits = omega (arith, r.fits) }

pub emptied-IsRing : (pid : ℕ) (mb : Mailbox) → IsRing mb → IsRing (emptied pid mb)
emptied-IsRing pid mb r = record { room = r.room; place = omega arith; fits = omega arith }

-- `mailbox_push` appends where there is room and drops the message otherwise.
abbrev pub append : Message → List Message → List Message
append m ms = if ltb (length ms) queue_max then ms ++ (m ∷ []) else ms

pub contents-push :
    (m : Message) (mb : Mailbox) → IsRing mb → contents (push m mb) ≡ append m (contents mb)
unfolding push contents
contents-push m mb r = elim (Bool-cases (leb queue_max mb.count)) [
  | inl full ↦
      let no : ltb (length (contents mb)) queue_max ≡ false = ground (arith, length-contents mb) in
      rw (full, no) refl
  | inr free ↦
      let yes_room : ltb (length (contents mb)) queue_max ≡ true =
        ground (arith, length-contents mb) in
      rw (free, yes_room)
        (ap (window (set mb.msgs k m) mb.head) {y = suc mb.count} (omega arith)
          ∙ window-snoc (set mb.msgs k m) mb.head mb.count
          ∙ ap (λ ms. ms ++ (get_or (set mb.msgs k m) k blank ∷ []))
              (window-set mb.msgs m k mb.head mb.count
                (λ i lt e. absurd (omega (arith, r.fits, e, small free))))
          ∙ ap (λ x. window mb.msgs mb.head mb.count ++ (x ∷ []))
              (get_or-set_self mb.msgs k m blank (omega (arith, r.room))))
]
  where
    k : ℕ
    k = (mb.head + mb.count) % queue_max

    small : leb queue_max mb.count ≡ false → mb.count < queue_max
    small free = ground arith

pub contents-pop :
    (mb : Mailbox) (m : Message) (ms : List Message)
    → IsRing mb
    → contents mb ≡ m ∷ ms
    → (front mb ≡ m) × (contents (pop mb) ≡ ms)
unfolding pop contents
contents-pop mb m ms r e = window-pop mb.msgs mb.head mb.count m ms r.place e
