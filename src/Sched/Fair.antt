-- ===== src/Sched/Fair.antt =====
-- Round robin: a process that stays ready runs after a bounded number of preemptions.
use siathos.Prelude.{
  ℕ, zero, suc, ◌+◌, ◌-◌, ◌%◌, ◌≤◌, ◌<◌, ◌≡◌, ◌≢◌, refl, sym, subst, ap, ◌∙◌, true, false, Option,
  none, some, List, arith, ◌==◌, ◌&&◌, get_elem?, modify, get_elem?-modify_ne,
  get_elem?-modify_self, ℕ_discrete, dec_lt,
}
use siathos.Proc.{ready, running, is_running, Process, Table, max_procs, set_state}
use siathos.Sched.{
  slot_ready, gc, gc_table, state_at, set_at, switch_to, next_of, preempt_to, preempt_when,
  preempt_pick,
}
use siathos.Sched.Collect.{get-gc, slot_ready-gc}
use siathos.Sched.Scan.{FirstReady, next_ready-some, next_ready-none, slot_ready-some}
use siathos.Sched.Single.{RunsAt}

-- The scheduler is on, and the current process runs in the current slot.
pub record IsBusy (t : Table) : Type 0 where
  pub on : t.scheduler_running ≡ true
  pub cur : t.current ≡ some t.current_index
  pub fits : t.current_index < max_procs
  pub runs : RunsAt t.procs t.current_index

-- How many slots lie between the one behind slot `c` and slot `j`, going round.
abbrev pub turns : ℕ → ℕ → ℕ
turns c j = (j + max_procs - (c + 1) % max_procs) % max_procs

slot_ready-modify_ne :
    (ps : List Process) (i j : ℕ) (f : Process → Process)
    → i ≢ j
    → slot_ready (modify ps i f) j ≡ slot_ready ps j
slot_ready-modify_ne ps i j f h = rw (get_elem?-modify_ne ps i j f h, slot_ready)

-- One pick from slot `c` with slot `j` ready: the next slot is `i`.
pub record Picked (c j i : ℕ) (r : Option ℕ × Table) : Type 0 where
  pub chosen : r.0 ≡ some i
  pub busy : IsBusy r.1
  pub index : r.1.current_index ≡ i
  pub closer : i ≢ j → (turns r.1.current_index j < turns c j) × (slot_ready r.1.procs j ≡ true)

gc-RunsAt : (active : ℕ) (ps : List Process) (j : ℕ) → RunsAt ps j → RunsAt (gc active ps).0 j
gc-RunsAt active ps j (p, g, there, runs) = (p, get-gc active ps j p g ∙ ground arith, there, runs)

switch_to-IsBusy :
    (t : Table) (i : ℕ)
    → t.scheduler_running ≡ true
    → i < max_procs
    → slot_ready t.procs i ≡ true
    → IsBusy (switch_to t i)
switch_to-IsBusy t i on fits r =
    let (p, g, there, _) = slot_ready-some t.procs i r in
    record {
      on = on;
      cur = refl;
      fits = fits;
      runs = (
        record p { state = running },
        get_elem?-modify_self t.procs i (λ q. record q { state = running }) g,
        there,
        refl,
      );
    }

-- The first ready slot behind `c` is not `c` itself, and not behind a ready `j`.
first-near :
    (ps : List Process) (c j k i : ℕ)
    → c < max_procs
    → j < max_procs
    → c ≢ j
    → slot_ready ps j ≡ true
    → FirstReady ps (c + 1) k i
    → (k ≤ turns c j) × (i ≢ c)
first-near ps c j k i hc hj ne r f = elim (dec_lt d k) [
  | yes lt ↦ absurd (before lt)
  | no ge ↦ (omega arith, λ e. omega (arith, f.place, f.near))
]
  where
    d : ℕ
    d = turns c j

    at : (c + 1 + d) % max_procs ≡ j
    at = omega arith

    before : d < k → ⊥
    before lt = let off = f.skips d lt in cc (r, rw at at off)

picked :
    (t : Table) (c j : ℕ)
    → t.scheduler_running ≡ true
    → c ≡ t.current_index
    → c < max_procs
    → j < max_procs
    → c ≢ j
    → slot_ready t.procs j ≡ true
    → (next : Option ℕ) → next_of (set_state t c ready) ≡ next
    → (i : ℕ) × Picked c j i (preempt_to next (set_state t c ready))
picked t c j on same hc hj ne r none e = absurd (cc (stays, none_ready))
  where
    stays : slot_ready (set_state t c ready).procs j ≡ true
    stays = slot_ready-modify_ne t.procs c j _ ne ∙ r

    none_ready : slot_ready (set_state t c ready).procs j ≡ false
    none_ready = next_ready-none (set_state t c ready).procs (t.current_index + 1) j e hj
picked t c j on same hc hj ne r (some i) e =
    let (k, f) = next_ready-some back.procs (t.current_index + 1) i e in
    let (near, other) = first-near back.procs c j k i hc hj ne stays (rw (← same) at f) in
    let moved : (i == t.current_index) ≡ false = ground arith in
    (
      i,
      rw moved (record {
        chosen = refl;
        busy = switch_to-IsBusy back i on (omega (arith, f.place)) f.is_on;
        index = refl;
        closer = λ far. (
          omega (arith, f.place, f.near, near, same),
          slot_ready-modify_ne back.procs i j (λ p. record p { state = running }) far ∙ stays,
        );
      }),
    )
  where
    back : Table
    back = set_state t c ready

    stays : slot_ready back.procs j ≡ true
    stays = slot_ready-modify_ne t.procs c j (λ p. record p { state = ready }) ne ∙ r

pub pick-Picked :
    (active : ℕ) (t : Table) (j : ℕ)
    → IsBusy t
    → j < max_procs
    → slot_ready t.procs j ≡ true
    → (i : ℕ) × Picked t.current_index j i (preempt_pick active t)
unfolding preempt_pick
pick-Picked active t0 j b hj r0 =
    let (i, w) =
      picked t t0.current_index j b.on refl b.fits hj other r
        (next_of (set_state t t0.current_index ready)) refl in
    (i, subst (Picked t0.current_index j i) (sym (ap (λ b. preempt_when b t) tested ∙ steps)) w)
  where
    t : Table
    t = gc_table active t0

    r : slot_ready t.procs j ≡ true
    r = slot_ready-gc active t0.procs j ∙ r0

    runs : RunsAt t.procs t0.current_index
    runs = gc-RunsAt active t0.procs t0.current_index b.runs

    other : t0.current_index ≢ j
    other e =
        let (p, g, _, st) = runs in
        let (q, g', _, st') = slot_ready-some t.procs j r in
        ground (arith, g, ap (get_elem? t.procs) e ∙ g', st, st')

    state : state_at t.current t.procs is_running ≡ true
    state = let (p, g, _, st) = runs in rw (b.cur, state_at) (rw g (ap is_running st))

    tested : (t.scheduler_running && state_at t.current t.procs is_running) ≡ true
    tested = ground (arith, b.on, state)

    steps :
        preempt_when true t
        ≡ preempt_to
            (next_of (set_state t t0.current_index ready))
            (set_state t t0.current_index ready)
    steps = ap (λ u. preempt_to (next_of u) u) (ap (λ o. set_at o ready t) b.cur)

-- The table after `n` preemptions; `actives n` is the cr3 at the n-th.
pub picks : (ℕ → ℕ) → ℕ → Table → Table
picks actives zero t = t
picks actives (suc n) t = picks (λ k. actives (suc k)) n (preempt_pick (actives 0) t).1

-- Started while a process runs, and with process `j` ready, preemptions alone make `j` the current
-- process after at most as many as there are slots from the current one to `j`, going round.
pub preempt-serves :
    (actives : ℕ → ℕ) (n : ℕ) (t : Table) (j : ℕ)
    → IsBusy t
    → j < max_procs
    → slot_ready t.procs j ≡ true
    → turns t.current_index j < n
    → (k : ℕ) × (k ≤ n) × ((picks actives k t).current ≡ some j)
unfolding picks
preempt-serves actives zero t j b hj r h = absurd (omega arith)
preempt-serves actives (suc n) t j b hj r h =
    let (i, w) = pick-Picked (actives 0) t j b hj r in
    elim (ℕ_discrete i j) [
      | yes e ↦ (1, omega arith, w.busy.cur ∙ ap some (w.index ∙ e))
      | no e ↦
          let (closer, still) = w.closer e in
          let (k, le, at) =
            preempt-serves (λ m. actives (suc m)) n (preempt_pick (actives 0) t).1 j w.busy hj still
              (omega arith) in
          (suc k, omega arith, at)
    ]
