-- ===== src/Cap/Tests.antt =====
-- Rights given and taken on a small table.
use siathos.Prelude.{ℕ, ◌≡◌, ◌≢◌, refl, true, false, ◌||◌, arith, bit_and, ◌!=◌}
use siathos.Bits.{complement}
use siathos.Cap.{cap_check, cap_grant, cap_revoke}
use siathos.Cap.Laws.{cap_check-granted_revoked}
use siathos.Proc.{proc_get}
use siathos.Sched.Tests.{process, three, parent_three}

grant_three : cap_check (cap_grant three 1 12).1 1 4 ≡ true
unfolding cap_check cap_grant proc_get
grant_three = refl

cap_check-granted_revoked_example :
    let (granted, g) = cap_grant three 1 12 in
    let (revoked, r) = cap_revoke three 1 12 in
    (granted ≡ true)
    × (revoked ≡ true)
    × ((s : ℕ) → cap_check g 1 s ≡ (cap_check three 1 s || (bit_and 12 s != 0)))
    × ((s : ℕ) → cap_check r 1 s ≡ cap_check three 1 (bit_and (complement 64 12) s))
    × (cap_check r 1 12 ≡ false)
    × ((other s : ℕ)
        → other ≢ 1
        → (cap_check g other s ≡ cap_check three other s)
          × (cap_check r other s ≡ cap_check three other s))
cap_check-granted_revoked_example =
    cap_check-granted_revoked three 1 12 0 (process 1 0 _) parent_three (omega arith)
