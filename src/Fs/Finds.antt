-- ===== src/Fs/Finds.antt =====
-- What `fs_get` and `fs_read` of kernel/fs.c find after an operation that succeeds.
use siathos.Prelude.{
  ℕ, ◌<◌, ◌≡◌, ◌≢◌, inl, inr, refl, sym, ap, ◌∙◌, Bool, true, false, ◌&&◌, none, some, List, arith,
  ltb, if◌then◌else◌, length, take, modify, get_elem?, Text, same, same_refl, same_ne, find_slot,
  find_slot-modify_found, find_slot-modify_new, find_slot-modify_other,
}
use siathos.Fs.{Kind, Node, Fs, name_max, has_path, fs_get, new_node}
use siathos.Fs.Ops.{filled, fs_write, fs_read, read_at, removed}
use siathos.Fs.Lookup.{fs_get-some, take_all, Made}
use siathos.Fs.Cases.{Wrote, fs_write-cases, Gone}

-- A search for any other path finds what it found before.
abbrev pub OthersFound : Text → Fs → Fs → Type 0
OthersFound path s u = (other : Text) → other ≢ path → fs_get other u ≡ fs_get other s

-- A write to the slot of `path` that another path does not match before or after.
fs_get-modify_other :
    (path : Text) (s u : Fs) (i : ℕ) (old : Node) (f : Node → Node)
    → get_elem? s.nodes i ≡ some old
    → ((other : Text) → other ≢ path → has_path other old ≡ false)
    → ((other : Text) → other ≢ path → has_path other (f old) ≡ false)
    → u.nodes ≡ modify s.nodes i f
    → OthersFound path s u
unfolding fs_get
fs_get-modify_other path s u i old f g before behind e other ne =
    ap (find_slot (has_path other)) e
    ∙ find_slot-modify_other (has_path other) s.nodes i old f g (before other ne) (behind other ne)

has_path_ne :
    (path other : Text) (n : Node) → n.path ≡ path → other ≢ path → has_path other n ≡ false
has_path_ne path other n e ne =
    let off = same_ne n.path other (λ h. ne (sym h ∙ e)) in ground (arith, off)

pub Made-others :
    (path : Text) (kind : Kind) (owner : ℕ) (s u : Fs)
    → length path < name_max
    → Made path kind owner s u
    → OthersFound path s u
Made-others path kind owner s u short m =
    fs_get-modify_other path s u m.slot m.old (new_node path kind owner) m.was
      (λ other ne. ap (λ b. b && same m.old.path other) m.spare)
      (λ other ne.
        has_path_ne path other (new_node path kind owner m.old) (take_all 255 path (omega arith))
          ne)
      m.nodes

pub Made-found :
    (path : Text) (kind : Kind) (owner : ℕ) (s u : Fs)
    → length path < name_max
    → (m : Made path kind owner s u) → fs_get path u ≡ some (m.slot, new_node path kind owner m.old)
unfolding fs_get
Made-found path kind owner s u short m =
    ap (find_slot (has_path path)) m.nodes
    ∙ find_slot-modify_new (has_path path) s.nodes m.slot m.old (new_node path kind owner) m.missing
        m.was (ap (λ p. same p path) (take_all 255 path (omega arith)) ∙ same_refl path)

pub Wrote-others :
    (path : Text) (bytes : List ℕ) (size : ℕ) (s u : Fs)
    → Wrote path bytes size s u
    → OthersFound path s u
Wrote-others path bytes size s u w =
    let (g, _, p) = fs_get-some path s w.slot w.old w.found in
    fs_get-modify_other path s u w.slot w.old (filled bytes size w.room) g
      (λ other ne. has_path_ne path other w.old p ne)
      (λ other ne. has_path_ne path other (filled bytes size w.room w.old) p ne) w.nodes

pub Wrote-found :
    (path : Text) (bytes : List ℕ) (size : ℕ) (s u : Fs)
    → (w : Wrote path bytes size s u)
    → fs_get path u ≡ some (w.slot, filled bytes size w.room w.old)
unfolding fs_get
Wrote-found path bytes size s u w =
    let (_, used, p) = fs_get-some path s w.slot w.old w.found in
    ap (find_slot (has_path path)) w.nodes
    ∙ find_slot-modify_found (has_path path) s.nodes w.slot w.old (filled bytes size w.room) w.found
        (ap (λ b. b && same w.old.path path) used ∙ ap (λ q. same q path) p ∙ same_refl path)

pub Gone-others : (path : Text) (s u : Fs) → Gone path s u → OthersFound path s u
Gone-others path s u r =
    let (g, _, p) = fs_get-some path s r.slot r.old r.found in
    fs_get-modify_other path s u r.slot r.old removed g
      (λ other ne. has_path_ne path other r.old p ne) (λ other ne. refl) r.nodes

-- After `fs_write` succeeds, `fs_read` of the path gives the bytes written, cut to the buffer's
-- size, and a search for any other path finds the same node as before.
pub fs_read-fs_write :
    (path : Text) (bytes : List ℕ) (size room : ℕ) (has_memory : Bool) (s : Fs)
    → (fs_write path bytes size has_memory s).0 ≡ true
    → let u = (fs_write path bytes size has_memory s).1 in
      (fs_read path room u ≡ some (take (if ltb room size then room else size) (take size bytes)))
      × OthersFound path s u
unfolding fs_read
fs_read-fs_write path bytes size room has_memory s ok =
    elim (fs_write-cases path bytes size has_memory s) [
      | inl bad ↦ absurd (ground (arith, sym ok ∙ ap (λ r. r.0) bad))
      | inr (_, w) ↦ (
        ap (λ o. read_at o room) (Wrote-found path bytes size s _ w)
            ∙ ap
                (λ b.
                  if b
                  then none
                  else some (take (if ltb room size then room else size) (take size bytes)))
                w.plain,
        Wrote-others path bytes size s _ w,
      )
    ]
