-- ===== src/Ebr/NmTree/Path.antt =====
-- ebr/natarajan_mittal_tree.rs: the way from a subtree up to a root, as a list of the nodes passed,
-- the lowest first.
use pebr_benchmark.Base.{
  ℕ, ◌+◌, ◌<◌, ◌≡◌, refl, ◌∙◌, Option, none, some, List, [], ◌∷◌, ◌++◌, append_assoc, append-nil,
  sym, arith,
}
use pebr_benchmark.SortedMap.{Entries}
use pebr_benchmark.Shared.{shared, hit, hit_self}
use pebr_benchmark.Ebr.NmTree.Node.{Key, Node, Direction, to_left, to_right}
use pebr_benchmark.Ebr.NmTree.Tree.{Tree, tip, fork, root, Stored, entries}

-- A node that was passed, the side on which the way goes on, and the subtree on the other side.
pub record Frame (K V : Type 0) : Type 0 where
  pub addr : ℕ
  pub key : Key K
  pub dir : Direction
  pub sibling : Tree K V

module _ {K V : Type 0} where
  abbrev pub join : ℕ → Key K → Direction → Tree K V → Tree K V → Tree K V
  join a k to_left u v = fork a k u v
  join a k to_right u v = fork a k v u

  abbrev pub plug : List (Frame K V) → Tree K V → Tree K V
  plug [] u = u
  plug (x ∷ path) u = plug path (join x.addr x.key x.dir u x.sibling)

  abbrev pub before : Direction → Entries K V → Entries K V
  before to_left xs = []
  before to_right xs = xs

  abbrev pub behind : Direction → Entries K V → Entries K V
  behind to_left xs = xs
  behind to_right xs = []

  -- The entries on the left of the way, and on its right.
  abbrev pub lefts : List (Frame K V) → Entries K V
  lefts [] = []
  lefts (x ∷ path) = lefts path ++ before x.dir (entries x.sibling)

  abbrev pub rights : List (Frame K V) → Entries K V
  rights [] = []
  rights (x ∷ path) = behind x.dir (entries x.sibling) ++ rights path

  pub entries-join :
      (a : ℕ) (k : Key K) (d : Direction) (u v : Tree K V)
      → entries (join a k d u v) ≡ before d (entries v) ++ entries u ++ behind d (entries v)
  entries-join a k to_left u v = refl
  entries-join a k to_right u v = sym (append-nil (entries v ++ entries u))

  pub entries-plug :
      (path : List (Frame K V)) (u : Tree K V)
      → entries (plug path u) ≡ lefts path ++ entries u ++ rights path
  entries-plug [] u = sym (append-nil (entries u))
  entries-plug (x ∷ path) u =
      entries-plug path (join x.addr x.key x.dir u x.sibling)
      ∙ simp (entries-join x.addr x.key x.dir u x.sibling, append_assoc)

  pub plug-append :
      (path above : List (Frame K V)) (u : Tree K V)
      → plug (path ++ above) u ≡ plug above (plug path u)
  plug-append [] above u = refl
  plug-append (x ∷ path) above u = plug-append path above (join x.addr x.key x.dir u x.sibling)

  -- How often an address occurs.
  abbrev pub occ : ℕ → Tree K V → ℕ
  occ b (tip a p) = hit b a
  occ b (fork a k l r) = hit b a + occ b l + occ b r

  abbrev pub occ_path : ℕ → List (Frame K V) → ℕ
  occ_path b [] = 0
  occ_path b (x ∷ path) = hit b x.addr + occ b x.sibling + occ_path b path

  pub occ-join :
      (b a : ℕ) (k : Key K) (d : Direction) (u v : Tree K V)
      → occ b (join a k d u v) ≡ hit b a + occ b u + occ b v
  occ-join b a k to_left u v = refl
  occ-join b a k to_right u v = omega arith

  pub occ-plug :
      (b : ℕ) (path : List (Frame K V)) (u : Tree K V)
      → occ b (plug path u) ≡ occ_path b path + occ b u
  occ-plug b [] u = omega arith
  occ-plug b (x ∷ path) u = omega (
    arith,
    occ-plug b path (join x.addr x.key x.dir u x.sibling),
    occ-join b x.addr x.key x.dir u x.sibling,
  )

  -- No edge on the way is flagged or tagged; `b` is the address of what the way leads up from.
  abbrev pub frame_node : Frame K V → ℕ → Node K V
  frame_node x b = record {
    key = x.key;
    value = none;
    left = elim x.dir [ to_left ↦ shared b 0 | to_right ↦ shared (root x.sibling) 0 ];
    right = elim x.dir [ to_left ↦ shared (root x.sibling) 0 | to_right ↦ shared b 0 ];
  }

  abbrev pub Around : (ℕ → Option (Node K V)) → List (Frame K V) → ℕ → Type 0
  Around mem [] b = Unit
  Around mem (x ∷ path) b =
      (0 < x.addr)
      × (mem x.addr ≡ some (frame_node x b))
      × Stored mem x.sibling
      × Around mem path x.addr

  pub root-join : (a : ℕ) (k : Key K) (d : Direction) (u v : Tree K V) → root (join a k d u v) ≡ a
  root-join a k to_left u v = refl
  root-join a k to_right u v = refl

  module _ (mem : ℕ → Option (Node K V)) where
    Stored-join :
        (x : Frame K V) (u : Tree K V)
        → Stored mem (join x.addr x.key x.dir u x.sibling)
        → (0 < x.addr)
          × (mem x.addr ≡ some (frame_node x (root u)))
          × Stored mem x.sibling
          × Stored mem u
    Stored-join x u st = go x.addr x.key x.dir x.sibling st
      where
        go :
            (a : ℕ) (k : Key K) (d : Direction) (v : Tree K V)
            → Stored mem (join a k d u v)
            → (0 < a)
              × (mem a
                  ≡ some (frame_node (record { addr = a; key = k; dir = d; sibling = v }) (root u)))
              × Stored mem v
              × Stored mem u
        go a k to_left v st = (st.0, st.1, st.3, st.2)
        go a k to_right v st = st

    pub join-Stored :
        (x : Frame K V) (u : Tree K V)
        → 0 < x.addr
        → mem x.addr ≡ some (frame_node x (root u))
        → Stored mem x.sibling
        → Stored mem u
        → Stored mem (join x.addr x.key x.dir u x.sibling)
    join-Stored x u pos = go x.addr x.key x.dir x.sibling pos
      where
        go :
            (a : ℕ) (k : Key K) (d : Direction) (v : Tree K V)
            → (0 < a)
            → (mem a
                ≡ some (frame_node (record { addr = a; key = k; dir = d; sibling = v }) (root u)))
            → Stored mem v
            → Stored mem u
            → Stored mem (join a k d u v)
        go a k to_left v p e sv su = (p, e, su, sv)
        go a k to_right v p e sv su = (p, e, sv, su)

    pub plug-Stored :
        (path : List (Frame K V)) (u : Tree K V)
        → Around mem path (root u)
        → Stored mem u
        → Stored mem (plug path u)
    plug-Stored [] u around st = st
    plug-Stored (x ∷ path) u around st =
        plug-Stored path (join x.addr x.key x.dir u x.sibling)
          (rw (root-join x.addr x.key x.dir u x.sibling) around.3)
          (join-Stored x u around.0 around.1 around.2 st)

    pub Stored-plug :
        (path : List (Frame K V)) (u : Tree K V)
        → Stored mem (plug path u)
        → Around mem path (root u) × Stored mem u
    Stored-plug [] u st = (tt, st)
    Stored-plug (x ∷ path) u st =
        let (around, there) = Stored-plug path (join x.addr x.key x.dir u x.sibling) st in
        let (pos, e, sv, su) = Stored-join x u there in
        ((pos, e, sv, rw (← root-join x.addr x.key x.dir u x.sibling) around), su)

  -- What does not touch the tree's nodes.
  module _ {c d : ℕ → Option (Node K V)} where
    pub Stored-frame :
        (t : Tree K V) → ((a : ℕ) → 0 < occ a t → d a ≡ c a) → Stored c t → Stored d t
    Stored-frame (tip a p) same st = (st.0, same a (omega (arith, hit_self a)) ∙ st.1)
    Stored-frame (fork a k l r) same st = (
      st.0,
      same a (omega (arith, hit_self a)) ∙ st.1,
      Stored-frame l (λ b inside. same b (omega arith)) st.2,
      Stored-frame r (λ b inside. same b (omega arith)) st.3,
    )

    pub Around-frame :
        (path : List (Frame K V)) (b : ℕ)
        → ((a : ℕ) → 0 < occ_path a path → d a ≡ c a)
        → Around c path b
        → Around d path b
    Around-frame [] b same around = tt
    Around-frame (x ∷ path) b same around = (
      around.0,
      same x.addr (omega (arith, hit_self x.addr)) ∙ around.1,
      Stored-frame x.sibling (λ a inside. same a (omega arith)) around.2,
      Around-frame path x.addr (λ a inside. same a (omega arith)) around.3,
    )
