-- ===== src/Pebr/NmTree/Moves.antt =====
-- pebr/natarajan_mittal_tree.rs: what the shields hold after they are moved along a path.
use pebr_benchmark.Base.{
  ◌≡◌, refl, ap, ◌∙◌, Bool, Bool-cases, true, false, inl, inr, Option, if◌then◌else◌,
}
use pebr_benchmark.Shared.{Shared}
use pebr_benchmark.World.{World, Run, ok, Cmd, and_then, pure}
use pebr_benchmark.Ebr.NmTree.Node.{Direction, Heap}
use pebr_benchmark.Ebr.NmTree.Seek.{unmarked, advance}
use pebr_benchmark.Ebr.NmTree.Seek
use pebr_benchmark.Pebr.ShieldPool.{ShieldApi}
use pebr_benchmark.Pebr.Result.{Result, done, err, lift}
use pebr_benchmark.Pebr.NmTree.Record.{
  SeekRecord, Local, pointers, defend, defend_ancestor, defend_successor, defend_leaf, get_pointers,
  modify_record,
}
use pebr_benchmark.Pebr.NmTree.Seek.{advance_ancestor, advance_leaf}
use pebr_benchmark.Pebr.NmTree.Follows.{put, Follows}

abbrev Own : ShieldApi → Type 0
Own api = Local api.Shield api.Guard

-- The part of `advance` that is about the ancestor and the successor.
abbrev advance_upper : Seek.SeekRecord → Bool → Seek.SeekRecord
advance_upper q prev_tag = record q {
  ancestor = if prev_tag then q.ancestor else q.parent;
  successor = if prev_tag then q.successor else q.leaf;
  successor_dir = if prev_tag then q.successor_dir else q.leaf_dir;
}

module _ (api : ShieldApi) {K V : Type 0} where
  open api use {Shield, Guard, defend_shield, deref_shield}

  -- Only the private state has changed; the shields hold `q`, or the thread was ejected.
  pub data Moved (w : World (Heap K V) (Own api)) (q : Seek.SeekRecord)
      : Run (Heap K V) (Own api) (Result (Unit {0})) → Type 0 where
    moved : {own : (Own api)} → pointers api own.rec ≡ q → Moved w q (ok (done tt) (put own w))
    refused : {own : (Own api)} → Moved w q (ok err (put own w))

  pub Moved-put :
      {w : World (Heap K V) (Own api)} {own : Own api} {q : Seek.SeekRecord}
      → {r : Run (Heap K V) (Own api) (Result (Unit {0}))} → Moved (put own w) q r
      → Moved w q r
  Moved-put (moved e) = moved e
  Moved-put refused = refused

  pub Moved-bind :
      {w : World (Heap K V) (Own api)} {q q' : Seek.SeekRecord}
      → {r : Run (Heap K V) (Own api) (Result (Unit {0}))}
      → (k : Unit {0} → Cmd (Heap K V) (Own api) (Result (Unit {0}))) → Moved w q r
      → ((own : Own api) → pointers api own.rec ≡ q → Moved w q' (k tt (put own w)))
      → Moved w q' (and_then r λ a. elim a [ done a ↦ k a | err ↦ pure err ])
  Moved-bind k (moved {own} e) next = next own e
  Moved-bind k (refused {own}) next = refused

  module _ {A B : Type 0} {view : A → (Own api) → Option B} {l : (Own api)} where
    pub Moved-Follows :
        {w : World (Heap K V) (Own api)} {q : Seek.SeekRecord}
        {r : Run (Heap K V) (Own api) (Result (Unit {0}))}
        → (k : Result (Unit {0}) → Cmd (Heap K V) (Own api) A) (s : Run (Heap K V) (Own api) B)
        → Moved w q r
        → ((own : (Own api))
            → pointers api own.rec ≡ q
            → Follows l view (k (done tt) (put own w)) s)
        → ((own : (Own api)) → Follows l view (k err (put own w)) s)
        → Follows l view (and_then r k) s
    Moved-Follows k s (moved {own} e) next stop = next own e
    Moved-Follows k s (refused {own}) next stop = stop own

  -- `held`: a shield that answers `Ok` holds the pointer.
  module _
      (held : (s : Shield) (p : Shared) (g : Guard)
        → (defend_shield s p g).1 ≡ true
        → deref_shield (defend_shield s p g).0 ≡ p) where
    defend-Moved :
        (get : SeekRecord Shield → Shield) (store : Shield → SeekRecord Shield → SeekRecord Shield)
        → (p : Shared) (w : World (Heap K V) (Own api)) (q : Seek.SeekRecord)
        → ((s : Shield) → deref_shield s ≡ p → pointers api (store s w.own.rec) ≡ q)
        → Moved w q (defend api get store p w)
    unfolding defend
    defend-Moved get store p w q stored =
        let s = get w.own.rec in
        elim (Bool-cases (defend_shield s p w.own.guard).1) [
          | inl e ↦ rw e (moved (stored _ (held s p w.own.guard e)))
          | inr e ↦ rw e refused
        ]

    pub defend_leaf-Moved :
        (p : Shared) (w : World (Heap K V) (Own api))
        → Moved w (record (pointers api w.own.rec) { leaf = p }) (defend_leaf api p w)
    unfolding defend_leaf
    defend_leaf-Moved p w =
        defend-Moved (λ rec. rec.leaf) (λ s rec. record rec { leaf = s }) p w _
          λ s. ap λ x. record (pointers api w.own.rec) { leaf = x }

    pub defend_successor-Moved :
        (p : Shared) (w : World (Heap K V) (Own api))
        → Moved w (record (pointers api w.own.rec) { successor = p }) (defend_successor api p w)
    unfolding defend_successor
    defend_successor-Moved p w =
        defend-Moved (λ rec. rec.successor) (λ s rec. record rec { successor = s }) p w _
          λ s. ap λ x. record (pointers api w.own.rec) { successor = x }

    pub defend_ancestor-Moved :
        (p : Shared) (w : World (Heap K V) (Own api))
        → Moved w (record (pointers api w.own.rec) { ancestor = p }) (defend_ancestor api p w)
    unfolding defend_ancestor
    defend_ancestor-Moved p w =
        defend-Moved (λ rec. rec.ancestor) (λ s rec. record rec { ancestor = s }) p w _
          λ s. ap λ x. record (pointers api w.own.rec) { ancestor = x }

    pub advance_ancestor-Moved :
        (prev_tag : Bool) (w : World (Heap K V) (Own api))
        → Moved w
            (advance_upper (pointers api w.own.rec) prev_tag)
            (advance_ancestor api prev_tag w)
    unfolding advance_ancestor get_pointers
    advance_ancestor-Moved true w = moved refl
    advance_ancestor-Moved false w =
        Moved-bind _ (defend_ancestor-Moved (deref_shield w.own.rec.parent) w) λ own e. Moved-put (
          Moved-bind
            (λ _. lift (modify_record api λ rec. record rec { successor_dir = rec.leaf_dir }))
            (defend_successor-Moved (deref_shield own.rec.leaf) (put own w))
            λ own' e'. moved (
              ap {A = Seek.SeekRecord} (λ q. record q { successor_dir = q.leaf_dir }) e'
              ∙ ap {A = Seek.SeekRecord}
                  (λ q. record q { successor = q.leaf; successor_dir = q.leaf_dir }) e))

    pub advance_leaf-Moved :
        (curr : Shared) (dir : Direction) (w : World (Heap K V) (Own api))
        → Moved w
            (record (pointers api w.own.rec) {
              parent = deref_shield w.own.rec.leaf;
              leaf = unmarked curr;
              leaf_dir = dir;
            })
            (advance_leaf api curr dir w)
    unfolding advance_leaf
    advance_leaf-Moved curr dir w =
        let swapped = record w.own {
          rec = record w.own.rec { parent = w.own.rec.leaf; leaf = w.own.rec.parent };
        } in
        Moved-put (
          Moved-bind (λ _. lift (modify_record api λ rec. record rec { leaf_dir = dir }))
            (defend_leaf-Moved (unmarked curr) (put swapped w))
            λ own e. moved (ap {A = Seek.SeekRecord} (λ q. record q { leaf_dir = dir }) e))
