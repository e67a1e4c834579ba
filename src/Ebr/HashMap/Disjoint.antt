-- ===== src/Ebr/HashMap/Disjoint.antt =====
-- The lists of ebr/michael_hash_map.rs in one heap: what an operation on one list leaves of another.
use pebr_benchmark.Base.{ℕ, ◌<◌, ◌≢◌, ◌∙◌, sym, List, [], ◌∷◌, All, All-imp, All-both, arith}
use pebr_benchmark.Ord.{Ord}
use pebr_benchmark.Ebr.LinkedList.Heap.{Heap}
use pebr_benchmark.Ebr.LinkedList.Chain.{Cell, Chain}
use pebr_benchmark.Ebr.LinkedList.Relink.{Off}
use pebr_benchmark.Ebr.LinkedList.Alone.{Alone}
use pebr_benchmark.Ebr.LinkedList.Update.{Clean}

module _ {K V : Type 0} where
  -- Two lists have no node in common.
  abbrev pub Disjoint : List (Cell K V) → List (Cell K V) → Type 0
  Disjoint cs ds = All (λ d. Off d.addr cs) ds

  Disjoint-nil : (cs : List (Cell K V)) → Disjoint [] cs
  Disjoint-nil [] = tt
  Disjoint-nil (c ∷ cs) = (tt, Disjoint-nil cs)

  pub Disjoint-sym : (cs ds : List (Cell K V)) → Disjoint cs ds → Disjoint ds cs
  Disjoint-sym cs [] far = Disjoint-nil cs
  Disjoint-sym cs (d ∷ ds) far =
      All-both _ _ cs (All-imp (λ c ne e. ne (sym e)) cs far.0) (Disjoint-sym cs ds far.1)

  Chain-Alone :
      {limit : ℕ} {h h' : Heap K V} {list : ℕ} {cs cs' : List (Cell K V)} (ds : List (Cell K V))
      → Alone limit h h' list cs cs'
      → All (λ d. (d.addr < limit) × Off d.addr cs) ds
      → Chain h.cells ds
      → Chain h'.cells ds
  Chain-Alone [] k far st = tt
  Chain-Alone (d ∷ ds) k far st =
      (st.0, k.cells d.addr far.0.0 far.0.1 ∙ st.1, Chain-Alone ds k far.1 st.2)

module _ {K V : Type 0} ⦃o : Ord K⦄ {h h' : Heap K V} {list other : ℕ} {cs cs' : List (Cell K V)}
    (ds : List (Cell K V)) (k : Alone h.fresh h h' list cs cs') (far : Disjoint cs ds)
    (i : Clean h other ds) where
  -- Another list stays as it is.
  pub Clean-Alone : other ≢ list → Clean h' other ds
  Clean-Alone ne = record {
    linked = record {
      from = k.heads _ ne ∙ i.linked.from;
      chain = Chain-Alone ds k (All-both _ _ ds i.bounded far) i.linked.chain;
      apart = i.linked.apart;
    };
    live = i.live;
    rising = i.rising;
    bounded = All-imp (λ d low. omega (arith, k.grows)) ds i.bounded;
    allocates = omega (arith, k.grows, i.allocates);
  }

  -- It still has no node in common with the list.
  pub Disjoint-Alone : Disjoint cs' ds
  Disjoint-Alone = All-imp (λ d p. k.joined d.addr p.0 p.1) ds (All-both _ _ ds i.bounded far)
