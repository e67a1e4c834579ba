-- ===== src/Pebr/BonsaiTree/Keeps/Map.antt =====
-- The shields of pebr/bonsai_tree.rs: the map's operations.
use pebr_benchmark.Base.{
  ℕ, zero, suc, ◌≤◌, Bool, true, false, inl, inr, List, [], ◌∷◌, ◌++◌, append_assoc, length,
  length-append, refl, if◌then◌else◌, arith,
}
use pebr_benchmark.Ord.{Ord}
use pebr_benchmark.Shared.{Shared}
use pebr_benchmark.World.{World, Run, ok, fault, out_of_fuel, pure, stop, and_then, ◌>>=◌}
use pebr_benchmark.Pebr.ShieldPool.{ShieldApi}
use pebr_benchmark.Pebr.ShieldPool.Full.{IsFull}
use pebr_benchmark.Pebr.BonsaiTree.Node.{
  Heap, store_left, store_right, free, defer_destroy, load_root, cas_root,
}
use pebr_benchmark.Pebr.BonsaiTree.State.{C, Local, free_all, abort, retire_all, commit, reset}
use pebr_benchmark.Pebr.BonsaiTree.Attempt.{try_insert, try_remove}
use pebr_benchmark.Pebr.BonsaiTree.Shields.{E, Result, done, err, on_result}
use pebr_benchmark.Pebr.BonsaiTree.Map.{insert, remove}
use pebr_benchmark.Pebr.BonsaiTree.Keeps.{
  IsKept, Keeps, Keeps-bind, Keeps-pure, Keeps-modify_state, Keeps-repin, keeps,
}
use pebr_benchmark.Pebr.BonsaiTree.Keeps.Tries.{IsTried, Tries, tries}
use pebr_benchmark.Pebr.BonsaiTree.Keeps.Edit.{Tries-do_insert, Tries-do_remove}

module _ (api : ShieldApi) {K V : Type 0} where
  Keeps-free : (p : Shared) → Keeps api {K = K} {V = V} (free p)
  unfolding free
  Keeps-free p = search keeps

  Keeps-store_left : (p q : Shared) → Keeps api {K = K} {V = V} (store_left p q)
  unfolding store_left
  Keeps-store_left p q = search keeps

  Keeps-store_right : (p q : Shared) → Keeps api {K = K} {V = V} (store_right p q)
  unfolding store_right
  Keeps-store_right p q = search keeps

  Keeps-defer_destroy : (p : Shared) → Keeps api {K = K} {V = V} (defer_destroy p)
  unfolding defer_destroy
  Keeps-defer_destroy p = search keeps

  Keeps-load_root : Keeps api {K = K} {V = V} load_root
  unfolding load_root
  Keeps-load_root = search keeps

  Keeps-cas_root : (p q : Shared) → Keeps api {K = K} {V = V} (cas_root p q)
  unfolding cas_root
  Keeps-cas_root p q = search keeps

  Keeps-free_all : (ps : List Shared) → Keeps api {K = K} {V = V} (free_all api ps)
  unfolding free_all
  Keeps-free_all [] = Keeps-pure api tt
  Keeps-free_all (p ∷ ps) = Keeps-bind api _ _ (Keeps-free p) λ _. Keeps-free_all ps

  Keeps-retire_all : (ps : List Shared) → Keeps api {K = K} {V = V} (retire_all api ps)
  unfolding retire_all
  Keeps-retire_all [] = Keeps-pure api tt
  Keeps-retire_all (p ∷ ps) = Keeps-bind api _ _ (Keeps-store_left p _) λ _.
      Keeps-bind api _ _ (Keeps-store_right p _)
        λ _. Keeps-bind api _ _ (Keeps-defer_destroy p) λ _. Keeps-retire_all ps

  Keeps-abort : Keeps api {K = K} {V = V} (abort api)
  unfolding abort reset
  Keeps-abort = record {
    kept = λ held w v.
        (Keeps-bind api _ _ (Keeps-modify_state api (reset api) λ s. refl)
            λ _. Keeps-free_all w.own.state.new_nodes).kept
          held w v;
  }

  Keeps-commit : Keeps api {K = K} {V = V} (commit api)
  unfolding commit reset
  Keeps-commit = record {
    kept = λ held w v.
        (Keeps-bind api _ _ (Keeps-modify_state api (reset api) λ s. refl)
            λ _. Keeps-retire_all w.own.state.retired_nodes).kept
          held w v;
  }

  -- At most `n` shields of the pool are neither available nor held.
  abbrev pub Loses :
      {A : Type 0} → ℕ → List ℕ → Run (Heap K V) (Local api.Shield api.Guard) A → Type 0
  Loses n held (ok a w) =
      (lost : List ℕ) × (length lost ≤ n) × IsFull w.own.state.shields (lost ++ held)
  Loses n held _ = Unit

  record Spends {A : Type 0} (n : ℕ) (m : C api K V A) : Type 0 where
    spent :
        (held : List ℕ) (w : World (Heap K V) (Local api.Shield api.Guard))
        → IsFull w.own.state.shields held
        → Loses n held (m w)

  Spends-pure : {A : Type 0} (n : ℕ) (a : A) → Spends n (pure a)
  Spends-pure n a = record { spent = λ held w f. ([], omega arith, f) }

  Spends-stop : {A : Type 0} (n : ℕ) → Spends n (stop {A = A})
  Spends-stop n = record { spent = λ held w f. tt }

  Spends-if :
      {A : Type 0} (n : ℕ) (b : Bool) (m k : C api K V A)
      → Spends n m
      → Spends n k
      → Spends n (if b then m else k)
  Spends-if n true m k p q = p
  Spends-if n false m k p q = q

  resumed :
      {A B : Type 0} (n : ℕ) (held : List ℕ) (r : Run (Heap K V) (Local api.Shield api.Guard) A)
      (k : A → C api K V B)
      → IsKept api held r
      → ((a : A) → Spends n (k a))
      → Loses n held (and_then r k)
  resumed n held (ok a w) k f next = (next a).spent held w f
  resumed n held fault k f next = tt
  resumed n held out_of_fuel k f next = tt

  Spends-bind :
      {A B : Type 0} (n : ℕ) (m : C api K V A) (k : A → C api K V B)
      → Keeps api m
      → ((a : A) → Spends n (k a))
      → Spends n (m >>= k)
  Spends-bind n m k first next = record {
    spent = λ held w f. resumed n held (m w) k (first.kept held w f) next;
  }

  -- One more may be lost, and one that was lost already counts with these.
  one_more :
      {A : Type 0} (n : ℕ) (held : List ℕ) (r : Run (Heap K V) (Local api.Shield api.Guard) A)
      → Loses n held r
      → Loses (suc n) held r
  one_more n held (ok a w) (lost, few, f) = (lost, omega (arith, few), f)
  one_more n held fault f = tt
  one_more n held out_of_fuel f = tt

  lost_before :
      {A : Type 0} (n i : ℕ) (held : List ℕ) (r : Run (Heap K V) (Local api.Shield api.Guard) A)
      → Loses n (i ∷ held) r
      → Loses (suc n) held r
  lost_before n i held (ok a w) (lost, few, f) = (
    lost ++ i ∷ [],
    omega (arith, few, length-append lost (i ∷ [])),
    rw (append_assoc lost (i ∷ []) held) f,
  )
  lost_before n i held fault f = tt
  lost_before n i held out_of_fuel f = tt

  -- What follows an attempt, which loses at most one shield if it is ejected.
  attempted :
      {A B : Type 0} (n : ℕ) (held : List ℕ)
      (r : Run (Heap K V) (Local api.Shield api.Guard) (Result A)) (k : A → C api K V B)
      (e : C api K V B)
      → IsTried api held r
      → ((a : A) → Spends n (k a))
      → Spends n e
      → Loses (suc n) held (and_then r λ x. on_result x k e)
  unfolding on_result
  attempted n held (ok (done a) w) k e f next again =
      one_more n held (k a w) ((next a).spent held w f)
  attempted n held (ok err w) k e (inl f) next again = one_more n held (e w) (again.spent held w f)
  attempted n held (ok err w) k e (inr (i, f)) next again =
      lost_before n i held (e w) (again.spent (i ∷ held) w f)
  attempted n held fault k e f next again = tt
  attempted n held out_of_fuel k e f next again = tt

  Spends-attempt :
      {A B : Type 0} (n : ℕ) (m : E api K V A) (k : A → C api K V B) (e : C api K V B)
      → Tries api m
      → ((a : A) → Spends n (k a))
      → Spends n e
      → Spends (suc n) (m >>= λ x. on_result x k e)
  Spends-attempt n m k e first next again = record {
    spent = λ held w f. attempted n held (m w) k e (first.tried held w f) next again;
  }

  ruleset rounds_laws = (
    Spends-bind, Spends-attempt, Spends-if, Spends-pure, Keeps-load_root, Keeps-cas_root,
    Keeps-abort, Keeps-commit, Keeps-repin,
  )

module _ (api : ShieldApi) {K V : Type 0} ⦃o : Ord K⦄ where
  Tries-try_insert :
      (depth : ℕ) (p : Shared) (k : K) (v : V) → Tries api (try_insert api depth p k v)
  unfolding try_insert
  Tries-try_insert depth p k v = search (tries, Tries-do_insert)

  Tries-try_remove :
      (depth : ℕ) (p : Shared) (k : K) → Tries api {K = K} {V = V} (try_remove api depth p k)
  unfolding try_remove
  Tries-try_remove depth p k = search (tries, Tries-do_remove)

  Spends-insert :
      (rounds depth : ℕ) (k : K) (v : V) → Spends api rounds (insert api rounds depth k v)
  unfolding insert
  Spends-insert zero depth k v = Spends-stop api 0
  Spends-insert (suc rounds) depth k v =
      search (rounds_laws, Tries-try_insert, Spends-insert rounds) depth 24

  Spends-remove :
      (rounds depth : ℕ) (k : K) → Spends api {K = K} {V = V} rounds (remove api rounds depth k)
  unfolding remove
  Spends-remove zero depth k = Spends-stop api 0
  Spends-remove (suc rounds) depth k =
      search (rounds_laws, Tries-try_remove, Spends-remove rounds) depth 24

module _ (api : ShieldApi) {K V : Type 0} ⦃o : Ord K⦄ (held : List ℕ)
    (w : World (Heap K V) (Local api.Shield api.Guard))
    (full : IsFull w.own.state.shields held) where
  -- Whatever the other threads do, and whatever the shields answer: if every shield of the pool
  -- is either available or held, just once, and `insert` returns, then so it is in the state
  -- that it leaves, with the same handles held, but for at most one lost shield for every round.
  pub insert-Loses :
      (rounds depth : ℕ) (key : K) (value : V)
      → Loses api rounds held (insert api rounds depth key value w)
  insert-Loses rounds depth key value = (Spends-insert api rounds depth key value).spent held w full

  -- Whatever the other threads do, and whatever the shields answer: if every shield of the pool
  -- is either available or held, just once, and `remove` returns, then so it is in the state
  -- that it leaves, with the same handles held, but for at most one lost shield for every round.
  pub remove-Loses :
      (rounds depth : ℕ) (key : K) → Loses api rounds held (remove api rounds depth key w)
  remove-Loses rounds depth key = (Spends-remove api rounds depth key).spent held w full
