-- ===== src/Ebr/BonsaiTree/RoundTrip.antt =====
-- ebr/bonsai_tree.rs: a missing key is inserted, looked up and removed by one thread.
use mathlib.Core.Path.{subst}
use pebr_benchmark.Base.{
  ℕ, suc, ◌≤◌, ◌<◌, ◌≡◌, ◌∙◌, ap, Bool, true, is_none, Option, none, some, length, length-append,
  arith, ◌∷◌,
}
use pebr_benchmark.Ord.{Ord}
use pebr_benchmark.SortedMap.{Entries, lookup}
use pebr_benchmark.SortedMap.RoundTrip.{lookup-insert, remove-insert, length-insert}
use pebr_benchmark.World.{pure, ◌>>=◌, quiet}
use pebr_benchmark.World.Returns
use pebr_benchmark.World.Returns.{Returns, returns}
use pebr_benchmark.Ebr.BonsaiTree.Node.{C, Heap}
use pebr_benchmark.Ebr.BonsaiTree.State.{new_state}
use pebr_benchmark.Ebr.BonsaiTree.Map
use pebr_benchmark.Ebr.BonsaiTree.Tree.{Tree, leaf, node, entries}
use pebr_benchmark.Ebr.BonsaiTree.Insert.{height}
use pebr_benchmark.Ebr.BonsaiTree.Update.{Holds, insert-Holds, remove-Holds}
use pebr_benchmark.Ebr.BonsaiTree.Get.{get-lookup}

module _ {K V : Type 0} where
  height-entries : (t : Tree K V) → height t ≤ length (entries t)
  height-entries leaf = omega arith
  height-entries (node a l k v r) =
      ground
        (arith, height-entries l, height-entries r, length-append (entries l) ((k, v) ∷ entries r))

module _ {K V : Type 0} ⦃o : Ord K⦄ where
  height-Holds : {h : Heap K V} {xs : Entries K V} (m : Holds h xs) → height m.tree ≤ length xs
  height-Holds m = omega (arith, height-entries m.tree, ap length m.listed)

  abbrev pub put_get_take : (rounds depth : ℕ) → K → V → C K V (Bool × Option V × Option V)
  put_get_take rounds depth key value = do
    inserted ← Map.insert rounds depth key value
    found ← Map.get rounds depth key
    removed ← Map.remove rounds depth key
    pure (inserted, found, removed)

  module _ (rounds depth : ℕ) {h : Heap K V} {xs : Entries K V} (m : Holds h xs)
      (enough : suc (length xs) < depth) (key : K) (value : V)
      (missing : lookup key xs ≡ none) where
    -- Undisturbed, on a map that holds the sorted entries `xs`, with a round and a depth above their
    -- number and one: `insert` of a missing key, `get` and `remove` of it return. The first answers
    -- that the key was missing, the others give the value back, and the map holds `xs` again.
    pub remove-get-insert :
        Returns
          (λ (inserted, found, removed) h' s'.
            (inserted ≡ true)
            × (found ≡ some value)
            × (removed ≡ some value)
            × Holds h' xs
            × (s' ≡ new_state))
          (put_get_take (suc rounds) depth key value (quiet h new_state))
    remove-get-insert =
        Returns.bind _ (insert-Holds rounds depth m (omega (arith, height-Holds m)) key value)
          λ inserted h' s' (new, m', clean).
            let low : height m'.tree < depth =
              omega (arith, height-Holds m', length-insert key value xs) in
            rw (clean, get-lookup key rounds depth new_state m' low)
              (Returns.bind _ (remove-Holds rounds depth m' low key)
                λ removed h'' s'' (found, m'', clean'). returns (
                  new ∙ ap is_none missing,
                  lookup-insert key value xs missing,
                  found ∙ lookup-insert key value xs missing,
                  subst (Holds h'') (remove-insert key value xs missing) m'',
                  clean',
                ))
