-- ===== src/Bench/Prefill/Filled.antt =====
-- main.rs: what a filled map holds, by either strategy.
use pebr_benchmark.Base.{
  ℕ, zero, suc, ◌≡◌, refl, ap, ◌∙◌, sym, Bool, Bool-cases, inl, inr, List, [], ◌∷◌, ltb, length,
}
use pebr_benchmark.Ord.{Ord}
use pebr_benchmark.World.{World, quiet, Cmd, pure, ◌>>◌}
use pebr_benchmark.World.Then.{same_then, then_assoc}
use pebr_benchmark.World.Returns.{Returns, returns, bind}
use pebr_benchmark.SortedMap.{Entries}
use pebr_benchmark.SortedMap
use pebr_benchmark.SortedMap.Commute.{insert_comm}
use pebr_benchmark.Bench.Config.{RandApi, Config}
use pebr_benchmark.Bench.Prefill.Decreasing.{
  InOrder, sort_decreasing-IsDecreasing, times-sort_decreasing, length-sort_decreasing,
}
use pebr_benchmark.Bench.Prefill.{
  PrefillStrategy, random, decreasing, insert_decreasing, sort_decreasing, sample_keys, insert_all,
  insert_key, fill_random, prefill,
}

module _ {K : Type 0} ⦃o : Ord K⦄ (to_string : ℕ → K) where
  -- The entries after the keys are inserted one by one, each as its own value.
  unfoldable pub filled : List ℕ → Entries K K → Entries K K
  filled [] xs = xs
  filled (k ∷ ks) xs = filled ks (SortedMap.insert (to_string k) (to_string k) xs)

  filled-insert_decreasing :
      (k : ℕ) (ks : List ℕ) (xs : Entries K K)
      → filled (insert_decreasing k ks) xs ≡ filled (k ∷ ks) xs
  unfolding filled
  filled-insert_decreasing k [] xs = refl
  filled-insert_decreasing k (j ∷ js) xs = elim (Bool-cases (ltb j k)) [
    | inl e ↦ rw e refl
    | inr e ↦ rw e (
        filled-insert_decreasing k js _
        ∙ ap (filled js) (insert_comm (λ s. s) (to_string k) (to_string j) xs))
  ]

  -- The order does not matter.
  pub filled-sort_decreasing :
      (ks : List ℕ) (xs : Entries K K) → filled (sort_decreasing ks) xs ≡ filled ks xs
  unfolding filled
  filled-sort_decreasing [] xs = refl
  filled-sort_decreasing (k ∷ ks) xs =
      filled-insert_decreasing k (sort_decreasing ks) xs ∙ filled-sort_decreasing ks _

length-sample_keys :
    (api : RandApi) (n : ℕ) (dist : api.Uniform) (rng : api.Rng)
    → length (sample_keys api n dist rng).0 ≡ n
length-sample_keys api zero dist rng = refl
length-sample_keys api (suc n) dist rng = ap suc (length-sample_keys api n dist _)

module _ {K : Type 0} (to_string : ℕ → K) {H S : Type 0} (map_insert : K → K → Cmd H S Bool) where
  fill_random-keys :
      (api : RandApi) (n : ℕ) (dist : api.Uniform) (rng : api.Rng) (w : World H S)
      → fill_random to_string map_insert api n dist rng w
        ≡ (insert_all to_string map_insert (sample_keys api n dist rng).0
              >> pure (sample_keys api n dist rng).1)
            w
  unfolding fill_random insert_all
  fill_random-keys api zero dist rng w = refl
  fill_random-keys api (suc n) dist rng w =
      let (k, rng1) = api.sample_key dist rng in
      same_then (insert_key to_string map_insert k w) _ _
        (λ u v. fill_random-keys api n dist rng1 v)
      ∙ sym (then_assoc (insert_key to_string map_insert k w) _ _)

  -- The keys that a strategy inserts, in its order.
  abbrev inserted : PrefillStrategy → List ℕ → List ℕ
  inserted random drawn = drawn
  inserted decreasing drawn = sort_decreasing drawn

  prefill-keys :
      (strategy : PrefillStrategy) {api : RandApi} (config : Config api) (rng : api.Rng)
      → (w : World H S)
      → prefill to_string map_insert strategy config rng w
        ≡ (insert_all to_string map_insert
                (inserted strategy (sample_keys api config.prefill config.key_dist rng).0)
              >> pure (sample_keys api config.prefill config.key_dist rng).1)
            w
  unfolding prefill
  prefill-keys random {api} config rng w = fill_random-keys api config.prefill config.key_dist rng w
  prefill-keys decreasing {api} config rng w = refl

  inserted-InOrder :
      (strategy : PrefillStrategy) (drawn : List ℕ)
      → InOrder strategy drawn (inserted strategy drawn)
  inserted-InOrder random drawn = refl
  inserted-InOrder decreasing drawn =
      (sort_decreasing-IsDecreasing drawn, λ i. times-sort_decreasing i drawn)

  length-inserted :
      (strategy : PrefillStrategy) (drawn : List ℕ)
      → length (inserted strategy drawn) ≡ length drawn
  length-inserted random drawn = refl
  length-inserted decreasing drawn = length-sort_decreasing drawn

  module _ ⦃o : Ord K⦄ where
    filled-inserted :
        (strategy : PrefillStrategy) (drawn : List ℕ) (xs : Entries K K)
        → filled to_string (inserted strategy drawn) xs ≡ filled to_string drawn xs
    filled-inserted random drawn xs = refl
    filled-inserted decreasing drawn xs = filled-sort_decreasing to_string drawn xs

    -- An undisturbed map that has room for a number of insertions, each that of a dictionary.
    module _ (Holds : ℕ → Entries K K → H → S → Type 0)
        (insert_returns : (room : ℕ) (xs : Entries K K) (k : K) (h : H) (s : S)
          → Holds (suc room) xs h s
          → Returns
              (λ inserted h' s'. Holds room (SortedMap.insert k k xs) h' s')
              (map_insert k k (quiet h s))) where
      insert_all-Returns :
          (ks : List ℕ) (xs : Entries K K) (h : H) (s : S)
          → Holds (length ks) xs h s
          → Returns
              (λ done h' s'. Holds 0 (filled to_string ks xs) h' s')
              (insert_all to_string map_insert ks (quiet h s))
      unfolding insert_all filled
      insert_all-Returns [] xs h s i = returns i
      insert_all-Returns (k ∷ ks) xs h s i =
          bind _
            (bind _ (insert_returns (length ks) xs (to_string k) h s i)
              λ inserted h1 s1 i1. returns i1)
            λ done h2 s2 i2. insert_all-Returns ks _ h2 s2 i2

      -- On an undisturbed map that has room for the keys to insert and whose insertion is that
      -- of a dictionary: either strategy returns and draws the same keys; it inserts them in the
      -- order that they were drawn, or from the largest to the smallest, each as often as it was
      -- drawn; and in either case it leaves the dictionary in which they are inserted in the
      -- order that they were drawn.
      pub prefill-Returns :
          (strategy : PrefillStrategy) {api : RandApi} (config : Config api) (rng : api.Rng)
          → (xs : Entries K K) (h : H) (s : S) → Holds config.prefill xs h s
          → let drawn = sample_keys api config.prefill config.key_dist rng in
            (keys : List ℕ) × InOrder strategy drawn.0 keys
            × (prefill to_string map_insert strategy config rng (quiet h s)
                ≡ (insert_all to_string map_insert keys >> pure drawn.1) (quiet h s))
            × Returns
                (λ rng' h' s'. (rng' ≡ drawn.1) × Holds 0 (filled to_string drawn.0 xs) h' s')
                (prefill to_string map_insert strategy config rng (quiet h s))
      prefill-Returns strategy {api} config rng xs h s i =
          let drawn = sample_keys api config.prefill config.key_dist rng in
          let keys = inserted strategy drawn.0 in
          let number : length keys ≡ config.prefill =
            length-inserted strategy drawn.0
            ∙ length-sample_keys api config.prefill config.key_dist rng in
          let run = prefill-keys strategy config rng (quiet h s) in
          (
            keys,
            inserted-InOrder strategy drawn.0,
            run,
            rw run (
                bind _ (insert_all-Returns keys xs h s (rw number i)) λ done h' s' i'.
                  returns (refl, rw (sym (filled-inserted strategy drawn.0 xs)) i')),
          )
