-- ===== src/Ebr/HashMap/Dictionary.antt =====
-- ebr/michael_hash_map.rs against a dictionary given as a function.
use mathlib.Core.Path.{subst}
use pebr_benchmark.Base.{
  ℕ, suc, ◌<◌, ◌≡◌, ◌≢◌, ◌∙◌, refl, sym, ap, Option, is_none, List, [], ◌∷◌, length, arith,
}
use pebr_benchmark.Ord.{Ord}
use pebr_benchmark.SortedMap.{Entries, lookup}
use pebr_benchmark.SortedMap
use pebr_benchmark.SortedMap.Assign.{
  assign, erase, lookup-insert_any, lookup-remove_any, assign-agree, assign_other, erase-agree,
  erase_other,
}
use pebr_benchmark.World.{ok, quiet}
use pebr_benchmark.World.Returns
use pebr_benchmark.World.Returns.{Returns}
use pebr_benchmark.Ebr.LinkedList.Heap.{Heap}
use pebr_benchmark.Ebr.LinkedList.Chain.{AllLive, Cell, all_entries, live_entries}
use pebr_benchmark.Ebr.LinkedList.Get.{Leads, harris_michael_get-lookup}
use pebr_benchmark.Ebr.LinkedList.Alone.{Alone}
use pebr_benchmark.Ebr.LinkedList.Update.{Clean, Holds}
use pebr_benchmark.Ebr.LinkedList.Insert.{harris_michael_insert-Alone, length-all_entries}
use pebr_benchmark.Ebr.LinkedList.Remove.{harris_michael_remove-Alone}
use pebr_benchmark.Ebr.HashMap.{HashMap, get, insert, remove}
use pebr_benchmark.Ebr.HashMap.Table.{Maps, slot, slot-below, get_bucket-ok, replace-Maps}

module _ {K V : Type 0} where
  live_all : (cs : List (Cell K V)) → AllLive cs → live_entries cs ≡ all_entries cs
  live_all [] live = refl
  live_all (c ∷ cs) live = rw live.0 (ap (λ m. (c.key, c.value) ∷ m) (live_all cs live.1))

module _ {K V : Type 0} ⦃o : Ord K⦄ (hash : K → ℕ) (rounds depth : ℕ) (map : HashMap) (key : K)
    (h : Heap K V) (m : K → Option V) (t : Maps hash h map m)
    (enough : length (t.cells (slot hash map key)) < depth) where
  bucket : Clean h (t.list (slot hash map key)) (t.cells (slot hash map key))
  bucket = t.clean (slot hash map key) (slot-below hash map key t)

  elsewhere : (k : K) → slot hash map k ≢ slot hash map key → k ≢ key
  elsewhere k ne e = ne (ap (slot hash map) e)

  mapped_in :
      (k : K)
      → slot hash map k ≡ slot hash map key
      → m k ≡ lookup k (all_entries (t.cells (slot hash map key)))
  mapped_in k e = subst (λ i. m k ≡ lookup k (all_entries (t.cells i))) e (t.view k)

  abbrev held : Holds h (t.list (slot hash map key)) (all_entries (t.cells (slot hash map key)))
  held = record { cells = t.cells (slot hash map key); clean = bucket; listed = refl }

  few : length (all_entries (t.cells (slot hash map key))) < depth
  few = omega (arith, length-all_entries (t.cells (slot hash map key)), enough)

  -- Undisturbed, on a hash map that stands for the dictionary m, with a round and a depth above
  -- the number of nodes in the key's bucket: get returns what m has at the key, and changes
  -- nothing.
  pub get-Maps : get hash (suc rounds) depth map key (quiet h tt) ≡ ok (m key) (quiet h tt)
  unfolding get
  get-Maps =
      let leads : Leads h (t.list (slot hash map key)) (t.cells (slot hash map key)) = record {
        from = bucket.linked.from;
        chain = bucket.linked.chain;
        rising = bucket.rising;
      } in
      rw
        (
          get_bucket-ok hash h map m key t,
          t.view key,
          sym (live_all (t.cells (slot hash map key)) bucket.live),
        )
        (harris_michael_get-lookup rounds depth (t.list (slot hash map key)) key leads enough
          bucket.live)

  inserted-Maps :
      (value : V) (h' : Heap K V)
      → (s : Holds h'
          (t.list (slot hash map key))
          (SortedMap.insert key value (all_entries (t.cells (slot hash map key)))))
      → Alone h.fresh h h' (t.list (slot hash map key)) (t.cells (slot hash map key)) s.cells
      → Maps hash h' map (assign key value m)
  inserted-Maps value h' s alone =
      let xs = all_entries (t.cells (slot hash map key)) in
      replace-Maps hash h h' map m (assign key value m) t (slot hash map key)
        (slot-below hash map key t) s.cells s.clean alone
        (λ k e.
          assign-agree key k value m (λ j. lookup j xs) (mapped_in k e) (mapped_in key refl)
          ∙ sym (lookup-insert_any key k value xs)
          ∙ ap (λ ys. lookup k ys) (sym s.listed))
        (λ k ne. assign_other key k value m (elsewhere k ne))

  -- Undisturbed, on a hash map that stands for the dictionary m, with a round and a depth above
  -- the number of nodes in the key's bucket: insert returns, answers whether m lacks the key,
  -- and leaves a map that stands for m with the value at the key (a key that is there keeps its
  -- value).
  pub insert-Maps :
      (value : V)
      → Returns
          (λ inserted h' s'. (inserted ≡ is_none (m key)) × Maps hash h' map (assign key value m))
          (insert hash (suc rounds) depth map key value (quiet h tt))
  unfolding insert
  insert-Maps value =
      rw (get_bucket-ok hash h map m key t, t.view key)
        (Returns.weaken
          (harris_michael_insert-Alone rounds depth (t.list (slot hash map key)) key value h
            (all_entries (t.cells (slot hash map key))) held few)
          λ inserted h' s' (answer, s, alone). (answer, inserted-Maps value h' s alone))

  removed-Maps :
      (h' : Heap K V)
      → (s : Holds h'
          (t.list (slot hash map key))
          (SortedMap.remove key (all_entries (t.cells (slot hash map key)))))
      → Alone h.fresh h h' (t.list (slot hash map key)) (t.cells (slot hash map key)) s.cells
      → Maps hash h' map (erase key m)
  removed-Maps h' s alone =
      let xs = all_entries (t.cells (slot hash map key)) in
      replace-Maps hash h h' map m (erase key m) t (slot hash map key) (slot-below hash map key t)
        s.cells s.clean alone
        (λ k e.
          erase-agree key k m (λ j. lookup j xs) (mapped_in k e)
          ∙ sym (lookup-remove_any key k xs bucket.rising)
          ∙ ap (λ ys. lookup k ys) (sym s.listed))
        (λ k ne. erase_other key k m (elsewhere k ne))

  -- Undisturbed, on a hash map that stands for the dictionary m, with a round and a depth above
  -- the number of nodes in the key's bucket: remove returns, answers what m has at the key, and
  -- leaves a map that stands for m without the key.
  pub remove-Maps :
      Returns
        (λ found h' s'. (found ≡ m key) × Maps hash h' map (erase key m))
        (remove hash (suc rounds) depth map key (quiet h tt))
  unfolding remove
  remove-Maps =
      rw (get_bucket-ok hash h map m key t, t.view key)
        (Returns.weaken
          (harris_michael_remove-Alone rounds depth (t.list (slot hash map key)) key h
            (all_entries (t.cells (slot hash map key))) held few)
          λ found h' s' (answer, s, deferred, alone). (answer, removed-Maps h' s alone))
