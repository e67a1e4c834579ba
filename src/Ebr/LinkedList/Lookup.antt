-- ===== src/Ebr/LinkedList/Lookup.antt =====
-- The lookup of ebr/list.rs by Harris's search, which may unlink, on a list without marked nodes.
use mathlib.Core.Path.{subst}
use pebr_benchmark.Base.{
  ℕ, suc, ◌<◌, ◌≡◌, ◌∙◌, refl, sym, ap, inl, inr, none, some, ◌∷◌, ◌++◌, length, arith,
}
use pebr_benchmark.Ord.{Ord}
use pebr_benchmark.SortedMap.{Entries, lookup}
use pebr_benchmark.SortedMap.Between.{lookup_between}
use pebr_benchmark.Shared.{shared}
use pebr_benchmark.World.{ok, quiet}
use pebr_benchmark.World.Returns
use pebr_benchmark.World.Returns.{returns}
use pebr_benchmark.Ebr.LinkedList.Heap.{Heap}
use pebr_benchmark.Ebr.LinkedList.Find.{find_harris}
use pebr_benchmark.Ebr.LinkedList.Map.{get}
use pebr_benchmark.Ebr.LinkedList.Variants.{harris_get}
use pebr_benchmark.Ebr.LinkedList.Chain.{all_entries, not_null, deref-ok}
use pebr_benchmark.Ebr.LinkedList.Relink.{Chain-right}
use pebr_benchmark.Ebr.LinkedList.Placed.{find_harris-Placed}
use pebr_benchmark.Ebr.LinkedList.Update.{all_entries-append, Clean, Holds, find-Placed}
use pebr_benchmark.Ebr.LinkedList.Unlink.{stored_node, looked_up}
use pebr_benchmark.Ebr.LinkedList.Insert.{length-all_entries}

module _ {K V : Type 0} ⦃o : Ord K⦄ where
  -- Undisturbed, on a list without marked nodes that holds the sorted entries xs, with a round and
  -- a depth above their number: the lookup of Harris's list returns what xs has at the key, and
  -- changes nothing.
  pub harris_get-lookup :
      (rounds depth list : ℕ) (key : K) (h : Heap K V) (xs : Entries K V)
      → Holds h list xs
      → length xs < depth
      → harris_get (suc rounds) depth list key (quiet h tt) ≡ ok (lookup key xs) (quiet h tt)
  unfolding harris_get get
  harris_get-lookup rounds depth list key h xs i enough = Returns.exact (
      Returns.bind _
        (find-Placed find_harris find_harris-Placed rounds depth list key h i.cells i.clean
          (omega (arith, length-all_entries i.cells, ap length i.listed)))
        λ (found, cursor) h' s' (same, p).
          let entries = sym i.listed ∙ ap all_entries p.split in
          elim p.spot [
            | inl (no_key, above) ↦
                let missing : none ≡ lookup key xs = sym (
                  ap (λ ys. lookup key ys) (entries ∙ all_entries-append p.before p.after)
                  ∙ lookup_between key (all_entries p.before) (all_entries p.after) p.below
                      above) in
                rw (same, no_key) (returns (missing, refl, refl))
            | inr (c, rest, there, found_key, equal) ↦
                let split_at : i.cells ≡ p.before ++ c ∷ rest =
                  p.split ∙ ap (λ ds. p.before ++ ds) there in
                let clean = subst (λ ds. Clean h list ds) split_at i.clean in
                let pos = (Chain-right h.cells p.before (c ∷ rest) clean.linked.chain).0 in
                let present : some c.value ≡ lookup key xs = sym (
                  ap (λ ys. lookup key ys) (sym i.listed ∙ ap all_entries split_at)
                  ∙ looked_up h list p.before c rest clean key equal) in
                rw
                  (
                    same,
                    found_key,
                    p.at,
                    there,
                    not_null c.addr 0 pos,
                    deref-ok h (shared c.addr 0) _ (stored_node h list p.before c rest clean),
                  )
                  (returns (present, refl, refl))
          ])
