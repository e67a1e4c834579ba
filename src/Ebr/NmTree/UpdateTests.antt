-- ===== src/Ebr/NmTree/UpdateTests.antt =====
-- The theorems on the tree of ebr/natarajan_mittal_tree.rs as a dictionary, at a small tree.
use pebr_benchmark.Base.{ℕ, ◌+◌, ◌≡◌, refl, none, some, [], ◌∷◌, is_none, if◌then◌else◌, arith}
use pebr_benchmark.Ord.{nat_ord}
use pebr_benchmark.SortedMap.{Entries, lookup, insert, remove}
use pebr_benchmark.Shared.{shared, hit, count}
use pebr_benchmark.World.{quiet}
use pebr_benchmark.World.Returns.{Returns}
use pebr_benchmark.Ebr.NmTree.Map
use pebr_benchmark.Ebr.NmTree.Tests.{two_leaves, placed}
use pebr_benchmark.Ebr.NmTree.Represents.{Represents, IsAllocated}
use pebr_benchmark.Ebr.NmTree.Path.{occ, plug}
use pebr_benchmark.Ebr.NmTree.Landing.{topmost}
use pebr_benchmark.Ebr.NmTree.Empty.{nothing, new-Represents}
use pebr_benchmark.Ebr.NmTree.Insert.{insert-Represents}
use pebr_benchmark.Ebr.NmTree.Remove.{remove-Represents}

abbrev two_entries : Entries ℕ ℕ
two_entries = (1, 10) ∷ (2, 20) ∷ []

placed-accounted :
    (a : ℕ)
    → IsAllocated placed a
    → occ a (plug (topmost 1 2 8 9) two_leaves) + count a placed.deferred ≡ 1
unfolding hit count
placed-accounted a (n, e) = ground arith

placed-Represents : Represents placed 1 two_entries
unfolding count
placed-Represents = record {
  s = 2;
  q = 8;
  p = 9;
  tree = two_leaves;
  stored = (
    omega arith,
    refl,
    (
      omega arith,
      refl,
      (
        omega arith,
        refl,
        (omega arith, refl, (omega arith, refl), (omega arith, refl)),
        (omega arith, refl),
      ),
      (omega arith, refl),
    ),
    (omega arith, refl),
  );
  crown = tt;
  ordered = ((tt, (tt, tt)), tt, ((refl, tt), ((λ e. ground arith), tt), tt, tt), tt);
  listed = refl;
  positive = omega arith;
  unused = λ a beyond. ground arith;
  accounted = placed-accounted;
  only = λ a p. absurd (omega arith);
}

insert-Represents_example :
    Returns
      (λ left h s.
        (left ≡ (if is_none (lookup 5 two_entries) then none else some (5, 50)))
        × Represents h 1 (insert 5 50 two_entries))
      (Map.insert 1 6 (shared 1 0) 5 50 (quiet placed tt))
unfolding placed-Represents
insert-Represents_example = insert-Represents 5 50 placed-Represents 0 6 (omega arith)

remove-Represents_example :
    Returns
      (λ found h s. (found ≡ lookup 2 two_entries) × Represents h 1 (remove 2 two_entries))
      (Map.remove 1 6 (shared 1 0) 2 (quiet placed tt))
unfolding placed-Represents
remove-Represents_example = remove-Represents 2 placed-Represents 0 6 (omega arith) (omega arith)

new-Represents_example :
    Returns
      (λ r h s. (r ≡ shared 5 0) × Represents h 5 [])
      (Map.new (quiet (nothing {K = ℕ} {V = ℕ} 1) tt))
new-Represents_example = new-Represents 1 (omega arith)
