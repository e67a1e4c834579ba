-- ===== src/Pebr/LinkedList/Get.antt =====
-- The lookup of pebr/list.rs, with an ejection of the thread and the new start after it.
use pebr_benchmark.Base.{ℕ, suc, ◌<◌, ◌≡◌, refl, inl, inr, Bool, true, List, length}
use pebr_benchmark.Ord.{Ord}
use pebr_benchmark.SortedMap.{lookup}
use pebr_benchmark.Shared.{Shared, shared}
use pebr_benchmark.World.{quiet}
use pebr_benchmark.World.Returns
use pebr_benchmark.World.Returns.{Returns, returns}
use pebr_benchmark.Ebr.LinkedList.Chain.{AllLive, Cell, first, live_entries}
use pebr_benchmark.Pebr.ShieldPool.{ShieldApi}
use pebr_benchmark.Pebr.LinkedList.Heap.{Heap}
use pebr_benchmark.Pebr.LinkedList.Cursor.{
  Local, init_find, on_outcome, prev_shared, curr_shared, repin,
}
use pebr_benchmark.Pebr.LinkedList.Find.{Finder, find_harris_michael, find_harris_herlihy_shavit}
use pebr_benchmark.Pebr.LinkedList.Map.{find, get}
use pebr_benchmark.Pebr.LinkedList.Variants.{harris_michael_get, harris_herlihy_shavit_get}
use pebr_benchmark.Pebr.LinkedList.Chain.{Leads, load_head-ok, deref-ok}
use pebr_benchmark.Pebr.LinkedList.Search.{
  Answer, Seen, herlihy_shavit_loop-Seen, harris_michael_loop-Seen,
}

module _ (api : ShieldApi) where
  open api use {Guard, Shield, defend_shield, fake_shield, deref_shield, elapse}

  module _ (Calm : Guard → Type 0) (calm_elapse : (g : Guard) → Calm g → Calm (elapse g))
      (calm_defend : (s : Shield) (p : Shared) (g : Guard)
        → Calm g
        → (defend_shield s p g).1 ≡ true)
      (calm_repin : (g : Guard) → Calm (api.repin g))
      (defended : (s : Shield) (p : Shared) (g : Guard)
        → (defend_shield s p g).1 ≡ true
        → deref_shield (defend_shield s p g).0 ≡ p)
      (faked : (s : Shield) (p : Shared) → deref_shield (fake_shield s p) ≡ p) {K V : Type 0}
      ⦃o : Ord K⦄ (rounds depth : ℕ) (list : Shared) (key : K) (h : Heap K V)
      (cs : List (Cell K V)) where
    abbrev Found : Bool → Heap K V → Local Shield Guard → Type 0
    Found found h' l = (h' ≡ h) × Answer api key h cs found l

    -- The search is right from the list's head on.
    abbrev Sees : Finder api K V → Type 0
    Sees finder =
        (l : Local Shield Guard)
        → deref_shield l.cursor.prev ≡ list
        → Returns (Seen api key h Calm cs l.guard) (finder depth key (quiet h l))

    abbrev started : Local Shield Guard → Local Shield Guard
    started l = record l { cursor = record l.cursor { prev = fake_shield l.cursor.prev list } }

    module _ (finder : Finder api K V) (sees : Sees finder) where
      find-Calm :
          (l : Local Shield Guard)
          → Calm l.guard
          → Returns Found (find api finder (suc rounds) depth list key (quiet h l))
      unfolding find init_find on_outcome
      find-Calm l still =
          Returns.bind _ (sees (started l) (faked l.cursor.prev list)) λ r h' l' (same, ending).
            elim ending [
              | inl (e, restless) ↦ absurd (restless still)
              | inr (found, e, a) ↦ rw (same, e) (returns (refl, a))
            ]

      find-Found :
          (l : Local Shield Guard)
          → Returns Found (find api finder (suc (suc rounds)) depth list key (quiet h l))
      unfolding find init_find on_outcome repin
      find-Found l =
          Returns.bind _ (sees (started l) (faked l.cursor.prev list)) λ r h' l' (same, ending).
            elim ending [
              | inl (e, restless) ↦
                  rw (same, e)
                    (find-Calm (record l' { guard = api.repin l'.guard }) (calm_repin l'.guard))
              | inr (found, e, a) ↦ rw (same, e) (returns (refl, a))
            ]

      get-Found :
          (l : Local Shield Guard)
          → Returns
              (λ answer h' l'. (answer ≡ lookup key (live_entries cs)) × (h' ≡ h))
              (get api finder (suc (suc rounds)) depth list key (quiet h l))
      unfolding get curr_shared
      get-Found l = Returns.bind _ (find-Found l) λ found h' l' (same, a). elim a [
        | inl (e, out) ↦ rw (same, e, out) (returns (refl, refl))
        | inr (n, e, there, value) ↦
            rw (same, e, value, deref-ok h l' (deref_shield l'.cursor.curr) n there)
              (returns (refl, refl))
      ]

    module _ (m : Leads h list cs) (enough : length cs < depth) (l : Local Shield Guard) where
      -- Undisturbed, with two rounds and a depth above the number of nodes, on a list whose keys
      -- rise strictly, where a shield holds what it defends and a guard is not ejected any more
      -- after a repin: the lookup of Herlihy and Shavit returns what the unmarked nodes have at
      -- the key and leaves the memory as it is, even if the thread is ejected on its way.
      pub harris_herlihy_shavit_get-Returns :
          Returns
            (λ answer h' l'. (answer ≡ lookup key (live_entries cs)) × (h' ≡ h))
            (harris_herlihy_shavit_get api (suc (suc rounds)) depth list key (quiet h l))
      unfolding harris_herlihy_shavit_get find_harris_herlihy_shavit prev_shared
      harris_herlihy_shavit_get-Returns =
          get-Found (find_harris_herlihy_shavit api)
            (λ v at_list.
              rw (at_list, load_head-ok h v list (shared (first cs) 0) m.from)
                (herlihy_shavit_loop-Seen api key h Calm calm_elapse calm_defend defended depth cs 0
                  v enough m.chain m.rising))
            l

      -- Undisturbed, with two rounds and a depth above the number of nodes, on a list whose keys
      -- rise strictly and in which no node is marked, where a shield holds what it defends and a
      -- guard is not ejected any more after a repin: the lookup of Harris and Michael returns
      -- what the list has at the key and leaves the memory as it is, even if the thread is
      -- ejected on its way.
      pub harris_michael_get-Returns :
          AllLive cs
          → Returns
              (λ answer h' l'. (answer ≡ lookup key (live_entries cs)) × (h' ≡ h))
              (harris_michael_get api (suc (suc rounds)) depth list key (quiet h l))
      unfolding harris_michael_get find_harris_michael prev_shared
      harris_michael_get-Returns live =
          get-Found (find_harris_michael api)
            (λ v at_list.
              rw (at_list, load_head-ok h v list (shared (first cs) 0) m.from)
                (harris_michael_loop-Seen api key h Calm calm_elapse calm_defend defended depth cs v
                  enough m.chain live m.rising))
            l
