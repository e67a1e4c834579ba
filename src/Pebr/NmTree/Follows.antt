-- ===== src/Pebr/NmTree/Follows.antt =====
-- Runs over different private states compared: a run over shields with a run that has none.
use pebr_benchmark.Base.{
  ◌≡◌, refl, ap, Bool, true, false, Option, none, some, List, [], ◌∷◌, if◌then◌else◌,
}
use pebr_benchmark.Pebr.Result.{Result, done}
use pebr_benchmark.World.{
  World, Run, ok, fault, out_of_fuel, Cmd, pure, crash, stop, and_then, ◌>>=◌, ◌>>◌, access, atomic,
}

abbrev pub put : {H L : Type 0} → L → World H L → World H L
put l w = record w { own = l }

-- The second run does what the first one does, until the first is ejected: `view` of an ejected
-- result is none. The second run keeps its private state `l`.
pub data Follows {H L A B : Type 0} (l : L) (view : A → L → Option B)
    : Run H L A → Run H L B → Type 0 where
  returned :
      {a : A} {b : B} {w : World H L}
      → view a w.own ≡ some b
      → Follows l view (ok a w) (ok b (put l w))
  left : {a : A} {w : World H L} {r : Run H L B} → view a w.own ≡ none → Follows l view (ok a w) r
  faulted : Follows l view fault fault
  ran_out : Follows l view out_of_fuel out_of_fuel

module _ {H L : Type 0} where
  abbrev pub put_run : {A : Type 0} → L → Run H L A → Run H L A
  put_run l (ok a w) = ok a (put l w)
  put_run l fault = fault
  put_run l out_of_fuel = out_of_fuel

  -- The command neither reads nor writes the private state.
  pub record Blind {A : Type 0} (m : Cmd H L A) : Type 0 where
    pub same : (l : L) (w : World H L) → m (put l w) ≡ put_run l (m w)

  own_of : {A : Type 0} → L → Run H L A → L
  own_of l (ok a w) = w.own
  own_of l fault = l
  own_of l out_of_fuel = l

  module _ {A B C : Type 0} {view : B → L → Option C} {l : L} where
    follow_on :
        (own : L) (r : Run H L A) (k : A → Cmd H L B) (k' : A → Cmd H L C)
        → r ≡ put_run own r
        → ((a : A) (w : World H L) → w.own ≡ own → Follows l view (k a w) (k' a (put l w)))
        → Follows l view (and_then r k) (and_then (put_run l r) k')
    unfolding own_of
    follow_on own (ok a w) k k' e next = next a w (ap (own_of own) e)
    follow_on own fault k k' e next = faulted
    follow_on own out_of_fuel k k' e next = ran_out

    -- Both runs begin with the same blind command.
    pub Blind-Follows :
        (m : Cmd H L A) (k : A → Cmd H L B) (k' : A → Cmd H L C) (w : World H L)
        → Blind m
        → ((a : A) (v : World H L) → v.own ≡ w.own → Follows l view (k a v) (k' a (put l v)))
        → Follows l view (and_then (m w) k) (and_then (m (put l w)) k')
    Blind-Follows m k k' w b next =
        rw (b.same l w) (follow_on w.own (m w) k k' (b.same w.own w) next)

  pub lift_bind :
      {A B : Type 0} (r : Run H L A) (k : Result A → Cmd H L B)
      → and_then (and_then r λ a. pure (done a)) k ≡ and_then r λ a. k (done a)
  lift_bind (ok a w) k = refl
  lift_bind fault k = refl
  lift_bind out_of_fuel k = refl

  -- As above, where the first run lifts the command to one that may be ejected.
  module _ {A B C : Type 0} {view : B → L → Option C} {l : L} where
    pub lift-Follows :
        (m : Cmd H L A) (k : Result A → Cmd H L B) (k' : A → Cmd H L C) (w : World H L)
        → Blind m
        → ((a : A) (v : World H L) → v.own ≡ w.own → Follows l view (k (done a) v) (k' a (put l v)))
        → Follows l view
            (and_then (and_then (m w) λ a. pure (done a)) k)
            (and_then (m (put l w)) k')
    lift-Follows m k k' w b next =
        rw (lift_bind (m w) k) (Blind-Follows m (λ a. k (done a)) k' w b next)

  module _ {A B C D : Type 0} {f : A → L → Option B} {view : C → L → Option D} {l : L} where
    -- Where the first run was ejected, nothing is asked of the second.
    pub bind-Follows :
        (r : Run H L A) (r' : Run H L B) (k : A → Cmd H L C) (k' : B → Cmd H L D)
        → Follows l f r r'
        → ((a : A) (w : World H L) (b : B)
            → f a w.own ≡ some b
            → Follows l view (k a w) (k' b (put l w)))
        → ((a : A) (w : World H L) (s : Run H L D) → f a w.own ≡ none → Follows l view (k a w) s)
        → Follows l view (and_then r k) (and_then r' k')
    bind-Follows r r' k k' (returned {a} {b} {w} e) next next' = next a w b e
    bind-Follows r r' k k' (left {a} {w} e) next next' = next' a w _ e
    bind-Follows r r' k k' faulted next next' = faulted
    bind-Follows r r' k k' ran_out next next' = ran_out

-- Commands are blind if their parts are.
module _ {H L A : Type 0} where
  pub pure-Blind : (a : A) → Blind {H = H} {L = L} (pure a)
  pure-Blind a = record { same = λ l w. refl }

  pub crash-Blind : Blind {H = H} {L = L} {A = A} crash
  crash-Blind = record { same = λ l w. refl }

  pub stop-Blind : Blind {H = H} {L = L} {A = A} stop
  stop-Blind = record { same = λ l w. refl }

  access_on :
      (o : Option (A × H)) (l : L) (w : World H L)
      → elim o [ none ↦ fault | some (a, h) ↦ ok a (record w { heap = h; own = l }) ]
        ≡ put_run l (elim o [ none ↦ fault | some (a, h) ↦ ok a (record w { heap = h }) ])
  access_on none l w = refl
  access_on (some p) l w = refl

  pub access-Blind : (f : H → Option (A × H)) → Blind {H = H} {L = L} (access f)
  access-Blind f = record { same = λ l w. access_on (f w.heap) l w }

  atomic_on :
      (env : List (H → H)) (f : H → Option (A × H)) (h : H) (own l : L)
      → atomic f (record { heap = h; env = env; own = l })
        ≡ put_run l (atomic f (record { heap = h; env = env; own = own }))
  atomic_on [] f h own l = access_on (f h) l (record { heap = h; env = []; own = own })
  atomic_on (g ∷ env) f h own l =
      access_on (f (g h)) l (record { heap = g h; env = env; own = own })

  pub atomic-Blind : (f : H → Option (A × H)) → Blind {H = H} {L = L} (atomic f)
  atomic-Blind f = record { same = λ l w. atomic_on w.env f w.heap w.own l }

module _ {H L A B : Type 0} where
  bind_on :
      (r : Run H L A) (k : A → Cmd H L B) (l : L)
      → ((a : A) → Blind (k a))
      → and_then (put_run l r) k ≡ put_run l (and_then r k)
  bind_on (ok a w) k l b = (b a).same l w
  bind_on fault k l b = refl
  bind_on out_of_fuel k l b = refl

  pub bind-Blind :
      {m : Cmd H L A} {k : A → Cmd H L B} → Blind m → ((a : A) → Blind (k a)) → Blind (m >>= k)
  bind-Blind {m = m} {k = k} b c = record { same = λ l w. rw (b.same l w) (bind_on (m w) k l c) }

module _ {H L B : Type 0} where
  pub then-Blind : {m : Cmd H L (Unit {0})} {k : Cmd H L B} → Blind m → Blind k → Blind (m >> k)
  then-Blind {m = m} {k = k} b c = record {
    same = λ l w. rw (b.same l w) (bind_on (m w) (λ _. k) l λ _. c);
  }

  pub if-Blind : (b : Bool) {m n : Cmd H L B} → Blind m → Blind n → Blind (if b then m else n)
  if-Blind true p q = p
  if-Blind false p q = q

pub ruleset blind = (
  pure-Blind, crash-Blind, stop-Blind, access-Blind, atomic-Blind, bind-Blind, then-Blind, if-Blind,
)
