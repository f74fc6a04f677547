-- ===== src/Forward/Threads/Nodes.antt =====
-- The nodes of src/forward.c, found by their ids, and the threads and relays that have them.
use adb_termux_bridge.Base.{
  ℕ, zero, suc, ◌+◌, ◌≤◌, ◌<◌, ◌≡◌, refl, sym, ◌∙◌, subst, ◌≢◌, ◌⊎◌, inl, inr, true, false, Option,
  none, some, List, [], ◌∷◌, map, arith, ◌==◌, if◌then◌else◌, ==_iff, Bool-cases, All,
}
use adb_termux_bridge.Forward.{Forward, Registry, find_forward, stop}
use adb_termux_bridge.Forward.Lists.{ids, Distinct}
use adb_termux_bridge.Forward.Threads.{
  Accept, Job, Threads, set_forward, change_node, pick, Event, removes,
}

abbrev pub In : ℕ → List ℕ → Type 0
In a [] = ⊥
In a (x ∷ xs) = (x ≡ a) ⊎ In a xs

-- How many relays of a node run.
abbrev pub jobs_of : ℕ → List Job → ℕ
jobs_of id [] = 0
jobs_of id (j ∷ jobs) = (if j.fw == id then 1 else 0) + jobs_of id jobs

-- The ids that the events remove.
abbrev pub removed_by : List Event → List ℕ
removed_by [] = []
removed_by (removes id ∷ events) = id ∷ removed_by events
removed_by (_ ∷ events) = removed_by events

-- An id that was given to a node, which is there or was removed.
pub record Known (gone : List ℕ) (r : Registry) (id : ℕ) : Type 0 where
  pub old : id < r.next_id
  pub there : find_forward id r.forwards ≡ none → In id gone

-- The list itself.
pub record Listed (r : Registry) : Type 0 where
  pub below : All (λ id. id < r.next_id) (ids r.forwards)
  pub distinct : Distinct (ids r.forwards)

-- The relays of each node are counted in it.
pub record Counted (r : Registry) (jobs : List Job) : Type 0 where
  pub counted :
      (id : ℕ) (f : Forward)
      → find_forward id r.forwards ≡ some f
      → jobs_of id jobs ≤ f.active_connections

abbrev pub AllKnown : List ℕ → Registry → List Accept → Type 0
AllKnown gone r = All (λ a. Known gone r a.fw)

abbrev pub JobsKnown : List ℕ → Registry → List Job → Type 0
JobsKnown gone r = All (λ j. Known gone r j.fw)

pub record Sound (gone : List ℕ) (t : Threads) : Type 0 where
  pub listed : Listed t.registry
  pub threads : AllKnown gone t.registry t.accepts
  pub relays : JobsKnown gone t.registry t.jobs
  pub counts : Counted t.registry t.jobs
  pub misused : All (λ id. In id gone) t.faults

-- A list that finds under every id what the other one finds, changed.
pub set-same :
    (id : ℕ) (change : Forward → Forward) (fs : List Forward) (f : Forward)
    → ((g : Forward) → (change g).id ≡ g.id)
    → find_forward id fs ≡ some f
    → find_forward id (set_forward id change fs) ≡ some (change f)
unfolding find_forward set_forward
set-same id change [] f keeps e = cc
set-same id change (g ∷ fs) f keeps e = ground (arith, set-same id change fs f keeps, keeps g)

pub set-missing :
    (id other : ℕ) (change : Forward → Forward) (fs : List Forward)
    → ((g : Forward) → (change g).id ≡ g.id)
    → find_forward other fs ≡ none
    → find_forward other (set_forward id change fs) ≡ none
unfolding find_forward set_forward
set-missing id other change [] keeps e = refl
set-missing id other change (g ∷ fs) keeps e =
    ground (arith, set-missing id other change fs keeps, keeps g)

set-other :
    (id other : ℕ) (change : Forward → Forward) (fs : List Forward)
    → ((g : Forward) → (change g).id ≡ g.id)
    → id ≢ other
    → find_forward other (set_forward id change fs) ≡ find_forward other fs
unfolding find_forward set_forward
set-other id other change [] keeps ne = refl
set-other id other change (g ∷ fs) keeps ne =
    ground (arith, set-other id other change fs keeps ne, keeps g)

ids-set :
    (id : ℕ) (change : Forward → Forward) (fs : List Forward)
    → ((g : Forward) → (change g).id ≡ g.id)
    → ids (set_forward id change fs) ≡ ids fs
unfolding set_forward
ids-set id change [] keeps = refl
ids-set id change (g ∷ fs) keeps = ground (arith, ids-set id change fs keeps, keeps g)

set-none :
    (id other : ℕ) (change : Forward → Forward) (fs : List Forward)
    → ((g : Forward) → (change g).id ≡ g.id)
    → find_forward other (set_forward id change fs) ≡ none
    → find_forward other fs ≡ none
unfolding find_forward set_forward
set-none id other change [] keeps e = refl
set-none id other change (g ∷ fs) keeps e =
    ground (arith, set-none id other change fs keeps, keeps g)

pub stop-none :
    (id : ℕ) (fs : List Forward) → find_forward id (map stop fs) ≡ none → find_forward id fs ≡ none
unfolding find_forward stop
stop-none id [] e = refl
stop-none id (f ∷ fs) e = ground (arith, stop-none id fs)

pub stop-some :
    (id : ℕ) (fs : List Forward) (f : Forward)
    → find_forward id (map stop fs) ≡ some f
    → (g : Forward) × (find_forward id fs ≡ some g) × (f.active_connections ≡ g.active_connections)
unfolding find_forward stop
stop-some id [] f e = cc
stop-some id (g ∷ fs) f e = elim (Bool-cases (g.id == id)) [
  | inl h ↦ (g, ground arith, ground arith)
  | inr h ↦ let (k, found, same) = stop-some id fs f (ground arith) in (k, ground arith, same)
]

pub Known-change :
    (gone : List ℕ) (id : ℕ) (change : Forward → Forward) (r : Registry) (other : ℕ)
    → ((g : Forward) → (change g).id ≡ g.id)
    → Known gone r other
    → Known gone (change_node id change r) other
unfolding change_node
Known-change gone id change r other keeps k = record {
  old = k.old;
  there = λ e. k.there (set-none id other change r.forwards keeps e);
}

pub Listed-change :
    (id : ℕ) (change : Forward → Forward) (r : Registry)
    → ((g : Forward) → (change g).id ≡ g.id)
    → Listed r
    → Listed (change_node id change r)
unfolding change_node
Listed-change id change r keeps l =
    let e = sym (ids-set id change r.forwards keeps) in
    record {
      below = subst (All (λ id. id < r.next_id)) e l.below;
      distinct = subst Distinct e l.distinct;
    }

pub Counted-change :
    (id : ℕ) (change : Forward → Forward) (r : Registry) (jobs after : List Job)
    → ((g : Forward) → (change g).id ≡ g.id)
    → Counted r jobs
    → ((other : ℕ) → id ≢ other → jobs_of other after ≤ jobs_of other jobs)
    → ((g : Forward)
        → jobs_of id jobs ≤ g.active_connections
        → jobs_of id after ≤ (change g).active_connections)
    → Counted (change_node id change r) after
unfolding change_node
Counted-change id change r jobs after keeps c others own = record {
  counted = λ other f e. here other f e (Bool-cases (id == other));
}
  where
    own_node :
        (o : Option Forward)
        → find_forward id r.forwards ≡ o
        → (f : Forward) → find_forward id (set_forward id change r.forwards) ≡ some f
        → jobs_of id after ≤ f.active_connections
    own_node none missing f e =
        absurd (none_some (sym (set-missing id id change r.forwards keeps missing) ∙ e))
      where
        none_some : none ≡ some f → ⊥
        none_some e = cc
    own_node (some g) found f e =
        let same : some (change g) ≡ some f =
          sym (set-same id change r.forwards g keeps found) ∙ e in
        let bound = own g (c.counted id g found) in ground (arith, same, bound)

    here :
        (other : ℕ) (f : Forward)
        → find_forward other (set_forward id change r.forwards) ≡ some f
        → ((id == other) ≡ true) ⊎ ((id == other) ≡ false)
        → jobs_of other after ≤ f.active_connections
    here other f e (inl h) =
        let q = (==_iff id other).0 h in
        subst (λ n. jobs_of n after ≤ f.active_connections) q
          (own_node (find_forward id r.forwards) refl f
            (subst (λ n. find_forward n (set_forward id change r.forwards) ≡ some f) (sym q) e))
    here other f e (inr h) =
        let ne : id ≢ other = ground arith in
        let bound = c.counted other f (sym (set-other id other change r.forwards keeps ne) ∙ e) in
        omega (arith, others other ne, bound)

pick-suc {ℓ} :
    {A : Type ℓ} (n : ℕ) (y x : A) (xs rest : List A)
    → pick (suc n) (y ∷ xs) ≡ some (x, rest)
    → (others : List A) × (pick n xs ≡ some (x, others)) × (rest ≡ y ∷ others)
pick-suc {A} n y x xs rest e = go (pick n xs) refl e
  where
    go :
        (o : Option (A × List A))
        → pick n xs ≡ o
        → elim o as (λ _. Option (A × List A)) [ none ↦ none | some o ↦ some (o.0, y ∷ o.1) ]
          ≡ some (x, rest)
        → (others : List A) × (pick n xs ≡ some (x, others)) × (rest ≡ y ∷ others)
    go none k e = cc
    go (some (z, zs)) k e = (zs, cc, cc)

pub pick-All {ℓ} :
    {A : Type ℓ} (P : A → Type 0) (n : ℕ) (xs rest : List A) (x : A)
    → pick n xs ≡ some (x, rest)
    → All P xs
    → P x × All P rest
pick-All P n [] rest x e h = cc
pick-All P zero (y ∷ xs) rest x e h =
    let q : (y ≡ x) × (xs ≡ rest) = (cc, cc) in (subst P q.0 h.0, subst (All P) q.1 h.1)
pick-All P (suc n) (y ∷ xs) rest x e h =
    let (others, k, q) = pick-suc n y x xs rest e in
    let i = pick-All P n xs others x k h.1 in (i.0, subst (All P) (sym q) (h.0, i.1))

pub jobs_of-pick :
    (id n : ℕ) (jobs rest : List Job) (j : Job)
    → pick n jobs ≡ some (j, rest)
    → jobs_of id jobs ≡ (if j.fw == id then 1 else 0) + jobs_of id rest
jobs_of-pick id n [] rest j e = cc
jobs_of-pick id zero (k ∷ jobs) rest j e =
    let q : (k ≡ j) × (jobs ≡ rest) = (cc, cc) in rw (q.0, q.1) refl
jobs_of-pick id (suc n) (k ∷ jobs) rest j e =
    let (others, p, q) = pick-suc n k j jobs rest e in
    let i = jobs_of-pick id n jobs others j p in rw q (omega (arith, i))
