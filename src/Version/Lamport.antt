-- ===== src/Version/Lamport.antt =====
-- Replicas that draw versions and reconcile them (fluid/version.go): what `Next` and `Update`
-- promise together, whatever the order in which the replicas call them.
use fluidfs.Prelude.{ℕ, ◌+◌, ◌≤◌, ◌<◌, ◌≡◌, true, List, [], ◌∷◌, arith, ◌==◌, if◌then◌else◌}
use fluidfs.Prelude.Int.{u64_mod}
use fluidfs.Version.{Version, update, next, less, not_equal}

-- A new version is greater than both versions that were reconciled before, if these have seen their
-- own scalars and the counter does not wrap around; it is also the latest that its maker has seen.
pub less-next-update :
    (v o : Version) (pid : ℕ)
    → v.scalar ≤ v.latest
    → o.scalar ≤ o.latest
    → v.latest + 1 < u64_mod
    → o.latest + 1 < u64_mod
    → (less v (next (update v o).0 pid).1 ≡ true)
      × (less o (next (update v o).0 pid).1 ≡ true)
      × ((next (update v o).0 pid).0.latest ≡ (next (update v o).0 pid).1.scalar)
      × ((next (update v o).0 pid).1.pid ≡ (if pid == 0 then v.pid else pid))
unfolding less next update
less-next-update v o pid p q a b = (ground arith, ground arith, ground arith, ground arith)

-- The replicas by their process ids, each with its current version, and all versions drawn so far.
pub record Cluster : Type 0 where
  pub current : ℕ → Version
  pub drawn : List Version

abbrev pub set_at : ℕ → Version → (ℕ → Version) → ℕ → Version
set_at p v f q = if p == q then v else f q

-- Replica `p` draws its next version and goes on from it; replicas `p` and `q` reconcile.
pub data Step (c : Cluster) : Cluster → Type 0 where
  draw :
      (p : ℕ)
      → (c.current p).latest + 1 < u64_mod
      → Step c (record {
        current = set_at p (next (c.current p) p).1 c.current;
        drawn = (next (c.current p) p).1 ∷ c.drawn;
      })
  reconcile :
      (p q : ℕ)
      → Step c (record c {
        current =
            set_at q
              (update (c.current p) (c.current q)).1
              (set_at p (update (c.current p) (c.current q)).0 c.current);
      })

pub data Reach (c : Cluster) : Cluster → Type 0 where
  here : Reach c c
  then_step : {d e : Cluster} → Reach c d → Step d e → Reach c e

-- Every drawn version is known to the replica that drew it.
abbrev Known : (ℕ → Version) → List Version → Type 0
Known f [] = Unit
Known f (v ∷ vs) = (v.scalar ≤ (f v.pid).latest) × Known f vs

-- The version differs from those of the list.
abbrev pub Fresh : Version → List Version → Type 0
Fresh v [] = Unit
Fresh v (w ∷ ws) = (not_equal v w ≡ true) × Fresh v ws

abbrev pub AllDistinct : List Version → Type 0
AllDistinct [] = Unit
AllDistinct (v ∷ vs) = Fresh v vs × AllDistinct vs

-- Each replica's current version carries its own process id, which is not 0.
abbrev pub OwnPids : (ℕ → Version) → Type 0
OwnPids f = (p : ℕ) → (f p).pid ≡ p

Known-mono :
    (f g : ℕ → Version) (vs : List Version)
    → ((p : ℕ) → (f p).latest ≤ (g p).latest)
    → Known f vs
    → Known g vs
Known-mono f g [] le k = tt
Known-mono f g (v ∷ vs) le k = (omega (arith, le v.pid), Known-mono f g vs le k.1)

latest_grows_draw :
    (f : ℕ → Version) (p q : ℕ)
    → (f p).latest + 1 < u64_mod
    → (f q).latest ≤ (set_at p (next (f p) p).1 f q).latest
unfolding next
latest_grows_draw f p q h = ground arith

latest_grows_reconcile :
    (f : ℕ → Version) (p q r : ℕ)
    → (f r).latest ≤ (set_at q (update (f p) (f q)).1 (set_at p (update (f p) (f q)).0 f) r).latest
unfolding update
latest_grows_reconcile f p q r = ground arith

Fresh-next :
    (f : ℕ → Version) (p : ℕ) (vs : List Version)
    → (f p).latest + 1 < u64_mod
    → (f p).pid ≡ p
    → Known f vs
    → Fresh (next (f p) p).1 vs
unfolding next not_equal
Fresh-next f p [] h e k = tt
Fresh-next f p (v ∷ vs) h e k = (ground (arith, k.0), Fresh-next f p vs h e k.1)

draw_own :
    (f : ℕ → Version) (p q : ℕ)
    → (f p).pid ≡ p
    → (f q).pid ≡ q
    → (set_at p (next (f p) p).1 f q).pid ≡ q
unfolding next
draw_own f p q a b = ground arith

reconcile_own :
    (f : ℕ → Version) (p q r : ℕ)
    → (f p).pid ≡ p
    → (f q).pid ≡ q
    → (f r).pid ≡ r
    → (set_at q (update (f p) (f q)).1 (set_at p (update (f p) (f q)).0 f) r).pid ≡ r
unfolding update
reconcile_own f p q r a b c = ground arith

draw_known :
    (f : ℕ → Version) (p : ℕ)
    → (f p).pid ≡ p
    → (next (f p) p).1.scalar ≤ (set_at p (next (f p) p).1 f (next (f p) p).1.pid).latest
unfolding next
draw_known f p e = ground arith

record IsSound (c : Cluster) : Type 0 where
  own : OwnPids c.current
  known : Known c.current c.drawn
  distinct : AllDistinct c.drawn

Step-IsSound : {c d : Cluster} → Step c d → IsSound c → IsSound d
Step-IsSound {c} (draw p h) s = record {
  own = λ q. draw_own c.current p q (s.own p) (s.own q);
  known = (
    draw_known c.current p (s.own p),
    Known-mono c.current (set_at p (next (c.current p) p).1 c.current) c.drawn
        (λ q. latest_grows_draw c.current p q h) s.known,
  );
  distinct = (Fresh-next c.current p c.drawn h (s.own p) s.known, s.distinct);
}
Step-IsSound {c} (reconcile p q) s = record {
  own = λ r. reconcile_own c.current p q r (s.own p) (s.own q) (s.own r);
  known =
      Known-mono c.current
        (set_at q (update (c.current p) (c.current q)).1
          (set_at p (update (c.current p) (c.current q)).0 c.current))
        c.drawn (latest_grows_reconcile c.current p q) s.known;
  distinct = s.distinct;
}

Reach-IsSound : {c d : Cluster} → Reach c d → IsSound c → IsSound d
Reach-IsSound here s = s
Reach-IsSound (then_step r st) s = Step-IsSound st (Reach-IsSound r s)

-- No two drawn versions are equal, in whatever order the replicas drew, without a counter that wraps
-- around, and reconciled, if they start with their own process ids and nothing drawn.
pub drawn-AllDistinct :
    (c d : Cluster) → Reach c d → OwnPids c.current → c.drawn ≡ [] → AllDistinct d.drawn
drawn-AllDistinct c d r own none_drawn =
    (Reach-IsSound r
      (record { own = own; known = rw none_drawn tt; distinct = rw none_drawn tt })).distinct
