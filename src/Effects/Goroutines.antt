-- ===== src/Effects/Goroutines.antt =====
-- What a loop of goroutines has written, whatever their order.
use egressip_ipam_operator.Prelude.{
  ◌≡◌, refl, Option, none, some, List, [], ◌∷◌, map, Elem, Elem-append, Elem-map, Elem-map_inv, inl,
  inr, subst,
}
use egressip_ipam_operator.Deps.{Deps, IsLawful}
use egressip_ipam_operator.Go.Results.{Error, Result, ok, err, panic}
use egressip_ipam_operator.Effects.{
  Log, Write, Services, Action, write, answered, collect, after_error, go_all,
}
use egressip_ipam_operator.Effects.Inversion.{write-eq-ok}

-- The action keeps what was written before.
abbrev pub Keeps : Action (Unit {0}) → Type 0
Keeps m = (log : Log) (w : Write) → Elem w log → Elem w (m log).1

-- The action, if it succeeds, has written `w`.
abbrev pub Writes : Action (Unit {0}) → Write → Type 0
Writes m w = (log : Log) (u : Unit {0}) → (m log).0 ≡ ok u → Elem w (m log).1

Elem-answered :
    (o : Option Error) (v w : Write) (log : Log) → Elem w log → Elem w (answered o v log).1
Elem-answered none v w log e = (Elem-append w log (v ∷ [])).1 (inl e)
Elem-answered (some c) v w log e = e

pub write-Keeps : (services : Services) (v : Write) → Keeps (write services v)
unfolding write
write-Keeps services v log w e = Elem-answered (services.answer log v) v w log e

pub write-Writes : (services : Services) (w : Write) → Writes (write services w) w
write-Writes services w log u e =
    rw (write-eq-ok services w log u e) ((Elem-append w log (w ∷ [])).1 (inr (inl refl)))

Elem-after_error :
    (c : Error) (w : Write) (r : Result (Unit {0}) × Log) → Elem w r.1 → Elem w (after_error c r).1
Elem-after_error c w (ok u, log) e = e
Elem-after_error c w (err _, log) e = e
Elem-after_error c w (panic, log) e = e

Elem-collect :
    (w : Write) (rest : Action (Unit {0})) (r : Result (Unit {0})) (log : Log)
    → Keeps rest
    → Elem w log
    → Elem w (collect r rest log).1
Elem-collect w rest (ok u) log k e = k log w e
Elem-collect w rest (err c) log k e = Elem-after_error c w (rest log) (k log w e)
Elem-collect w rest panic log k e = e

pub go_all-Keeps :
    (ms : List (Action (Unit {0})))
    → ((m : Action (Unit {0})) → Elem m ms → Keeps m)
    → Keeps (go_all ms)
unfolding go_all
go_all-Keeps [] k log w e = e
go_all-Keeps (m ∷ ms) k log w e =
    Elem-collect w (go_all ms) (m log).0 (m log).1 (go_all-Keeps ms (λ n at. k n (inr at)))
      (k m (inl refl) log w e)

pub collect-ok :
    (rest : Action (Unit {0})) (r : Result (Unit {0})) (log : Log) (u : Unit {0})
    → (collect r rest log).0 ≡ ok u
    → (r ≡ ok tt) × ((rest log).0 ≡ ok u) × ((collect r rest log).1 ≡ (rest log).1)
collect-ok rest (ok _) log u e = (refl, e, refl)
collect-ok rest (err c) log u e = absurd (failed (rest log) e)
  where
    failed : (r : Result (Unit {0}) × Log) → (after_error c r).0 ≡ ok u → ⊥
    failed (ok _, l) q = cc
    failed (err _, l) q = cc
    failed (panic, l) q = cc
collect-ok rest panic log u e = cc

-- If the loop reports no error, each of its goroutines has made its write.
pub go_all-Writes :
    (ms : List (Action (Unit {0}))) (w : Write) (m : Action (Unit {0}))
    → ((n : Action (Unit {0})) → Elem n ms → Keeps n)
    → Elem m ms
    → Writes m w
    → Writes (go_all ms) w
unfolding go_all
go_all-Writes [] w m k at h log u e = absurd at
go_all-Writes (n ∷ ms) w m k (inl p) h log u e =
    let (done, rest, same) = collect-ok (go_all ms) (n log).0 (n log).1 u e in
    rw same (
      go_all-Keeps ms (λ o at. k o (inr at)) (n log).1 w
        (subst (λ (o : Action (Unit {0})). Writes o w) p h log tt done))
go_all-Writes (n ∷ ms) w m k (inr at) h log u e =
    let (done, rest, same) = collect-ok (go_all ms) (n log).0 (n log).1 u e in
    rw same (go_all-Writes ms w m (λ o q. k o (inr q)) at h (n log).1 u rest)

-- The action, if it succeeds, has made a write of the predicate.
abbrev pub Makes : Action (Unit {0}) → (Write → Type 0) → Type 0
Makes m Q = (log : Log) (u : Unit {0}) → (m log).0 ≡ ok u → (w : Write) × Q w × Elem w (m log).1

-- If the loop reports no error, each of its goroutines has made a write of its predicate.
go_all-Makes :
    (ms : List (Action (Unit {0}))) (Q : Write → Type 0) (m : Action (Unit {0}))
    → ((n : Action (Unit {0})) → Elem n ms → Keeps n)
    → Elem m ms
    → Makes m Q
    → Makes (go_all ms) Q
unfolding go_all
go_all-Makes [] Q m k at h log u e = absurd at
go_all-Makes (n ∷ ms) Q m k (inl p) h log u e =
    let (done, rest, same) = collect-ok (go_all ms) (n log).0 (n log).1 u e in
    let (w, q, made) = subst (λ (o : Action (Unit {0})). Makes o Q) p h log tt done in
    (w, q, rw same (go_all-Keeps ms (λ o at. k o (inr at)) (n log).1 w made))
go_all-Makes (n ∷ ms) Q m k (inr at) h log u e =
    let (done, rest, same) = collect-ok (go_all ms) (n log).0 (n log).1 u e in
    let (w, q, made) = go_all-Makes ms Q m (λ o p. k o (inr p)) at h (n log).1 u rest in
    (w, q, rw same made)

-- The same of a loop over a list, in the order of the scheduler.
module _ {A : Type 0} (d : Deps) (lawful : IsLawful d) (f : A → Action (Unit {0}))
    (xs : List A) where
  abbrev loop : List (Action (Unit {0}))
  loop = d.schedule (Action (Unit {0})) (map f xs)

  loop-Keeps : ((x : A) → Elem x xs → Keeps (f x)) → (m : Action (Unit {0})) → Elem m loop → Keeps m
  loop-Keeps k m at =
      let (x, here, p) = Elem-map_inv f m xs ((lawful.schedule_elem _ (map f xs) m).0 at) in
      rw p (k x here)

  pub schedule-Keeps : ((x : A) → Elem x xs → Keeps (f x)) → Keeps (go_all loop)
  schedule-Keeps k = go_all-Keeps loop (loop-Keeps k)

  pub schedule-Writes :
      (x : A) (w : Write)
      → ((y : A) → Elem y xs → Keeps (f y))
      → Elem x xs
      → Writes (f x) w
      → Writes (go_all loop) w
  schedule-Writes x w k at h =
      go_all-Writes loop w (f x) (loop-Keeps k)
        ((lawful.schedule_elem _ (map f xs) (f x)).1 (Elem-map f x xs at)) h

  pub schedule-Makes :
      (x : A) (Q : Write → Type 0)
      → ((y : A) → Elem y xs → Keeps (f y))
      → Elem x xs
      → Makes (f x) Q
      → Makes (go_all loop) Q
  schedule-Makes x Q k at h =
      go_all-Makes loop Q (f x) (loop-Keeps k)
        ((lawful.schedule_elem _ (map f xs) (f x)).1 (Elem-map f x xs at)) h
