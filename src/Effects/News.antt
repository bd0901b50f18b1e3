-- ===== src/Effects/News.antt =====
-- The writes that a loop of goroutines adds to the log, where each of them adds a known list.
use mathlib.Core.List.{append-nil, append_assoc, append_cancel_left}
use egressip_ipam_operator.Prelude.{
  ◌≡◌, refl, sym, ap, ◌∙◌, List, [], ◌∷◌, ◌++◌, map, Elem, Elem-append, Elem-map, Elem-map_inv, inl,
  inr, subst,
}
use egressip_ipam_operator.Deps.{Deps, IsLawful}
use egressip_ipam_operator.Go.Results.{ok}
use egressip_ipam_operator.Effects.{Log, Write, Services, Action, write, go_all}
use egressip_ipam_operator.Effects.Inversion.{write-eq-ok}
use egressip_ipam_operator.Effects.Goroutines.{collect-ok}

-- The action, if it succeeds, has added `ws` to the log.
abbrev pub Emits : Action (Unit {0}) → List Write → Type 0
Emits m ws = (log : Log) (u : Unit {0}) → (m log).0 ≡ ok u → (m log).1 ≡ log ++ ws

pub write-Emits : (services : Services) (w : Write) → Emits (write services w) (w ∷ [])
write-Emits services w log u e = write-eq-ok services w log u e

-- What was added, in some order: the writes that `g` lists of the elements of `xs`.
pub record News {A : Type 0} (g : A → List Write) (xs : List A) (log log' : Log) : Type 0 where
  pub news : List Write
  pub appended : log' ≡ log ++ news
  pub from : (w : Write) → Elem w news → (x : A) × Elem x xs × Elem w (g x)
  pub to : (x : A) (w : Write) → Elem x xs → Elem w (g x) → Elem w news

module _ {A : Type 0} (f : A → Action (Unit {0})) (g : A → List Write) (xs : List A)
    (emits : (x : A) → Elem x xs → Emits (f x) (g x)) where
  -- The same of a list of actions, each of which is the one of an element.
  record Added (ms : List (Action (Unit {0}))) (log log' : Log) : Type 0 where
    news : List Write
    appended : log' ≡ log ++ news
    from : (w : Write) → Elem w news → (x : A) × Elem x xs × Elem w (g x)
    to : (x : A) (w : Write) → Elem x xs → Elem (f x) ms → Elem w (g x) → Elem w news

  go_all-Added :
      (ms : List (Action (Unit {0}))) (log : Log) (u : Unit {0})
      → ((m : Action (Unit {0})) → Elem m ms → (x : A) × Elem x xs × (m ≡ f x))
      → (go_all ms log).0 ≡ ok u
      → Added ms log (go_all ms log).1
  unfolding go_all
  go_all-Added [] log u known e = record {
    news = [];
    appended = sym (append-nil log);
    from = λ w z. absurd z;
    to = λ x w at z h. absurd z;
  }
  go_all-Added (m ∷ ms) log u known e =
      let (done, rest, same) = collect-ok (go_all ms) (m log).0 (m log).1 u e in
      let (x, at, p) = known m (inl refl) in
      let added : (m log).1 ≡ log ++ g x =
        subst (λ (n : Action (Unit {0})). (n log).0 ≡ ok tt → (n log).1 ≡ log ++ g x) (sym p)
          (emits x at log tt) done in
      let more = go_all-Added ms (m log).1 u (λ n q. known n (inr q)) rest in
      record {
        news = g x ++ more.news;
        appended =
            same
            ∙ more.appended
            ∙ ap (λ (l : Log). l ++ more.news) added
            ∙ append_assoc log (g x) more.news;
        from = λ w h. elim ((Elem-append w (g x) more.news).0 h) [
          | inl here ↦ (x, at, here)
          | inr later ↦ more.from w later
        ];
        to = λ y w at' which h. elim which [
          | inr later ↦ (Elem-append w (g x) more.news).1 (inr (more.to y w at' later h))
          | inl q ↦
              let added' : (m log).1 ≡ log ++ g y =
                subst (λ (n : Action (Unit {0})). (n log).0 ≡ ok tt → (n log).1 ≡ log ++ g y) q
                  (emits y at' log tt) done in
              let eq : g x ≡ g y = append_cancel_left log (g x) (g y) (sym added ∙ added') in
              (Elem-append w (g x) more.news).1 (inl (rw eq h))
        ];
      }

  pub schedule-News :
      (d : Deps)
      → IsLawful d
      → (log : Log) (u : Unit {0})
      → (go_all (d.schedule (Action (Unit {0})) (map f xs)) log).0 ≡ ok u
      → News g xs log (go_all (d.schedule (Action (Unit {0})) (map f xs)) log).1
  schedule-News d lawful log u e =
      let a =
        go_all-Added (d.schedule (Action (Unit {0})) (map f xs)) log u
          (λ m at. Elem-map_inv f m xs ((lawful.schedule_elem _ (map f xs) m).0 at)) e in
      record {
        news = a.news;
        appended = a.appended;
        from = a.from;
        to = λ x w at h.
            a.to x w at ((lawful.schedule_elem _ (map f xs) (f x)).1 (Elem-map f x xs at)) h;
      }
