-- ===== src/Worker/Pool/Rules.antt =====
-- Rules for calls on the pool, as in a logic of Hoare: what holds before a call, what holds of its
-- answer and the pool after it, and what holds where it hangs or crashes.
use engine_api_workflow.Common.{if_false, ap, Bool, true, false, ◌≡◌, refl, if◌then◌else◌}
use engine_api_workflow.Worker.Pool.{
  Pool, Call, Ending, ends, hangs, crashes, ◌>>=◌, go_on, read_lock, lock, get_pool, modify, pure,
}

module _ {S A : Type 0} where
  abbrev pub Holds : (A → Pool → S → Type 0) → (Pool → S → Type 0) → Ending A × (Pool × S) → Type 0
  Holds Q I (ends a, (p, s)) = Q a p s
  Holds Q I (hangs, (p, s)) = I p s
  Holds Q I (crashes, (p, s)) = I p s

  pub record Triple (P : Pool → S → Type 0) (m : Call S A) (Q : A → Pool → S → Type 0)
      (I : Pool → S → Type 0) : Type 0 where
    pub holds : (p : Pool) (s : S) → P p s → Holds Q I (m p s)

  pub weaken :
      {P P' I : Pool → S → Type 0} {m : Call S A} {Q : A → Pool → S → Type 0}
      → ((p : Pool) (s : S) → P' p s → P p s)
      → Triple P m Q I
      → Triple P' m Q I
  weaken h t = record { holds = λ p s x. t.holds p s (h p s x) }

  Holds-map :
      (Q R : A → Pool → S → Type 0) (I : Pool → S → Type 0)
      → ((a : A) (p : Pool) (s : S) → Q a p s → R a p s)
      → (r : Ending A × (Pool × S)) → Holds Q I r
      → Holds R I r
  Holds-map Q R I f (ends a, (p, s)) h = f a p s h
  Holds-map Q R I f (hangs, (p, s)) h = h
  Holds-map Q R I f (crashes, (p, s)) h = h

  pub strengthen :
      {P I : Pool → S → Type 0} {m : Call S A} {Q R : A → Pool → S → Type 0}
      → ((a : A) (p : Pool) (s : S) → Q a p s → R a p s)
      → Triple P m Q I
      → Triple P m R I
  strengthen {I = I} {m = m} {Q = Q} {R = R} f t = record {
    holds = λ p s h. Holds-map Q R I f (m p s) (t.holds p s h);
  }

  -- A fact that does not depend on the pool.
  pub fact-Triple :
      {X : Type 0} {P I : Pool → S → Type 0} {m : Call S A} {Q : A → Pool → S → Type 0}
      → (X → Triple P m Q I)
      → Triple (λ p s. X × P p s) m Q I
  fact-Triple h = record { holds = λ p s (x, k). (h x).holds p s k }

  pub if-Triple :
      {P I : Pool → S → Type 0} {Q : A → Pool → S → Type 0} {m n : Call S A} (b : Bool)
      → (b ≡ true → Triple P m Q I)
      → (b ≡ false → Triple P n Q I)
      → Triple P (if b then m else n) Q I
  if-Triple true h k = h refl
  if-Triple false h k = k refl

module _ {S A B : Type 0} where
  go_on-Holds :
      (Q : A → Pool → S → Type 0) (R : B → Pool → S → Type 0) (I : Pool → S → Type 0)
      (f : A → Call S B)
      → ((a : A) → Triple (Q a) (f a) R I)
      → (r : Ending A × (Pool × S)) → Holds Q I r
      → Holds R I (go_on r.0 f r.1.0 r.1.1)
  go_on-Holds Q R I f h (ends a, (p, s)) x = (h a).holds p s x
  go_on-Holds Q R I f h (hangs, (p, s)) x = x
  go_on-Holds Q R I f h (crashes, (p, s)) x = x

  pub bind-Triple :
      {P I : Pool → S → Type 0} {Q : A → Pool → S → Type 0} {R : B → Pool → S → Type 0}
      {m : Call S A} {f : A → Call S B}
      → Triple P m Q I
      → ((a : A) → Triple (Q a) (f a) R I)
      → Triple P (m >>= f) R I
  unfolding ◌>>=◌
  bind-Triple {I = I} {Q = Q} {R = R} {m = m} {f = f} h k = record {
    holds = λ p s x. go_on-Holds Q R I f k (m p s) (h.holds p s x);
  }

module _ {S : Type 0} where
  pub modify-Triple :
      {P I : Pool → S → Type 0} {Q : Unit {0} → Pool → S → Type 0} (f : Pool → Pool)
      → ((p : Pool) (s : S) → P p s → Q tt (f p) s)
      → Triple P (modify f) Q I
  modify-Triple f h = record { holds = h }

  pub pure-Triple :
      {A : Type 0} {P I : Pool → S → Type 0} {Q : A → Pool → S → Type 0} (a : A)
      → ((p : Pool) (s : S) → P p s → Q a p s)
      → Triple P (pure a) Q I
  pure-Triple a h = record { holds = h }

  -- The pool that is read is the pool there is.
  pub get_pool-Triple :
      {P I : Pool → S → Type 0} → Triple P (get_pool {S = S}) (λ q p s. (q ≡ p) × P p s) I
  get_pool-Triple = record { holds = λ p s h. (refl, h) }

  locking :
      {P I : Pool → S → Type 0} (q : Pool → Pool)
      → ((p : Pool) (s : S) → P p s → I p s)
      → ((p : Pool) (s : S) → P p s → P (q p) s)
      → Triple P (λ p s. if p.locked then (hangs, (p, s)) else (ends (tt {0}), (q p, s))) (λ a. P) I
  locking {P} {I} q out kept = record { holds = λ p s h. go p s p.locked h }
    where
      go :
          (p : Pool) (s : S) (b : Bool)
          → P p s
          → Holds (λ a. P) I (if b then (hangs, (p, s)) else (ends (tt {0}), (q p, s)))
      go p s true h = out p s h
      go p s false h = kept p s h

  pub read_lock-Triple :
      {P I : Pool → S → Type 0}
      → ((p : Pool) (s : S) → P p s → I p s)
      → Triple P (read_lock {S = S}) (λ a. P) I
  read_lock-Triple out = locking (λ p. p) out λ p s h. h

  pub lock-Triple :
      {P I : Pool → S → Type 0}
      → ((p : Pool) (s : S) → P p s → I p s)
      → ((p : Pool) (s : S) → P p s → P (record p { locked = true }) s)
      → Triple P (lock {S = S}) (λ a. P) I
  lock-Triple out kept = locking (λ p. record p { locked = true }) out kept

-- Equations of calls.
module _ {S A B : Type 0} where
  pub bind-ends :
      (m : Call S A) (f : A → Call S B) {p q : Pool} {s t : S} {a : A}
      → m p s ≡ (ends a, (q, t))
      → (m >>= f) p s ≡ f a q t
  unfolding ◌>>=◌
  bind-ends m f e = ap (λ r. go_on r.0 f r.1.0 r.1.1) e

module _ {S : Type 0} where
  pub read_lock-free : (p : Pool) (s : S) → p.locked ≡ false → read_lock p s ≡ (ends tt, (p, s))
  read_lock-free p s h = if_false _ _ h
