-- ===== src/Queue/Rules.antt =====
-- How a fact about the view passes through the calls of an operation, on a connection that does
-- not fail: a rule for each way in which the operations go on.
use engine_api_workflow.Common.{
  Bool, ◌≡◌, refl, sym, subst, ℤ, String, List, [], ◌∷◌, ◌++◌, Option, none, some,
}
use engine_api_workflow.Queue.Redis.{
  Redis, IsReliable, Exec, Result, ok, err, QueueError, continue, ◌>>=◌, or_raise, View, Command,
  apply_all, SetKey, SortedKey, set_at, sorted_at, put_sorted, has, Distinct, in_range, Sorted,
}

pub apply_all-nil : (before : String → String → Bool) (v : View) → apply_all before [] v ≡ v
unfolding apply_all
apply_all-nil before v = refl

pub apply_all-append :
    (before : String → String → Bool) (cs ds : List Command) (v : View)
    → apply_all before (cs ++ ds) v ≡ apply_all before ds (apply_all before cs v)
unfolding apply_all
apply_all-append before [] ds v = refl
apply_all-append before (c ∷ cs) ds v = apply_all-append before cs ds _

module _ (redis : Redis) (sure : IsReliable redis) (P : View → Type 0) where
  open redis use {Store, view, before, exec, zpop_min, zrange_by_score, smembers}

  pub exec_rule :
      (cs : List Command) (s : Store) → P (apply_all before cs (view s)) → P (view (exec cs s).1)
  exec_rule cs s h = subst P (sym (redis.exec_effect cs s (sure.exec_answers cs s))) h

  pub smembers_rule :
      {B : Type 0} (k : SetKey) (f : List String → Exec Store B) (s : Store)
      → ((ms : List String) (t : Store)
          → view t ≡ view s
          → Distinct ms
          → ((m : String) → has m ms ≡ has m (set_at k (view s)))
          → P (view (f ms t).1))
      → P (view ((smembers k >>= f) s).1)
  unfolding ◌>>=◌
  smembers_rule {B} k f s h =
      let (ms, e) = sure.smembers_answers k s in
      let (apart, same, kept) = redis.smembers_ok k s ms e in
      subst (λ (r : Result (List String)). P (view (continue r f (smembers k s).1).1)) (sym e)
        (h ms (smembers k s).1 kept apart same)

  pub zrange_by_score_rule :
      {B : Type 0} (k : SortedKey) (low high : ℤ) (f : List String → Exec Store B) (s : Store)
      → ((t : Store)
          → view t ≡ view s
          → P (view (f (in_range low high (sorted_at k (view s))) t).1))
      → P (view ((zrange_by_score k low high >>= f) s).1)
  unfolding ◌>>=◌
  zrange_by_score_rule {B} k low high f s h =
      let (ms, e) = sure.zrange_by_score_answers k low high s in
      let (same, kept) = redis.zrange_by_score_ok k low high s ms e in
      subst
        (λ (r : Result (List String)). P (view (continue r f (zrange_by_score k low high s).1).1))
        (sym e)
        (subst (λ ns. P (view (f ns (zrange_by_score k low high s).1).1)) (sym same)
          (h (zrange_by_score k low high s).1 kept))

  -- ZPOPMIN finds nothing, or takes the first member out.
  pub zpop_min_rule :
      {B : Type 0} (k : SortedKey) (f : Option String → Exec Store B) (s : Store)
      → ((t : Store) → view t ≡ view s → P (view (f none t).1))
      → ((t : Store) (score : ℤ) (m : String) (rest : Sorted)
          → sorted_at k (view s) ≡ (score, m) ∷ rest
          → view t ≡ put_sorted k rest (view s)
          → P (view (f (some m) t).1))
      → P (view ((zpop_min k >>= f) s).1)
  unfolding ◌>>=◌
  zpop_min_rule {B} k f s empty full =
      go (sure.zpop_min_answers k s).0 (sure.zpop_min_answers k s).1
    where
      go :
          (o : Option String)
          → (zpop_min k s).0 ≡ ok o
          → P (view (continue (zpop_min k s).0 f (zpop_min k s).1).1)
      go none e =
          subst (λ (r : Result (Option String)). P (view (continue r f (zpop_min k s).1).1)) (sym e)
            (empty (zpop_min k s).1 (redis.zpop_min_none k s e).1)
      go (some m) e =
          let (score, rest, first, kept) = redis.zpop_min_some k s m e in
          subst (λ (r : Result (Option String)). P (view (continue r f (zpop_min k s).1).1)) (sym e)
            (full (zpop_min k s).1 score m rest first kept)

  pub or_raise_rule :
      {A B : Type 0} (o : Option A) (e : QueueError) (f : A → Exec Store B) (s : Store)
      → P (view s)
      → ((a : A) → o ≡ some a → P (view (f a s).1))
      → P (view ((or_raise o e >>= f) s).1)
  unfolding ◌>>=◌
  or_raise_rule none e f s missing found = missing
  or_raise_rule (some a) e f s missing found = found a refl

  pub or_raise-some_rule :
      {A B : Type 0} (o : Option A) (e : QueueError) (f : A → Exec Store B) (s : Store) (a : A)
      → o ≡ some a
      → P (view (f a s).1)
      → P (view ((or_raise o e >>= f) s).1)
  unfolding ◌>>=◌
  or_raise-some_rule {A} {B} o e f s a h k =
      subst (λ (x : Option A). P (view ((or_raise x e >>= f) s).1)) (sym h) k

  -- An action whose result does not matter.
  pub then_rule :
      {A B : Type 0} (m : Exec Store A) (f : A → Exec Store B) (s : Store)
      → P (view (m s).1)
      → ((a : A) (t : Store) → P (view t) → P (view (f a t).1))
      → P (view ((m >>= f) s).1)
  unfolding ◌>>=◌
  then_rule {A} {B} m f s h k = go (m s).0
    where
      go : (r : Result A) → P (view (continue r f (m s).1).1)
      go (ok a) = k a (m s).1 h
      go (err e) = h
