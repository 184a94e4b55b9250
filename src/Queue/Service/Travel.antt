-- ===== src/Queue/Service/Travel.antt =====
-- What EnqueueTask and DequeueTask of internal/services/queue_service.go do to a list.
use engine_api_workflow.Common.{ℕ, String, ◌≡◌, refl, ap, ◌∙◌, List, [], ◌∷◌, some, str_eq_refl}
use engine_api_workflow.Queue.Redis.{ok, ◌>>=◌}
use engine_api_workflow.Queue.Named.{
  Server, NeverFails, Keys, update, unsnoc, pop_first, apply_all, apply, lpush,
}
use engine_api_workflow.Queue.Service.{ServiceTask, TaskJson, filled, enqueue_task, dequeue_task}

module _ (json : TaskJson) (server : Server) (sure : NeverFails server) where
  open json use {marshal, unmarshal}
  open server use {Store, view}

  abbrev pub pushed_on : String → String → Keys → Keys
  pushed_on k m v = record v { lists = update k (m ∷ v.lists k) v.lists }

  pub enqueue_task-pushes :
      (k m : String) (t : ServiceTask) (now : ℕ) (s : Store)
      → marshal (filled now t) ≡ some m
      → let r = enqueue_task json server k t now s in
        (r.0 ≡ ok tt) × (view r.1 ≡ pushed_on k m (view s))
  unfolding enqueue_task ◌>>=◌ apply_all apply
  enqueue_task-pushes k m t now s written =
      let sent = sure.exec_answers (lpush k m ∷ []) s in
      let after = server.exec_effect (lpush k m ∷ []) s sent in
      rw (written, sent, after) (refl, refl)

  pub dequeue_task-takes :
      (k m : String) (ks rest : List String) (t : ServiceTask) (s : Store)
      → unsnoc ((view s).lists k) ≡ some (rest, m)
      → unmarshal m ≡ some t
      → let r = dequeue_task json server (k ∷ ks) s in
        (r.0 ≡ ok (some t)) × (view r.1 ≡ record (view s) { lists = update k rest (view s).lists })
  unfolding dequeue_task ◌>>=◌ pop_first
  dequeue_task-takes k m ks rest t s ends read =
      let (o, answered) = sure.brpop_answers (k ∷ ks) s in
      let (right, after) = server.brpop_effect (k ∷ ks) s o answered in
      let got : o ≡ some (k, m) = right ∙ rw (pop_first, ends) refl in
      let left : view (server.brpop (k ∷ ks) s).1
          ≡ record (view s) { lists = update k rest (view s).lists } =
        after ∙ rw (pop_first, ends) refl in
      rw (answered, got, read, left) (refl, refl)

  -- On a connection that does not fail, a task that can be written and is put into an empty list comes
  -- back from a DequeueTask that asks for that list first, with the fields that EnqueueTask fills in,
  -- and leaves the list empty.
  pub dequeue_task-enqueue_task :
      (k m : String) (ks : List String) (t : ServiceTask) (now : ℕ) (s : Store)
      → (view s).lists k ≡ []
      → marshal (filled now t) ≡ some m
      → let r = dequeue_task json server (k ∷ ks) (enqueue_task json server k t now s).1 in
        (r.0 ≡ ok (some (filled now t))) × ((view r.1).lists k ≡ [])
  unfolding unsnoc
  dequeue_task-enqueue_task k m ks t now s empty written =
      let (sent, after) = enqueue_task-pushes k m t now s written in
      let u = (enqueue_task json server k t now s).1 in
      let here : (view u).lists k ≡ m ∷ [] =
        ap (λ v. v.lists k) after ∙ rw (str_eq_refl k) (ap (λ l. m ∷ l) empty) in
      let (got, left) =
        dequeue_task-takes k m ks [] (filled now t) u (ap unsnoc here)
          (json.unmarshal-marshal (filled now t) m written) in
      (got, ap (λ v. v.lists k) left ∙ rw (str_eq_refl k) refl)
