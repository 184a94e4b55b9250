-- ===== src/Tests/NamedQueues.antt =====
-- The named queues on a server in memory, with texts as the values.
use engine_api_workflow.Common.{
  ℕ, pos, String, ◌≡◌, refl, sym, ap, ◌∙◌, Bool, false, List, [], ◌∷◌, Option, none, some, arith,
  length,
}
use engine_api_workflow.Models.Value.{Value, text, null, boolean, number, array, object}
use engine_api_workflow.Queue.Redis.{has, ok, Sorted, in_range}
use engine_api_workflow.Queue.Named.{
  pop_priority, push_priority, Keys, update, apply_all, pop_first, last_of, first_of, rest_of,
  Server, NeverFails, Json, process_delayed_jobs,
}
use engine_api_workflow.Queue.Named.Fifo.{
  Op, pushes, pops, peeks, measures, clears, Queues, run, spec_run, run_refines,
}
use engine_api_workflow.Queue.Named.Delayed.{pushed, out_of_range, process_delayed_jobs-moves}
use engine_api_workflow.Queue.Named.Ranked.{pop_priority-push_priority}
use engine_api_workflow.Tests.Format.{write_text, read_text, read_text-write_text}

abbrev no_order : String → String → Bool
no_order a b = false

pub ok-inj : {A : Type 0} (a b : A) → ok a ≡ ok b → b ≡ a
ok-inj a b h = ground (arith, h)

abbrev pub named_memory : Server
named_memory = record {
  Store = Keys;
  view = λ v. v;
  before = no_order;
  exec = λ cs v. (ok tt, apply_all no_order cs v);
  brpop = λ ks v. (ok (pop_first ks v).0, (pop_first ks v).1);
  llen = λ k v. (ok (length (v.lists k)), v);
  lindex_last = λ k v. (ok (last_of (v.lists k)), v);
  zpop_min = λ k v.
      (ok (first_of (v.sorted k)), record v { sorted = update k (rest_of (v.sorted k)) v.sorted });
  zrange_by_score = λ k low high v. (ok (in_range low high (v.sorted k)), v);
  exec_effect = λ cs v h. refl;
  brpop_effect = λ ks v o h. (ok-inj (pop_first ks v).0 o h, refl);
  llen_effect = λ k v n h. (ok-inj (length (v.lists k)) n h, refl);
  lindex_effect = λ k v o h. (ok-inj (last_of (v.lists k)) o h, refl);
  zpop_min_effect = λ k v o h. (ok-inj (first_of (v.sorted k)) o h, refl);
  zrange_effect = λ k low high v ms h. (ok-inj (in_range low high (v.sorted k)) ms h, refl);
}

pub named_memory-NeverFails : NeverFails named_memory
named_memory-NeverFails = record {
  exec_answers = λ cs v. refl;
  brpop_answers = λ ks v. ((pop_first ks v).0, refl);
  llen_answers = λ k v. (length (v.lists k), refl);
  lindex_answers = λ k v. (last_of (v.lists k), refl);
  zpop_min_answers = λ k v. (first_of (v.sorted k), refl);
  zrange_answers = λ k low high v. (in_range low high (v.sorted k), refl);
}

abbrev pub marshal_text : Value → Option String
marshal_text (text t) = some (write_text t "")
marshal_text null = none
marshal_text (boolean b) = none
marshal_text (number n) = none
marshal_text (array l) = none
marshal_text (object f) = none

abbrev pub text_of : Option (String × String) → Option Value
text_of none = none
text_of (some (t, r)) = some (text t)

abbrev pub unmarshal_text : String → Option Value
unmarshal_text m = text_of (read_text m)

pub unmarshal_text-marshal_text :
    (v : Value) (m : String) → marshal_text v ≡ some m → unmarshal_text m ≡ some v
unmarshal_text-marshal_text (text t) m h =
    let same : write_text t "" ≡ m = ground (arith, h) in
    ap unmarshal_text (sym same) ∙ ap text_of (read_text-write_text t "")
unmarshal_text-marshal_text null m h = absurd (ground (arith, h))
unmarshal_text-marshal_text (boolean b) m h = absurd (ground (arith, h))
unmarshal_text-marshal_text (number n) m h = absurd (ground (arith, h))
unmarshal_text-marshal_text (array l) m h = absurd (ground (arith, h))
unmarshal_text-marshal_text (object f) m h = absurd (ground (arith, h))

abbrev pub text_json : Json
text_json = record {
  marshal = marshal_text;
  unmarshal = unmarshal_text;
  unmarshal-marshal = unmarshal_text-marshal_text;
}

abbrev pub no_lists : String → List String
no_lists k = []

abbrev pub no_sets : String → Sorted
no_sets k = []

abbrev pub empty_keys : Keys
empty_keys = record { lists = no_lists; sorted = no_sets }

abbrev some_ops : List Op
some_ops =
    pushes "a" (text "one")
    ∷ pushes "a" (text "two")
    ∷ pushes "b" null
    ∷ peeks "a"
    ∷ pops "a"
    ∷ measures "a"
    ∷ clears "a"
    ∷ pops "a"
    ∷ []

abbrev no_queues : Queues
no_queues k = []

run_refines_example :
    run text_json named_memory named_memory-NeverFails some_ops empty_keys
    ≡ spec_run text_json some_ops no_queues
run_refines_example =
    run_refines text_json named_memory named_memory-NeverFails some_ops no_queues empty_keys
      (λ k. refl)

abbrev waiting : Sorted
waiting = (pos 5, "early") ∷ (pos 90000000000, "late") ∷ []

abbrev delayed_keys : Keys
delayed_keys = record { lists = no_lists; sorted = λ k. waiting }

-- A time in 2026.
abbrev present : ℕ
present = 63900000000000000000

process_delayed_jobs-moves_example :
    let r = process_delayed_jobs text_json named_memory "a" present delayed_keys in
    (r.0 ≡ ok tt)
    × (r.1.lists "a" ≡ pushed (in_range (pos 0) (pos 1764403200) waiting) [])
    × (r.1.sorted "a_delayed" ≡ out_of_range (pos 0) (pos 1764403200) waiting)
unfolding has
process_delayed_jobs-moves_example =
    process_delayed_jobs-moves text_json named_memory named_memory-NeverFails "a" present
      delayed_keys (refl, (refl, tt))

pop_priority-push_priority_example :
    let r =
      pop_priority text_json named_memory "a"
        (push_priority text_json named_memory "a" (text "first") (pos 2) delayed_keys).1 in
    (r.0 ≡ ok (text "first")) × (r.1.sorted "a" ≡ waiting)
unfolding has write_text
pop_priority-push_priority_example =
    pop_priority-push_priority text_json named_memory named_memory-NeverFails "a"
      (write_text "first" "") (text "first") (pos 2) delayed_keys refl refl (refl, (refl, tt))
