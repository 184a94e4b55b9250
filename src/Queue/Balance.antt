-- ===== src/Queue/Balance.antt =====
-- The invariant of the queue: each counter of the statistics is the size of its collection, the
-- total is the number of items that are anywhere, no two items share an ID, every ID has the
-- underscore that Enqueue writes, the members of the queue are written by the codec,
-- and each stands there at its negated priority. Here: the pipelines that add or start an item keep it; the children have the others.
pub mod Transitions
pub mod Rewrites
use engine_api_workflow.Common.{
  false, has_underscore, Bool, ℕ, ◌+◌, ◌≡◌, ◌≤◌, ℤ, pos, neg, negsuc, ◌+ℤ◌, String, [], ◌∷◌, true,
  some, arith, length, inl, inr, ap, sym, subst, ◌∙◌,
}
use engine_api_workflow.Queue.Redis.{
  Sorted, View, apply_all, has, srem, sadd, processing_set, completed_set, failed_set,
}
use engine_api_workflow.Queue.Item.{QueueItem, Codec}
use engine_api_workflow.Queue.Pipelines.{
  enqueue_commands, delay_commands, start_commands, release_commands, completed_commands,
  failed_commands, retry_later_commands, retry_now_commands, restart_commands,
  expire_retry_commands, expire_fail_commands,
}
use engine_api_workflow.Queue.Census.{
  zhas, carries, zids, holders, carries_own, carries_cases, zinsert_fresh, AllWritten,
  zinsert-AllWritten, rest-AllWritten,
}
use engine_api_workflow.Queue.Order.{IsRanked, zinsert-IsRanked}
use engine_api_workflow.Queue.Moves.{
  move_set, move_set_sorted, move_sorted, move_first, rewrite_set,
}

pub record IsBalanced (codec : Codec) (v : View) : Type 0 where
  pub queued_count : v.n_queued ≡ pos (length v.queue)
  pub delayed_count : v.n_delayed ≡ pos (length v.later)
  pub processing_count : v.n_processing ≡ pos (length v.running)
  pub completed_count : v.n_completed ≡ pos (length v.done)
  pub failed_count : v.n_failed ≡ pos (length v.dead)
  pub total_count :
      v.n_total
      ≡ pos (length v.queue + length v.later + length v.running + length v.done + length v.dead)
  pub unique : (id : String) → holders codec id v ≤ 1
  pub named : (id : String) → has_underscore id ≡ false → holders codec id v ≡ 0
  pub written : AllWritten codec v.queue
  pub ranked : IsRanked codec v.queue

-- Adding one to a counter, and taking one away.
pub up : (n : ℤ) (k j : ℕ) → n ≡ pos k → j ≡ k + 1 → n +ℤ pos 1 ≡ pos j
unfolding ◌+ℤ◌
up n k j h e = ground arith

pub down : (n : ℤ) (k j : ℕ) → n ≡ pos k → j + 1 ≡ k → n +ℤ negsuc 0 ≡ pos j
unfolding ◌+ℤ◌
down n k j h e = ground arith

module _ (codec : Codec) (before : String → String → Bool) where
  open codec use {marshal, unmarshal}

  -- A new ID joins: nobody held it, and every other ID is held as before.
  joined :
      (id m : String) (i : QueueItem) (v : View) (k : ℕ)
      → unmarshal m ≡ some i
      → holders codec i.id v ≡ 0
      → IsBalanced codec v
      → k ≡ holders codec id v + carries codec id m
      → k ≤ 1
  joined id m i v k u fresh b e = elim (carries_cases codec id m i u) [
    | inl other ↦ omega (arith, b.unique id)
    | inr (own, same) ↦ omega (arith, subst (λ j. holders codec j v ≡ 0) same fresh)
  ]

  unmarked :
      (id m : String) (i : QueueItem) (v : View) (k : ℕ)
      → unmarshal m ≡ some i
      → has_underscore i.id ≡ true
      → has_underscore id ≡ false
      → IsBalanced codec v
      → k ≡ holders codec id v + carries codec id m
      → k ≡ 0
  unmarked id m i v k u marked plain b e = elim (carries_cases codec id m i u) [
    | inl other ↦ omega (arith, b.named id plain)
    | inr (own, same) ↦ absurd (cc (ap has_underscore same))
  ]

  pub enqueue_commands-IsBalanced :
      (priority : ℤ) (m : String) (i : QueueItem) (v : View)
      → marshal i ≡ some m
      → i.priority ≡ priority
      → has_underscore i.id ≡ true
      → holders codec i.id v ≡ 0
      → IsBalanced codec v
      → IsBalanced codec (apply_all before (enqueue_commands priority m) v)
  unfolding apply_all holders
  enqueue_commands-IsBalanced priority m i v w level marked fresh b =
      let u = codec.unmarshal-marshal i m w in
      let own = carries_own codec m i u in
      let placed = λ (id : String).
        zinsert_fresh codec before i.id id (neg priority) m v.queue own (omega arith) in
      record {
        queued_count = up v.n_queued _ _ b.queued_count (placed "").0;
        delayed_count = b.delayed_count;
        processing_count = b.processing_count;
        completed_count = b.completed_count;
        failed_count = b.failed_count;
        total_count = up v.n_total _ _ b.total_count (omega (arith, (placed "").0));
        unique = λ id. joined id m i v _ u fresh b (omega (arith, (placed id).1));
        named = λ id plain. unmarked id m i v _ u marked plain b (omega (arith, (placed id).1));
        written = zinsert-AllWritten codec before (neg priority) m i v.queue w b.written;
        ranked =
            zinsert-IsRanked codec before (neg priority) m i v.queue w (ap neg (sym level))
              b.ranked;
      }

  pub delay_commands-IsBalanced :
      (score : ℕ) (m : String) (i : QueueItem) (v : View)
      → marshal i ≡ some m
      → has_underscore i.id ≡ true
      → holders codec i.id v ≡ 0
      → IsBalanced codec v
      → IsBalanced codec (apply_all before (delay_commands score m) v)
  unfolding apply_all holders
  delay_commands-IsBalanced score m i v w marked fresh b =
      let u = codec.unmarshal-marshal i m w in
      let own = carries_own codec m i u in
      let placed = λ (id : String).
        zinsert_fresh codec before i.id id (pos score) m v.later own (omega arith) in
      record {
        queued_count = b.queued_count;
        delayed_count = up v.n_delayed _ _ b.delayed_count (placed "").0;
        processing_count = b.processing_count;
        completed_count = b.completed_count;
        failed_count = b.failed_count;
        total_count = up v.n_total _ _ b.total_count (omega (arith, (placed "").0));
        unique = λ id. joined id m i v _ u fresh b (omega (arith, (placed id).1));
        named = λ id plain. unmarked id m i v _ u marked plain b (omega (arith, (placed id).1));
        written = b.written;
        ranked = b.ranked;
      }

  -- The first of the queue has been taken out by ZPOPMIN, and its counters are still to be changed.
  pub start_commands-IsBalanced :
      (m n : String) (i j : QueueItem) (score : ℤ) (rest : Sorted) (v : View)
      → unmarshal m ≡ some i
      → marshal j ≡ some n
      → j.id ≡ i.id
      → v.queue ≡ (score, m) ∷ rest
      → IsBalanced codec v
      → IsBalanced codec (apply_all before (start_commands n) (record v { queue = rest }))
  unfolding apply_all holders zids
  start_commands-IsBalanced m n i j score rest v um wn same first b =
      let rank = subst (IsRanked codec) first b.ranked in
      let un = codec.unmarshal-marshal j n wn in
      let size : length v.queue ≡ length rest + 1 = ap length first ∙ (omega arith) in
      let held : (id : String) → zids codec id v.queue ≡ carries codec id m + zids codec id rest =
        λ id. ap (zids codec id) first in
      let (came, kept) =
        move_first codec before m n i j um un same score rest v.running
          (omega (arith, b.unique i.id, held i.id)) in
      record {
        queued_count = down v.n_queued _ _ b.queued_count (omega (arith, size));
        delayed_count = b.delayed_count;
        processing_count = up v.n_processing _ _ b.processing_count came;
        completed_count = b.completed_count;
        failed_count = b.failed_count;
        total_count = b.total_count ∙ ap pos (omega (arith, size, came));
        unique = λ id. omega (arith, b.unique id, kept id, held id);
        named = λ id plain. omega (arith, b.named id plain, kept id, held id);
        written = rest-AllWritten codec score m rest (subst (AllWritten codec) first b.written);
        ranked = (rank.0.1, rank.1.1);
      }
