-- ===== src/Idempotency/Redis.antt =====
-- `RedisIdempotencyStore` keeps the worker's contract on a server that answers as Redis documents
-- SET NX, SET, DEL and EXISTS, while no key expires.
use text.Mathlib.TextLemmas.{append_cancel_left, append_assoc, cons-append, head-eq_of_cons-eq}
use Prim.Native.Char.{code}
use log_morph.Common.{
  String, ◌≡◌, ◌≢◌, sym, ap, ◌∙◌, Bool, true, false, ok, ◌==◌, if◌then◌else◌, arith, eq_iff,
}
use log_morph.Common.Text.{◌+++◌}
use log_morph.Common.Integer.{ℤ}
use log_morph.Idempotency.{
  RedisKeys, redis_store, redis_try_claim, redis_release, redis_mark_done, redis_is_done,
  default_proc_key_prefix, default_done_key_prefix,
}
use log_morph.Idempotency.Lawful.{Views, IsLawful}

pub record IsRedis {S : Type 0} (client : RedisKeys S) : Type 0 where
  pub present : S → String → Bool
  pub set_nx_answer :
      (k : String) (ttl : ℤ) (s : S)
      → (client.set_nx k ttl s).0 ≡ ok (if present s k then false else true)
  pub set_nx_present :
      (k : String) (ttl : ℤ) (s : S) (j : String)
      → present (client.set_nx k ttl s).1 j ≡ (if k == j then true else present s j)
  pub set_nx_refused :
      (k : String) (ttl : ℤ) (s : S) → present s k ≡ true → (client.set_nx k ttl s).1 ≡ s
  pub set_key_present :
      (k : String) (ttl : ℤ) (s : S) (j : String)
      → present (client.set_key k ttl s).1 j ≡ (if k == j then true else present s j)
  pub del_present :
      (k : String) (s : S) (j : String)
      → present (client.del k s).1 j ≡ (if k == j then false else present s j)
  pub exists_answer :
      (k : String) (s : S) → client.exists k s ≡ (ok (if present s k then 1 else 0), s)

abbrev pub proc : String → String
proc id = default_proc_key_prefix +++ id

abbrev pub done_key : String → String
done_key id = default_done_key_prefix +++ id

same_key : (prefix x y : String) → ((prefix +++ x) == (prefix +++ y)) ≡ (x == y)
same_key prefix x y =
    ground (arith, eq_iff x y, eq_iff (prefix +++ x) (prefix +++ y), append_cancel_left prefix x y)

proc-ne-done : (x y : String) → proc x ≢ done_key y
proc-ne-done x y h =
    let tails : ("proc:" +++ x) ≡ ("done:" +++ y) =
      append_cancel_left "ulpf:" _ _
        (sym (append_assoc "ulpf:" "proc:" x) ∙ (h ∙ append_assoc "ulpf:" "done:" y)) in
    let heads =
      head-eq_of_cons-eq (sym (cons-append "p" "roc:" x) ∙ (tails ∙ cons-append "d" "one:" y)) in
    absurd (omega (arith, ap code heads))

proc-eqb-done : (x y : String) → (proc x == done_key y) ≡ false
proc-eqb-done x y = ground (arith, eq_iff (proc x) (done_key y), proc-ne-done x y)

done-eqb-proc : (x y : String) → (done_key x == proc y) ≡ false
done-eqb-proc x y =
    ground
      (arith, eq_iff (done_key x) (proc y), λ (h : done_key x ≡ proc y). proc-ne-done y x (sym h))

module _ {S : Type 0} (client : RedisKeys S) (r : IsRedis client) where
  abbrev pub redis_views : Views S
  redis_views = record {
    locked = λ s id. r.present s (proc id);
    done = λ s id. r.present s (done_key id);
  }

  is_done_answer :
      (id : String) (s : S) → redis_is_done client id s ≡ (ok (redis_views.done s id), s)
  unfolding redis_is_done
  is_done_answer id s = rw r.exists_answer (ground arith)

  -- Over a server that answers as Redis documents its commands, and while no key expires, the
  -- Redis store keeps the worker's contract, and its `MarkDone` leaves every lock.
  pub redis_store-IsLawful :
      IsLawful (redis_store client) redis_views
      × ((id : String) (ttl : ℤ) (s : S) (j : String)
          → redis_views.locked (redis_mark_done client id ttl s).1 j ≡ redis_views.locked s j)
  unfolding redis_try_claim redis_release redis_mark_done
  redis_store-IsLawful = (
    record {
      is_done_lem = is_done_answer;
      claim_answer = λ id ttl s. r.set_nx_answer (proc id) ttl s;
      claim_locked = λ id ttl s j. rw (r.set_nx_present, same_key);
      claim_done = λ id ttl s j. rw (r.set_nx_present, proc-eqb-done);
      claim_refused = λ id ttl s h. r.set_nx_refused (proc id) ttl s h;
      release_locked = λ id s j. rw (r.del_present, same_key);
      release_done = λ id s j. rw (r.del_present, proc-eqb-done);
      mark_done_lem = λ id ttl s j. rw (r.set_key_present, same_key);
      mark_done_others = λ id ttl s j ne. rw (r.set_key_present, done-eqb-proc);
    },
    λ id ttl s j. rw (r.set_key_present, done-eqb-proc),
  )
