-- ===== src/Scheduler/Lock/Tests.antt =====
-- Three operations on two services.
use instacloud_oss.Base.{
  ◌≡◌, refl, inl, inr, String, true, false, List, [], ◌∷◌, string_instance, nat_instance, contains,
  get, put,
}
use instacloud_oss.Scheduler.Lock.{
  Gate, OpLock, is_admitted, is_ready, outstanding, with_op, enter, needed, dedup, enqueue_all,
  extend_chains,
}
use instacloud_oss.Scheduler.Lock.Invariant.{In}
use instacloud_oss.Scheduler.Lock.Steps.{idle_lock, calls, Reachable, begins, goes}
use instacloud_oss.Scheduler.Lock.Exclusion.{exclusive, progress}

-- The keys of these operations come in order.
abbrev in_order : List String → List String
in_order ks = ks

abbrev after_two : OpLock
after_two = (with_op in_order [] ("a" ∷ "b" ∷ []) (with_op in_order [] ("b" ∷ []) idle_lock).1).1

two_calls : Reachable in_order (λ ks d. d) after_two
two_calls =
    goes (with_op in_order [] ("b" ∷ []) idle_lock).1 after_two
      (goes idle_lock (with_op in_order [] ("b" ∷ []) idle_lock).1 begins
        (calls [] ("b" ∷ []) idle_lock))
      (calls [] ("a" ∷ "b" ∷ []) (with_op in_order [] ("b" ∷ []) idle_lock).1)

abbrev first : Gate
first = record { id = 0; keys = "b" ∷ []; waits = []; released = false }

exclusive_example : first.id ≡ first.id
unfolding with_op enter needed dedup contains enqueue_all extend_chains get put is_ready outstanding
exclusive_example =
    exclusive in_order (λ ks d. d) after_two first first "b" two_calls (inr (inl refl))
      (inr (inl refl)) refl refl refl refl

progress_example : (g : Gate) × In g after_two.gates × (is_admitted g after_two ≡ true)
unfolding with_op enter needed dedup contains enqueue_all extend_chains get put
progress_example = progress in_order (λ ks d. d) after_two two_calls refl
