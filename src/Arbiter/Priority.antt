-- ===== src/Arbiter/Priority.antt =====
-- When the arbiter assigns work, and when it acts at all.
use model_lib.Prelude.{◌≤◌, String, true, false, ◌≡◌, string_eq, nat_eq, arith}
use model_lib.Tx.{ok}
use model_lib.Json.{Codec}
use model_lib.Arbiter.{
  ArbiterSnapshot, ActivationDecision, assign_worker, is_terminal, choose, capacity_of, decide,
}

-- nothing stands in the way of new work
pub record IsClear (s : ArbiterSnapshot) : Type 0 where
  pub open_project : is_terminal s.project_status ≡ false
  pub authenticated : s.auth_blocked ≡ false
  pub none_ambiguous : s.ambiguous_intents ≡ 0
  pub none_stale : s.stale_results ≡ 0
  pub active : s.master_active ≡ true

choose-IsClear : (s : ArbiterSnapshot) → choose s ≡ assign_worker → IsClear s
unfolding choose
choose-IsClear s h = record {
  open_project = ground (arith, h);
  authenticated = ground (arith, h);
  none_ambiguous = ground (arith, h);
  none_stale = ground (arith, h);
  active = ground (arith, h);
}

choose_capacity :
    (s : ArbiterSnapshot)
    → choose s ≡ assign_worker
    → (1 ≤ capacity_of s assign_worker)
      × (capacity_of s assign_worker ≤ s.ready_tasks)
      × (capacity_of s assign_worker ≤ s.free_slots)
unfolding choose
choose_capacity s h = (ground (arith, h), ground (arith, h), ground (arith, h))

chosen :
    (codec : Codec) (actor : String) (s : ArbiterSnapshot) (d : ActivationDecision)
    → decide codec actor s ≡ ok d
    → (d.action ≡ choose s) × (d.capacity ≡ capacity_of s (choose s))
unfolding decide
chosen codec actor s d h = (ground (arith, h), ground (arith, h))

-- A decision to assign work is made only where nothing stands in the way of it, and its capacity is at
-- least one and within both the ready tasks and the free slots.
pub decide-IsClear :
    (codec : Codec) (actor_id : String) (s : ArbiterSnapshot) (d : ActivationDecision)
    → decide codec actor_id s ≡ ok d
    → d.action ≡ assign_worker
    → IsClear s × (1 ≤ d.capacity) × (d.capacity ≤ s.ready_tasks) × (d.capacity ≤ s.free_slots)
decide-IsClear codec actor_id s d h assign =
    let (same, capacity) = chosen codec actor_id s d h in
    let c = choose_capacity s (cc (same, assign)) in
    (
      choose-IsClear s (cc (same, assign)),
      ground (arith, c, same, assign, capacity),
      ground (arith, c, same, assign, capacity),
      ground (arith, c, same, assign, capacity),
    )
