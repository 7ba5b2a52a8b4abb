-- ===== src/Delegations/Observed.antt =====
-- domain/work-steps.ts: where the activities come from that `projectNativeDelegation` shows.
use world_wide_woo.Common.{
  ◌≡◌, refl, subst, inl, inr, String, Option, none, some, List, [], ◌∷◌, All, All-append, leb,
  Bool-cases, Option-cases, arith,
}
use world_wide_woo.Value.{Value, Fields}
use world_wide_woo.Dict.{Dict, lookup}
use world_wide_woo.Dict.Each.{Each, insert-Each, lookup-Each}
use world_wide_woo.Activities.{ProjectActivity}
use world_wide_woo.Delegations.{
  DelegationRuntime, NativeDelegationActivity, NativeDelegatedTask, NativeDelegationProjection,
  filled, item_fields, place_in, by_sequence, is_call, is_collaboration, group, ensured,
  delegation_activity, push_activity, called, call_message, hand_over, then_tasks, hand_over_all,
  receivers, follow, take_item, take_items, project_turns, project_native_delegation, text_at,
  delegation_text,
}

-- What is known of the activities of the journal.
module _ (P : ProjectActivity → Type 0) where
  pub record HasRefs (turn : String) (a : ProjectActivity) : Type 0 where
    pub known : P a
    pub turn_ref : filled a.native_refs.turn_id ≡ some turn
    pub item : String
    pub item_ref : filled a.native_refs.item_id ≡ some item

  -- A shown activity: it has the id and the references of an activity of the journal, of the turn.
  pub record IsObserved (turn : String) (d : NativeDelegationActivity) : Type 0 where
    pub origin : ProjectActivity
    pub refs : HasRefs turn origin
    pub same_id : d.activity_id ≡ origin.id
    pub same_turn : d.turn_id ≡ turn
    pub same_item : filled origin.native_refs.item_id ≡ some d.item_id

  abbrev pub IsObservedTask : String → String → NativeDelegatedTask → Type 0
  IsObservedTask turn id t = All (IsObserved turn) t.activities

  abbrev pub AreObserved : String → Dict NativeDelegatedTask → Type 0
  AreObserved turn = Each (IsObservedTask turn)

  abbrev pub IsTurn : String → List ProjectActivity → Type 0
  IsTurn turn = All (HasRefs turn)

  place_in-IsTurn :
      (turn : String) (a : ProjectActivity) (bs : List ProjectActivity)
      → HasRefs turn a
      → IsTurn turn bs
      → IsTurn turn (place_in a bs)
  unfolding place_in
  place_in-IsTurn turn a [] h k = (h, tt)
  place_in-IsTurn turn a (b ∷ bs) h k = elim (Bool-cases (leb a.sequence b.sequence)) [
    | inl first ↦ rw first (h, k)
    | inr later ↦ rw later (k.0, place_in-IsTurn turn a bs h k.1)
  ]

  by_sequence-IsTurn :
      (turn : String) (entries : List ProjectActivity)
      → IsTurn turn entries
      → IsTurn turn (by_sequence entries)
  unfolding by_sequence
  by_sequence-IsTurn turn [] h = tt
  by_sequence-IsTurn turn (a ∷ more) h =
      place_in-IsTurn turn a (by_sequence more) h.0 (by_sequence-IsTurn turn more h.1)

  module _ (rt : DelegationRuntime) where
    before-IsTurn :
        (turn : String) (turns : Dict (List ProjectActivity))
        → Each IsTurn turns
        → IsTurn turn (elim (lookup turn turns) [ none ↦ [] | some entries ↦ entries ])
    before-IsTurn turn turns h = elim (Option-cases (lookup turn turns)) [
      | inl new ↦ rw new tt
      | inr (entries, there) ↦ rw there (lookup-Each IsTurn turn turns h there)
    ]

    group-IsTurn :
        (activities : List ProjectActivity) (turns : Dict (List ProjectActivity))
        → All P activities
        → Each IsTurn turns
        → Each IsTurn (group rt activities turns)
    unfolding group
    group-IsTurn [] turns p h = h
    group-IsTurn (a ∷ more) turns p h =
        let skipped = group-IsTurn more turns p.1 h in
        elim (Bool-cases (is_collaboration rt (item_fields a))) [
          | inr other ↦ rw (group, other) skipped
          | inl ours ↦ elim (Option-cases (filled a.native_refs.turn_id)) [
            | inl no_turn ↦ rw (group, ours, no_turn) skipped
            | inr (turn, turn_ref) ↦ elim (Option-cases (filled a.native_refs.item_id)) [
              | inl no_item ↦ rw (group, ours, turn_ref, no_item) skipped
              | inr (item, item_ref) ↦
                  let here : HasRefs turn a = record {
                    known = p.0;
                    turn_ref = turn_ref;
                    item = item;
                    item_ref = item_ref;
                  } in
                  rw (group, ours, turn_ref, item_ref)
                    (group-IsTurn more _ p.1 (
                      insert-Each IsTurn turn _ turns h (
                        All-append (HasRefs turn) _ (a ∷ []) (before-IsTurn turn turns h)
                          (here, tt))))
            ]
          ]
        ]

    -- A step returns, and what it returns was observed.
    abbrev pub Shows : String → Option (Dict NativeDelegatedTask) → Type 0
    Shows turn none = ⊥
    Shows turn (some tasks) = AreObserved turn tasks

    activity_returns :
        (turn : String) (a : ProjectActivity) (item : Fields) (message : Option String)
        → HasRefs turn a
        → (d : NativeDelegationActivity) × (delegation_activity rt a item message ≡ some d)
          × IsObserved turn d
    unfolding delegation_activity
    activity_returns turn a item message h =
        elim (Option-cases (delegation_activity rt a item message)) [
          | inl thrown ↦ absurd (ground (arith, thrown, h.turn_ref, h.item_ref))
          | inr (d, made) ↦ (
            d,
            made,
            record {
              origin = a;
              refs = h;
              same_id = ground (arith, made, h.turn_ref, h.item_ref);
              same_turn = ground (arith, made, h.turn_ref, h.item_ref);
              same_item = ground (arith, made, h.turn_ref, h.item_ref);
            },
          )
        ]

    push-Shows :
        (turn : String) (a : ProjectActivity) (item : Fields) (message : Option String)
        (id : String) (t : NativeDelegatedTask) (tasks : Dict NativeDelegatedTask)
        → HasRefs turn a
        → All (IsObserved turn) t.activities
        → AreObserved turn tasks
        → Shows turn (push_activity rt a item message id t tasks)
    unfolding push_activity
    push-Shows turn a item message id t tasks h k o =
        let (d, made, seen) = activity_returns turn a item message h in
        rw (push_activity, made)
          (insert-Each (IsObservedTask turn) id _ tasks o
            (All-append (IsObserved turn) t.activities (d ∷ []) k (seen, tt)))

    ensured-IsObserved :
        (turn : String) (id : String) (parent : Option String) (tasks : Dict NativeDelegatedTask)
        → AreObserved turn tasks
        → All (IsObserved turn) (ensured rt id parent tasks).activities
    unfolding ensured
    ensured-IsObserved turn id parent tasks o = elim (Option-cases (lookup id tasks)) [
      | inl new ↦ rw (ensured, new) tt
      | inr (t, there) ↦ rw (ensured, there) (lookup-Each (IsObservedTask turn) id tasks o there)
    ]

    hand_over-Shows :
        (turn : String) (a : ProjectActivity) (item : Fields) (id : String)
        (tasks : Dict NativeDelegatedTask)
        → HasRefs turn a
        → AreObserved turn tasks
        → Shows turn (hand_over rt a item id tasks)
    unfolding hand_over called
    hand_over-Shows turn a item id tasks h o =
        let parent = text_at rt "senderThreadId" item in
        let old = ensured-IsObserved turn id parent tasks o in
        elim (Option-cases (call_message rt id item)) [
          | inl silent ↦
              rw (hand_over, silent)
                (insert-Each (IsObservedTask turn) id
                  (called rt id item (ensured rt id parent tasks)) tasks o old)
          | inr (message, said) ↦
              rw (hand_over, said)
                (push-Shows turn a item (some message) id
                  (called rt id item (ensured rt id parent tasks)) tasks h old o)
        ]

    then-Shows :
        (turn : String) (o : Option (Dict NativeDelegatedTask))
        (k : Dict NativeDelegatedTask → Option (Dict NativeDelegatedTask))
        → Shows turn o
        → ((tasks : Dict NativeDelegatedTask) → AreObserved turn tasks → Shows turn (k tasks))
        → Shows turn (then_tasks rt o k)
    then-Shows turn none k h f = h
    then-Shows turn (some tasks) k h f = f tasks h

    hand_over_all-Shows :
        (turn : String) (a : ProjectActivity) (item : Fields) (vs : List Value)
        (tasks : Dict NativeDelegatedTask)
        → HasRefs turn a
        → AreObserved turn tasks
        → Shows turn (hand_over_all rt a item vs tasks)
    unfolding hand_over_all
    hand_over_all-Shows turn a item [] tasks h o = o
    hand_over_all-Shows turn a item (v ∷ vs) tasks h o =
        elim (Option-cases (delegation_text rt v)) [
          | inl nothing ↦ rw (hand_over_all, nothing) (hand_over_all-Shows turn a item vs tasks h o)
          | inr (id, named) ↦
              rw (hand_over_all, named)
                (then-Shows turn (hand_over rt a item id tasks) (hand_over_all rt a item vs)
                  (hand_over-Shows turn a item id tasks h o)
                  (λ next k. hand_over_all-Shows turn a item vs next h k))
        ]

    follow-Shows :
        (turn : String) (a : ProjectActivity) (item : Fields) (tasks : Dict NativeDelegatedTask)
        → HasRefs turn a
        → AreObserved turn tasks
        → Shows turn (follow rt a item tasks)
    unfolding follow
    follow-Shows turn a item tasks h o = elim (Option-cases (text_at rt "agentThreadId" item)) [
      | inl nobody ↦ rw (follow, nobody) o
      | inr (id, named) ↦
          rw (follow, named)
            (push-Shows turn a item _ id _ tasks h (ensured-IsObserved turn id none tasks o) o)
    ]

    take_items-Shows :
        (turn : String) (entries : List ProjectActivity) (tasks : Dict NativeDelegatedTask)
        → IsTurn turn entries
        → AreObserved turn tasks
        → Shows turn (take_items rt entries tasks)
    unfolding take_items take_item
    take_items-Shows turn [] tasks h o = o
    take_items-Shows turn (a ∷ more) tasks h o =
        let item = item_fields a in
        then-Shows turn (take_item rt a tasks) (take_items rt more)
          (elim (Bool-cases (is_call rt item)) [
            | inl call ↦
                rw (take_item, call)
                  (hand_over_all-Shows turn a item (receivers rt item) tasks h.0 o)
            | inr own ↦ rw (take_item, own) (follow-Shows turn a item tasks h.0 o)
          ])
          (λ next k. take_items-Shows turn more next h.1 k)

    abbrev pub IsObservedProjection : NativeDelegationProjection → Type 0
    IsObservedProjection p = AreObserved p.turn_id p.tasks

    project_turns-observed :
        (turns : Dict (List ProjectActivity))
        → Each IsTurn turns
        → (ps : List NativeDelegationProjection) × (project_turns rt turns ≡ some ps)
          × All IsObservedProjection ps
    unfolding project_turns Each
    project_turns-observed [] h = ([], refl, tt)
    project_turns-observed ((turn, entries) ∷ turns) h =
        let shows =
          take_items-Shows turn (by_sequence entries) [] (by_sequence-IsTurn turn entries h.0) tt in
        let (ps, projected, observed) = project_turns-observed turns h.1 in
        elim (Option-cases (take_items rt (by_sequence entries) [])) [
          | inl thrown ↦ absurd (subst (Shows turn) thrown shows)
          | inr (tasks, taken) ↦ (
            record { turn_id = turn; tasks = tasks } ∷ ps,
            rw (project_turns, taken, projected) refl,
            (subst (Shows turn) taken shows, observed),
          )
        ]

    -- The projection never throws, and each activity that it shows under a turn's task has the id, the
    -- turn and the item of an activity of the journal: whatever holds of all the activities of the
    -- journal holds of that one.
    pub project_native_delegation-observed :
        (activities : List ProjectActivity)
        → All P activities
        → (ps : List NativeDelegationProjection) × (project_native_delegation rt activities
            ≡ some ps)
          × All IsObservedProjection ps
    unfolding project_native_delegation Each
    project_native_delegation-observed activities p =
        project_turns-observed (group rt activities []) (group-IsTurn activities [] p tt)
