-- ===== src/Samples.antt =====
-- Concrete inputs for the runs in Tests: a text runtime that changes nothing, a store in memory, and
-- small documents.
use world_wide_woo.Common.{
  ℕ, String, Bool, true, false, Option, none, some, List, [], ◌∷◌, Result, ok, ◌==◌, if◌then◌else◌,
}
use world_wide_woo.Todo.{pending, in_progress, completed, TodoItem, TodoDocument, TextRuntime}
use world_wide_woo.Ledger.Native.{LedgerRuntime}
use world_wide_woo.Ledger.State.{TodoEvent, Ports, Ledger, revision_of}

abbrev pub plain : TextRuntime
plain = record { replace = λ p s. s; trim = λ s. s; parses_as_date = λ s. true }

abbrev pub noon : String
noon = "2026-09-07T12:00:00.000Z"

abbrev pub first_item : TodoItem
first_item = record {
  id = "todo-1";
  content = "one";
  status = in_progress;
  evidence_ids = "run-1" ∷ [];
  details = [];
}

abbrev pub second_item : TodoItem
second_item = record {
  id = "todo-2";
  content = "two";
  status = pending;
  evidence_ids = [];
  details = [];
}

abbrev pub two_items : TodoDocument
two_items = record {
  revision = 3;
  owner_session_id = "s1";
  story_id = none;
  title = "Work";
  items = first_item ∷ second_item ∷ [];
  updated_at = noon;
}

-- The stored document and the recorded events.
pub record Memory : Type 0 where
  pub stored : Option TodoDocument
  pub events : List TodoEvent

abbrev pub same_revision : Option ℕ → Option ℕ → Bool
same_revision none none = true
same_revision none (some n) = false
same_revision (some m) none = false
same_revision (some m) (some n) = m == n

abbrev pub swap_in : Option ℕ → TodoDocument → Memory → Result String Bool × Memory
swap_in expected next m =
    if same_revision expected (revision_of m.stored)
    then (ok true, record m { stored = some next })
    else (ok false, m)

abbrev pub memory_ports : Ports Memory
memory_ports = record {
  read = λ m. (ok m.stored, m);
  compare_and_swap = swap_in;
  last_conflict_source = λ m. none;
  read_source = none;
  append = λ session event m. (ok tt, record m { events = event ∷ m.events });
  now = λ m. (noon, m);
}

abbrev pub working : Ledger Memory
working = record {
  session_id = "s1";
  current = some two_items;
  emitted = [];
  watching = true;
  outside = record { stored = some two_items; events = [] };
}

abbrev pub plain_ledger : LedgerRuntime
plain_ledger = record { text = plain; matches = λ p s. false }

abbrev pub third_item : TodoItem
third_item = record {
  id = "todo-3";
  content = "three";
  status = pending;
  evidence_ids = [];
  details = [];
}

abbrev pub three_items : TodoDocument
three_items = record two_items { revision = 4; items = first_item ∷ third_item ∷ second_item ∷ [] }

abbrev pub first_done : TodoItem
first_done = record first_item { status = completed }

abbrev pub one_done : TodoDocument
one_done = record two_items { revision = 4; items = first_done ∷ second_item ∷ [] }

abbrev pub urgent_item : TodoItem
urgent_item = record {
  id = "todo-3";
  content = "urgent";
  status = in_progress;
  evidence_ids = [];
  details = [];
}

abbrev pub first_waiting : TodoItem
first_waiting = record first_item { status = pending; evidence_ids = [] }

abbrev pub urgent_items : TodoDocument
urgent_items = record two_items {
  revision = 4;
  items = urgent_item ∷ first_waiting ∷ second_item ∷ [];
}
