-- ===== src/Todo/Progress.antt =====
-- domain/todos.ts: the progress counts of `progressFor` against plain counts of the statuses.
use world_wide_woo.Common.{◌+◌, ◌≡◌, List, [], ◌∷◌, length, count, arith}
use world_wide_woo.Todo.{
  TodoItemStatus, pending, in_progress, completed, blocked, TodoProgress, is_pending,
  is_in_progress, is_completed, is_blocked, count_statuses, progress_for,
}

-- The counts of a list of statuses.
pub record IsCounted (ss : List TodoItemStatus) (p : TodoProgress) : Type 0 where
  pub total : p.total ≡ length ss
  pub completed : p.completed ≡ count is_completed ss
  pub active : p.active ≡ count is_in_progress ss
  pub pending : p.pending ≡ count is_pending ss
  pub blocked : p.blocked ≡ count is_blocked ss
  pub partition : p.completed + p.active + p.pending + p.blocked ≡ p.total

count_statuses-add :
    (ss : List TodoItemStatus) (p : TodoProgress)
    → ((count_statuses ss p).total ≡ p.total)
      × ((count_statuses ss p).completed ≡ p.completed + count is_completed ss)
      × ((count_statuses ss p).active ≡ p.active + count is_in_progress ss)
      × ((count_statuses ss p).pending ≡ p.pending + count is_pending ss)
      × ((count_statuses ss p).blocked ≡ p.blocked + count is_blocked ss)
unfolding count_statuses
count_statuses-add [] p = omega arith
count_statuses-add (completed ∷ ss) p =
    omega (arith, count_statuses-add ss (record p { completed = p.completed + 1 }))
count_statuses-add (in_progress ∷ ss) p =
    omega (arith, count_statuses-add ss (record p { active = p.active + 1 }))
count_statuses-add (blocked ∷ ss) p =
    omega (arith, count_statuses-add ss (record p { blocked = p.blocked + 1 }))
count_statuses-add (pending ∷ ss) p =
    omega (arith, count_statuses-add ss (record p { pending = p.pending + 1 }))

one_status :
    (ss : List TodoItemStatus)
    → count is_completed ss + count is_in_progress ss + count is_pending ss + count is_blocked ss
      ≡ length ss
one_status [] = omega arith
one_status (completed ∷ ss) = omega (arith, one_status ss)
one_status (in_progress ∷ ss) = omega (arith, one_status ss)
one_status (blocked ∷ ss) = omega (arith, one_status ss)
one_status (pending ∷ ss) = omega (arith, one_status ss)

-- Each count is the number of the items of its status, and the four counts add up to the total.
pub progress_for-IsCounted : (ss : List TodoItemStatus) → IsCounted ss (progress_for ss)
unfolding progress_for
progress_for-IsCounted ss =
    let start : TodoProgress = record {
      total = length ss;
      completed = 0;
      active = 0;
      pending = 0;
      blocked = 0;
    } in
    let facts = count_statuses-add ss start in
    record {
      total = omega (arith, facts);
      completed = omega (arith, facts);
      active = omega (arith, facts);
      pending = omega (arith, facts);
      blocked = omega (arith, facts);
      partition = omega (arith, facts, one_status ss);
    }
