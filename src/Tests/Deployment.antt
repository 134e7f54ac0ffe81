-- ===== src/Tests/Deployment.antt =====
-- The theorems on what is deployed, and on the tables that the tests make.
use recs.Prelude.{ℕ, ◌+◌, ◌≡◌, refl, some, arith, ltb}
use recs.Errors.{Result, ok}
use recs.Messages.{delete_romances_topic, delete_romances_group_topic}
use recs.DataStack.{data_stack}
use recs.DataStack.Queues.{Serves, data_stack-Serves}
use recs.TableHelpers.{
  Admin, create_counters_table, create_romances_table, wait_active, milliseconds,
}
use recs.TableHelpers.Waiting.{IsClock, create_tables-Ends}

data_stack-Serves_example :
    Serves "us-east-1" delete_romances_topic data_stack.delete_romances_fifo_topic
      data_stack.delete_romances_fifo_queue
    × Serves "us-east-1" delete_romances_group_topic data_stack.delete_romances_group_fifo_topic
        data_stack.delete_romances_group_fifo_queue
data_stack-Serves_example = data_stack-Serves "us-east-1"

-- a service that makes tables, which become active a second after the clock's start
abbrev slow_admin : Admin ℕ
slow_admin = record {
  create_table = λ i w. (ok tt, w);
  describe_table = λ t w. (ok (ltb 1000000000 w), w);
  update_time_to_live = λ t attr w. (ok tt, w);
  now = λ w. (w, 1 + w);
  sleep = λ d w. w + d;
}

slow_admin-IsClock : IsClock slow_admin
slow_admin-IsClock = record {
  now_on = λ w. omega arith;
  describe_on = λ t w. omega arith;
  sleep_on = λ d w. omega arith;
}

create_tables-Ends_example :
    ((r : Result (Unit {0})) × (w : ℕ) × (create_counters_table slow_admin 51 0 ≡ some (r, w)))
    × ((r : Result (Unit {0})) × (w : ℕ) × (create_romances_table slow_admin 51 0 ≡ some (r, w)))
create_tables-Ends_example = create_tables-Ends slow_admin slow_admin-IsClock 0

-- the table is found to be active in the sixth round
made : create_counters_table slow_admin 51 0 ≡ some (ok tt, 1000000007)
unfolding create_counters_table recs.TableHelpers.create_table wait_active
made = refl
