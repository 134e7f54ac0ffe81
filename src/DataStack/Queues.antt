-- ===== src/DataStack/Queues.antt =====
-- Queues that are deployed, and those that the subscriber asks for.
use recs.Prelude.{String, ◌≡◌, refl}
use recs.Strings.{trim_suffix}
use recs.Sns.{is_fifo, resolve_topic, generate_sqs_queue_name}
use recs.Sns.Queues.{generate_sqs_queue_name-queue_of}
use recs.Messages.{delete_romances_topic, delete_romances_group_topic}
use recs.DataStack.{Topic, Queue, data_stack}

-- A topic and a queue that are deployed as the code wants them for one of its topics: of its name,
-- FIFO as the name says, and the queue under the name that the subscriber makes of the topic.
pub record Serves (region topic_name : String) (topic : Topic) (queue : Queue) : Type 0 where
  pub same_name : topic.topic_name ≡ topic_name
  pub topic_fifo : topic.fifo ≡ is_fifo topic_name
  pub queue_fifo : queue.fifo ≡ is_fifo queue.queue_name
  pub queue_found : generate_sqs_queue_name (resolve_topic region topic_name) ≡ queue.queue_name

-- In every region, the two topics that the code publishes to are deployed, and each has the queue
-- that the subscriber asks for.
pub data_stack-Serves :
    (region : String)
    → Serves region delete_romances_topic data_stack.delete_romances_fifo_topic
        data_stack.delete_romances_fifo_queue
      × Serves region delete_romances_group_topic data_stack.delete_romances_group_fifo_topic
          data_stack.delete_romances_group_fifo_queue
unfolding is_fifo trim_suffix
data_stack-Serves region = (
  record {
    same_name = refl;
    topic_fifo = refl;
    queue_fifo = refl;
    queue_found = generate_sqs_queue_name-queue_of region delete_romances_topic refl;
  },
  record {
    same_name = refl;
    topic_fifo = refl;
    queue_fifo = refl;
    queue_found = generate_sqs_queue_name-queue_of region delete_romances_group_topic refl;
  },
)
