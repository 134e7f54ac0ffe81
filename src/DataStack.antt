-- ===== src/DataStack.antt =====
-- The tables, topics and queues that are deployed (infra/data_stack.go). Grants are calls of the deployment library.
pub mod Requests
pub mod Calls
pub mod CounterCalls
pub mod RomanceCalls
pub mod PeerCalls
pub mod Repositories
pub mod Queues
use recs.Prelude.{String, Bool, true, Option, none, some, List, [], ◌∷◌}
use recs.RomancesRepository.Get.{romances_table_name, pk_user_id_attr_name, sk_user_id_attr_name}
use recs.CountersRepository.Increments.{
  counters_table_name, user_id_attr_name, hour_unix_timestamp_attr_name,
}

-- `AttributeType_STRING`, `AttributeType_NUMBER`
pub data AttributeType : Type 0 where
  string_type number_type : AttributeType

pub record Attribute : Type 0 where
  pub name : String
  pub attribute_type : AttributeType

pub record Keys : Type 0 where
  pub partition_key : Attribute
  pub sort_key : Attribute

-- a global secondary index, which projects the keys only
pub record GlobalSecondaryIndex : Type 0 where
  pub index_name : String
  pub keys : Keys

pub record Table : Type 0 where
  pub table_name : String
  pub keys : Keys
  pub indexes : List GlobalSecondaryIndex
  -- the attribute of the `TimeToLiveSpecification`
  pub time_to_live : Option String

pub record Topic : Type 0 where
  pub topic_name : String
  pub fifo : Bool

pub record Queue : Type 0 where
  pub queue_name : String
  pub fifo : Bool

pub record DataOutputs : Type 0 where
  pub counters : Table
  pub romances : Table
  pub delete_romances_fifo_topic : Topic
  pub delete_romances_fifo_queue : Queue
  pub delete_romances_group_fifo_topic : Topic
  pub delete_romances_group_fifo_queue : Queue

abbrev pub counters_table : Table
counters_table = record {
  table_name = counters_table_name;
  keys = record {
    partition_key = record { name = user_id_attr_name; attribute_type = string_type };
    sort_key = record { name = hour_unix_timestamp_attr_name; attribute_type = number_type };
  };
  indexes = [];
  time_to_live = some "ttl";
}

abbrev pub romances_table : Table
romances_table = record {
  table_name = romances_table_name;
  keys = record {
    partition_key = record { name = pk_user_id_attr_name; attribute_type = string_type };
    sort_key = record { name = sk_user_id_attr_name; attribute_type = string_type };
  };
  indexes =
      record {
        index_name = "gsiByMaxMinUser";
        keys = record {
          partition_key = record { name = sk_user_id_attr_name; attribute_type = string_type };
          sort_key = record { name = pk_user_id_attr_name; attribute_type = string_type };
        };
      }
      ∷ [];
  time_to_live = some "ttl";
}

abbrev pub data_stack : DataOutputs
data_stack = record {
  counters = counters_table;
  romances = romances_table;
  delete_romances_fifo_topic = record { topic_name = "delete-romances.fifo"; fifo = true };
  delete_romances_fifo_queue = record { queue_name = "delete-romances-queue.fifo"; fifo = true };
  delete_romances_group_fifo_topic = record {
    topic_name = "delete-romances-group.fifo";
    fifo = true;
  };
  delete_romances_group_fifo_queue = record {
    queue_name = "delete-romances-group-queue.fifo";
    fifo = true;
  };
}
