-- ===== src/Platform.antt =====
-- What the repositories take from packages that are not part of the program: the DynamoDB client,
-- the clock, `attributevalue.UnmarshalMap` at the two schemas, and the text form of UUIDs
-- (`UUID.String`, `uuid.Parse`); and the program's configuration.
use recs.Prelude.{String}
use recs.Errors.{Result}
use recs.Uuid.{Uuid}
use recs.Time.{Time}
use recs.Config.{Config}
use recs.Dynamo.{Client}
use recs.Dynamo.Attributes.{Item}
use recs.Documents.{RomanceDocumentSchema, CountersDocumentSchema}

pub record Platform (World : Type 0) : Type 0 where
  pub client : Client World
  -- `time.Now()`
  pub now : World → Time × World
  pub unmarshal_romance : Item → Result RomanceDocumentSchema
  pub unmarshal_counters : Item → Result CountersDocumentSchema
  pub uuid_string : Uuid → String
  pub uuid_parse : String → Result Uuid
  pub config : Config
