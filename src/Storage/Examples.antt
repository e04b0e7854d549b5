-- ===== src/Storage/Examples.antt =====
-- Data for the tests and the witnesses of the storage zone.
use fun_project.Common.{◌+◌, String, none, some, true, []}
use fun_project.Storage.Schema.Float.{float_one}
use fun_project.Storage.Schema.Json.{end, field, text}
use fun_project.Storage.Schema.Types.{Entity, Relationship, zero_time}
use fun_project.Storage.Session.{
  Env, empty_db, upsert_entity, upsert_relationship, soft_delete_entity,
}
use fun_project.Storage.Cache.{new_cache}
use fun_project.Storage.Mutation.Handlers.{Mutation}
use fun_project.Storage.Mutation.Batch.{Store}

-- A clock that moves by a nanosecond at each call, and texts that are their own digest.
abbrev pub sample_env : Env
sample_env = record {
  begin_ok = true;
  commit_ok = true;
  marshals = λ p. true;
  marshals_properties = λ p. true;
  txn_id = "txn_1";
  clock = λ n. zero_time + 1000000000 + n;
  hex_sha256 = λ s. s;
}

abbrev pub payments : Entity
payments = record {
  id = "ent_a";
  type = "SERVICE";
  sub_type = "";
  canonical_name = "payments";
  namespace = "acme";
  confidence = float_one;
  is_active = true;
  lifecycle_stage = "";
  valid_from = zero_time + 5;
  valid_to = none;
  version = 0;
  properties = field "tier" (text "1") end;
}

abbrev pub ledger : Entity
ledger = record payments { id = "ent_b"; canonical_name = "ledger" }

abbrev pub calls : Relationship
calls = record {
  id = "rel_ab";
  type = "CALLS";
  from_id = "ent_a";
  to_id = "ent_b";
  confidence = float_one;
  is_active = true;
  valid_from = zero_time + 5;
  valid_to = none;
  version = 0;
  properties = end;
}

abbrev pub upserting : Entity → Mutation
upserting e = record { kind = upsert_entity; entity = some e; relationship = none; target_id = "" }

abbrev pub connecting : Relationship → Mutation
connecting r = record {
  kind = upsert_relationship;
  entity = none;
  relationship = some r;
  target_id = "";
}

abbrev pub removing : String → Mutation
removing id = record {
  kind = soft_delete_entity;
  entity = none;
  relationship = none;
  target_id = id;
}

abbrev pub empty_store : Store
empty_store = record { db = empty_db; cache = new_cache; tick = 0; queue = some [] }
