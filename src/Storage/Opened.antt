-- ===== src/Storage/Opened.antt =====
-- The definitions that a test of the storage zone computes with.
use fun_project.Common.{is_blank, mem_text}
use fun_project.Storage.Schema.Float.{float_eq, float_lt}
use fun_project.Storage.Schema.Json.{field_count, get_field, deep_equal}
use fun_project.Storage.Schema.Types.{
  is_zero, before, entity_type_valid, relationship_type_valid, entity_id_of, relationship_id_of,
}
use fun_project.Storage.Schema.Validate.{
  check, outside_unit, ends_early, validate_entity, validate_relationship,
}
use fun_project.Storage.Table.{find, update_where, affected}
use fun_project.Storage.Graph.{
  is_number, find_entity, find_relationship, entity_exists, with_defaults, rel_with_defaults,
  overwrite_entity, overwrite_relationship, mark_entity_deleted, mark_relationship_deleted,
  next_version, dangling, insert_entity, update_entity, soft_delete, insert_relationship,
  update_relationship, soft_delete_rel,
}
use fun_project.Storage.DeltaLog.{append}
use fun_project.Storage.Cache.{
  entry_at, put_entry, discard, fresh, get_entity, set_entity, get_neighborhood, set_neighborhood,
  invalidate_entity, invalidate_relationship, has_node, involves,
}
use fun_project.Storage.Metrics.{latest, newer, stamp, replace, place, series, ingest_entity}
use fun_project.Storage.Query.{
  set_field, inject_summary, inject_metrics_summary, keep_entity, serve_entity, load_entity,
  touches, edges_among, edges_for_node, other_end, seen, admit, visit, visit_all, expand, levels,
  clamp_depth, neighborhood_key, except, begin, result_of, traverse, serve_neighborhood,
  neighborhood,
}
use fun_project.Storage.Query.Listing.{where_rows, listed_in, end_in, edge_in}
use fun_project.Storage.Mutation.Conflict.{
  maps_equal, same_flag, entity_equal_for_update, rel_equal_for_update,
}
use fun_project.Storage.Mutation.Handlers.{
  normalize_entity, normalize_relationship, clashes, append_entity_log, append_rel_log,
  store_entity, upsert_entity, store_relationship, connect, upsert_relationship, remove_entity,
  soft_delete_entity, remove_relationship, delete_relationship, dispatch, apply_one,
}
use fun_project.Storage.Mutation.Batch.{
  after_step, step, resume, apply_each, start, enqueue, invalidate_pairs, changed, publish,
  publish_all, finish, apply_batch,
}
use fun_project.Storage.Snapshot.Replay.{
  put_value, find_value, decode_entity, decode_relationship, replay_entry, replay_all,
}
use fun_project.Storage.Snapshot.Store.{
  max_entry_id, nearest, entries_between, load_snapshot, restore_at, restore_graph, create_snapshot,
  graph_of, has_snapshot,
}

unfoldable pub opened : Unit {0}
unfolding is_blank mem_text float_eq float_lt field_count get_field deep_equal is_zero before
    entity_type_valid relationship_type_valid entity_id_of relationship_id_of check outside_unit
    ends_early validate_entity validate_relationship find update_where affected find_entity
    find_relationship entity_exists with_defaults rel_with_defaults overwrite_entity
    overwrite_relationship mark_entity_deleted mark_relationship_deleted next_version dangling
    insert_entity update_entity soft_delete insert_relationship update_relationship soft_delete_rel
    append entry_at put_entry discard fresh get_entity set_entity get_neighborhood set_neighborhood
    invalidate_entity invalidate_relationship has_node involves maps_equal same_flag is_number
    entity_equal_for_update rel_equal_for_update normalize_entity normalize_relationship clashes
    append_entity_log append_rel_log store_entity upsert_entity store_relationship connect
    upsert_relationship remove_entity soft_delete_entity remove_relationship delete_relationship
    dispatch apply_one after_step step resume apply_each start enqueue invalidate_pairs changed
    publish publish_all finish apply_batch put_value find_value decode_entity decode_relationship
    replay_entry replay_all max_entry_id nearest entries_between load_snapshot restore_at
    restore_graph create_snapshot graph_of has_snapshot latest newer stamp replace place series
    ingest_entity set_field inject_summary inject_metrics_summary keep_entity serve_entity
    load_entity touches edges_among edges_for_node other_end seen admit visit visit_all expand
    levels clamp_depth neighborhood_key except begin result_of traverse serve_neighborhood
    neighborhood where_rows listed_in end_in edge_in
opened = tt
