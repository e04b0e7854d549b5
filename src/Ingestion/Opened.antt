-- ===== src/Ingestion/Opened.antt =====
-- The definitions that a test of the ingestion zone computes with.
use fun_project.Common.{mem_text}
use fun_project.Common.Assoc.{at_key, delete_key, set_key}
use fun_project.Common.Sort.{place_by, sort_by}
use fun_project.Storage.Schema.Float.{float_lt}
use fun_project.Storage.Schema.Types.{is_zero}
use fun_project.Nif.{
  batch_len, refuse_if, known_entity_type, known_rel_type, off_scale, check_source, validate_entity,
  validate_relationship,
}
use fun_project.Ingestion.Registry.{add_new, register_valid, register, get_ingestor, list_ingestors}
use fun_project.Ingestion.Plan.{
  index_by_id, visit_each, finish_visit, by_color, visit, plan_marks, topo_order,
}
use fun_project.Ingestion.Dispatch.{
  drop_text, good_status, deps_satisfied, failed_status, any_dep_failed, look_at, scan, come_back,
  summary_results,
}
use fun_project.Ingestion.Stores.{
  underscores, portable, portable_text, sanitize, decode_checkpoint, read_checkpoint, decoded_lines,
  reverse_onto, drop_first, tail_entries, load, rename_checkpoint, write_checkpoint, save_next,
  save, add_line, append_entry, add_letter, push,
}
use fun_project.Ingestion.RunOne.{
  final_status, first_error, saved_entry, raw_record, passes, finish_entry, push_to, push_dlq,
  note_refusal, sort_out, after_save, advance_unless, advance, after_publish, sort_out_batch,
  after_fetch, after_load, run_one,
}

unfoldable pub opened : Unit {0}
unfolding mem_text at_key delete_key set_key place_by sort_by float_lt is_zero batch_len refuse_if
    known_entity_type known_rel_type off_scale check_source validate_entity validate_relationship
    add_new register_valid register get_ingestor list_ingestors index_by_id visit_each finish_visit
    by_color visit plan_marks topo_order drop_text good_status deps_satisfied failed_status
    any_dep_failed look_at scan come_back summary_results underscores portable portable_text
    sanitize decode_checkpoint read_checkpoint decoded_lines reverse_onto drop_first tail_entries
    load rename_checkpoint write_checkpoint save_next save add_line append_entry add_letter push
    final_status first_error saved_entry raw_record passes finish_entry push_to push_dlq
    note_refusal sort_out after_save advance_unless advance after_publish sort_out_batch after_fetch
    after_load run_one
opened = tt
