-- ===== src/Table/Tests.antt =====
-- escalation-proxy/app/investigation_registry.py: the theorems on the table, applied to a small one.
use sre_agent_team.Base.{
  ℕ, ◌+◌, ◌≡◌, refl, true, String, some, none, List, [], ◌∷◌, arith, string_discrete,
}
use sre_agent_team.Base.Fallible.{ok, err}
use sre_agent_team.Base.Dict.{lookup}
use sre_agent_team.Base.Text.{starts_with, append}
use sre_agent_team.Registry.Record.{InvestigationRecord, Registry, completed, defaults}
use sre_agent_team.Registry.Samples.{running, request, reading}
use sre_agent_team.Registry.Admission.{Readings, new_record}
use sre_agent_team.Table.Entity.{
  exists, Entity, from_entity, to_entity, number_or, modified, transaction, please_retry,
  entity_etag,
}
use sre_agent_team.Table.Client.{TableClient}
use sre_agent_team.Table.Counter.{quota_counter_key, idempotency_index_key, count_in, sum_active}
use sre_agent_team.Table.Admission.{index_entity, finalize_reservation}
use sre_agent_team.Table.Reads.{get_investigation, get_idempotency_record}
use sre_agent_team.Table.Lifecycle.{complete_investigation, record_findings_metadata}
use sre_agent_team.Table.Sweeps.{reserve_investigation}
use sre_agent_team.Table.Laws.{bodies}
use sre_agent_team.Table.Stored.{ended}
use sre_agent_team.Table.RoundTrip.{stored, from_entity-stored}
use sre_agent_team.Table.Represents.{Represents}
use sre_agent_team.Table.Calls.{
  Call, get, status_poll, summary_poll, finalize, findings, complete, release, in_memory, on_table,
  run, OnIds,
}
use sre_agent_team.Table.Refinement.{translated, calls_refine}
use sre_agent_team.Table.Slots.{complete_frees_slot_once}
use sre_agent_team.Table.Recount.{keyed_reservation_counts_twice}
use sre_agent_team.Table.Keyed.{keyed_reservation_found}
use sre_agent_team.Table.Conflicts.{contended_writes_give_up}
use sre_agent_team.Table.Samples.{
  Rows, row, kept, counter_row, small_client, small_client-IsAlone, rows_of, rows_of-Represents,
}

abbrev one_running : Registry
one_running = record { records = ("i-1", running) ∷ []; workload_investigations = [] }

one_running-owners :
    (id : String) (r : InvestigationRecord)
    → lookup id one_running.records ≡ some r
    → (r.investigation_id ≡ id) × (r.caller_appid ≡ r.workload_identity_appid)
unfolding lookup
one_running-owners id r h = ground arith

abbrev some_calls : List Call
some_calls =
    status_poll "i-1" "owner" "app" (λ _. 300) (λ _. 301)
    ∷ get "i-1" "stranger" "other" 302
    ∷ summary_poll "i-1" "owner" "app" (λ _. 303) (λ _. 303)
    ∷ complete "i-1" "app" completed (λ _. 400)
    ∷ findings "i-1" "app" true "platform" true (λ _. 410)
    ∷ release "i-1" "app"
    ∷ finalize "i-2" "app" "t-2" (λ _. 420)
    ∷ get "i-1" "owner" "app" 700000
    ∷ []

some_calls-OnIds : OnIds some_calls
unfolding starts_with
some_calls-OnIds = (refl, (refl, (refl, (refl, (refl, (refl, (refl, (refl, tt))))))))

calls_refine_example :
    let (table_answers, t) =
      run (on_table small_client "c-2" defaults) some_calls (rows_of 1 one_running) in
    let (answers, s) = run (in_memory defaults) some_calls one_running in
    (table_answers ≡ translated some_calls answers) × Represents row t s
unfolding lookup
calls_refine_example =
    calls_refine small_client row "c-2" defaults some_calls (rows_of 1 one_running) one_running
      small_client-IsAlone (rows_of-Represents 1 one_running (refl, tt) one_running-owners)
      some_calls-OnIds

from_entity-stored_example : from_entity "c-2" (stored (some "v") running) ≡ ok running
from_entity-stored_example = from_entity-stored "c-2" (some "v") running

abbrev stored_running : Rows
stored_running = rows_of 1 one_running

abbrev counter : Entity
counter = kept "app" quota_counter_key (counter_row 1 "app")

complete_frees_slot_once_example :
    let (x, t) =
      complete_investigation small_client defaults "i-1" "app" completed
        (λ _. 400)
        stored_running in
    (x ≡ ok tt)
    × (bodies row t "app" "i-1" ≡ some (to_entity (ended defaults completed 400 running)))
    × ((c : Entity) × (row t "app" quota_counter_key ≡ some c) × (count_in c ≡ ok 0))
    × (complete_investigation small_client defaults "i-1" "app" completed (λ _. 500) t ≡ (ok tt, t))
unfolding starts_with lookup string_discrete number_or to_entity
complete_frees_slot_once_example =
    complete_frees_slot_once small_client row defaults "i-1" "app" completed completed (λ _. 400)
      (λ _. 500) stored_running running (some "v") counter 1 small_client-IsAlone refl refl refl
      refl refl refl refl refl refl

keyed_reservation_counts_twice_example :
    sum_active 300 (stored none running ∷ index_entity (λ s. s) request running ∷ []) ≡ ok 2
unfolding starts_with
keyed_reservation_counts_twice_example =
    keyed_reservation_counts_twice (λ s. s) 300 none request running refl refl refl

abbrev second : Readings
second = reading 150 "i-2"

keyed_reservation_found_example :
    let q = record request { idempotency_key = "retry-2" } in
    let r = new_record defaults q second in
    let (x, t) =
      reserve_investigation small_client
        (λ s. s)
        "c-2"
        defaults
        q
        second
        (λ _. 150)
        stored_running in
    (x ≡ ok (record { investigation_id = "i-2"; created = true }))
    × ((c : Entity) × (row t "app" quota_counter_key ≡ some c) × (count_in c ≡ ok 2))
    × (get_investigation small_client "c-2" "i-2" "owner" "app" 200 t ≡ (ok r, t))
    × (get_idempotency_record small_client "c-2" (λ s. s) "app" "retry-2" (λ _. 200) t
        ≡ (ok (some r), t))
unfolding starts_with lookup string_discrete number_or idempotency_index_key append new_record
keyed_reservation_found_example =
    keyed_reservation_found small_client row "c-2" (λ s. s) defaults
      (record request { idempotency_key = "retry-2" }) second (λ _. 150) (λ _. 200) "owner"
      stored_running counter 1 small_client-IsAlone refl refl refl refl refl refl refl refl refl
      refl

-- A table that another writer changes before each write, with the number of the writes so far.
abbrev contended : TableClient (ℕ × Rows)
contended = record {
  get_entity = λ pk rk w. ((small_client.get_entity pk rk w.1).0, w);
  create_entity = λ e w. (err exists, w);
  update_entity = λ e tag w. (err modified, (w.0 + 1, w.1));
  delete_unchanged = λ pk rk tag w. (err modified, (w.0 + 1, w.1));
  delete_entity = λ pk rk w. (ok tt, (w.0 + 1, w.1));
  submit_transaction = λ ops w. (err (transaction 412), (w.0 + 1, w.1));
  query_entities = λ q w. ((small_client.query_entities q w.1).0, w);
  list_entities = λ w. ((small_client.list_entities w.1).0, w);
}

contended_writes_give_up_example :
    (finalize_reservation contended "c-2" "i-1" "app" "t-2" (λ _. 400) (0, stored_running)
      ≡ (err please_retry, (3, stored_running)))
    × (record_findings_metadata contended defaults "i-1" "app" true "platform" true
          (λ _. 400)
          (0, stored_running)
        ≡ (err please_retry, (3, stored_running)))
    × (complete_investigation contended defaults "i-1" "app" completed
          (λ _. 400)
          (0, stored_running)
        ≡ (err please_retry, (3, stored_running)))
unfolding lookup string_discrete to_entity number_or entity_etag
contended_writes_give_up_example =
    contended_writes_give_up contended "c-2" defaults "i-1" "app" (λ k. (k, stored_running))
      (λ _. "v") running refl (λ k. refl) counter 1 "v" (λ k. refl) refl refl (λ k. refl)
      (λ k e tag. refl) (λ k ops. refl) "t-2" true "platform" true completed (λ _. 400) refl
