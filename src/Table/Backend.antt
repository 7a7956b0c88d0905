-- ===== src/Table/Backend.antt =====
-- escalation-proxy/app/investigation_registry.py: `build_investigation_registry`, and the `health_check` of the table
-- registry (that of the in-memory one does nothing).
use sre_agent_team.Base.{String, ◌==◌, if◌then◌else◌}
use sre_agent_team.Base.Fallible.{Result, ok, err}
use sre_agent_team.Table.Client.{Action, ◌>>=◌, give, TableClient}

-- The registry that is chosen, and what is raised in place of one.
pub data Backend : Type 0 where
  memory : Backend
  table : String → String → Backend

pub data BackendError : Type 0 where
  endpoint_required unknown_backend : BackendError

-- The tests of `TableStorageInvestigationRegistry.__init__`.
unfoldable pub table_backend : String → String → Result BackendError Backend
table_backend endpoint table_name =
    if endpoint == "" then err endpoint_required else ok (table endpoint table_name)

-- The arguments are the three settings of the module.
unfoldable pub build_investigation_registry : String → String → String → Result BackendError Backend
build_investigation_registry backend endpoint table_name =
    if backend == "table"
    then table_backend endpoint table_name
    else if backend == "memory"
    then ok memory
    else err unknown_backend

unfoldable pub health_check : {T : Type 0} → TableClient T → Action T (Unit {0})
health_check client = do _ ← client.list_entities; give tt
