-- ===== src/Examples/Journal.antt =====
-- Tests of internal/agent/inventory.
use cluster_api_hypervisor.Common.{
  true, ◌≡◌, refl, some, [], ◌∷◌, find, affected, update, exists_row,
}
use cluster_api_hypervisor.Exec.{ok, pure, ◌>>=◌}
use cluster_api_hypervisor.Inventory.{intent, completed, Operation, Store, statement}
use cluster_api_hypervisor.Inventory.Journal.{
  begin_operation, complete_operation, is_terminal, same_request, same_state, has_key,
  validate_operation, insert_intent, load_operation, record_outcome, close_operation, exactly_one,
  transaction, begin_body,
}
use cluster_api_hypervisor.Inventory.JournalAnswers.{Begins, begin_operation-Begins}
use cluster_api_hypervisor.Inventory.JournalOutcomes.{
  IsRecorded, complete_operation-IsRecorded, complete_operation_idem,
}
use cluster_api_hypervisor.Inventory.Resources.{
  maps_guest, put_published_port, owns_resource, is_port_number,
}
use cluster_api_hypervisor.Inventory.ResourceLaws.{host_of, put_published_port-maps}
use cluster_api_hypervisor.Examples.Data.{entry, store_of, resource, mapping}

abbrev request : Operation
request = entry intent ""

abbrev answered : Operation
answered = entry completed "30080"

abbrev empty : Store
empty = store_of [] [] []

abbrev pending : Store
pending = store_of (request ∷ []) [] []

abbrev settled : Store
settled = store_of (answered ∷ []) [] []

begin_operation-Begins_example : Begins request settled.tables (begin_operation request settled)
begin_operation-Begins_example = begin_operation-Begins request settled

accepted : (complete_operation request completed "30080" "" pending).0 ≡ ok tt
unfolding complete_operation begin_operation insert_intent load_operation record_outcome
    close_operation exactly_one transaction begin_body statement ◌>>=◌ pure find has_key exists_row
    is_terminal same_request validate_operation affected same_state update
accepted = refl

complete_operation-IsRecorded_example :
    IsRecorded request completed "30080" ""
      (complete_operation request completed "30080" "" pending).1.tables
complete_operation-IsRecorded_example =
    complete_operation-IsRecorded request completed "30080" "" pending accepted

calm : (complete_operation request completed "30080" "" pending).1.faults ≡ []
unfolding complete_operation begin_operation insert_intent load_operation record_outcome
    close_operation exactly_one transaction begin_body statement ◌>>=◌ pure find has_key exists_row
    is_terminal same_request validate_operation affected same_state update
calm = refl

complete_operation_idem_example :
    complete_operation request completed "30080" ""
      (complete_operation request completed "30080" "" pending).1
    ≡ (ok tt, (complete_operation request completed "30080" "" pending).1)
complete_operation_idem_example =
    complete_operation_idem request completed "30080" "" pending accepted calm

put_published_port-maps_example :
    (host_of (
        find
          (maps_guest "lab" "vm-1" 80)
          (put_published_port true mapping (store_of [] (resource ∷ []) []).tables).1.ports)
      ≡ some 30080)
    × (is_port_number 30080 ≡ true)
unfolding put_published_port exists_row is_port_number owns_resource
put_published_port-maps_example =
    put_published_port-maps true mapping (store_of [] (resource ∷ []) []).tables tt refl
