-- ===== src/Api/Graphs.antt =====
-- crates/nclav-api/src/handlers.rs: `get_enclave_graph` and `get_system_graph`.
use nclav.Base.Effects.{pure, ◌>>=◌}
use nclav.Base.{
  String, Option, none, some, unwrap_or, map_option, List, ◌++◌, map, flat_map, get, string_eq,
}
use nclav.Domain.{
  EnclaveId, PartitionId, Partition, Import, Export, ExportType, ProducesType, CloudTarget,
}
use nclav.Store.{EnclaveState, PartitionState, ProvisioningStatus, ResourceMeta, status_name}
use nclav.Api.{AppState, Handler}
use nclav.Api.Enclaves.{get_enclave, list_enclaves}

pub record PartitionNode : Type 0 where
  pub id : PartitionId
  pub name : String
  pub produces : Option ProducesType
  pub status : String

pub record ExportEdge : Type 0 where
  pub from : PartitionId
  pub export_name : String
  pub export_type : ExportType

pub record EnclaveGraph : Type 0 where
  pub enclave : EnclaveId
  pub status : ProvisioningStatus
  pub nodes : List PartitionNode
  pub edges : List ExportEdge

pub record EnclaveNode : Type 0 where
  pub id : EnclaveId
  pub name : String
  pub cloud : Option CloudTarget
  pub meta : ResourceMeta
  pub partitions : List PartitionNode

-- An import of an enclave, or of one of its partitions.
pub record ImportEdge : Type 0 where
  pub from : EnclaveId
  pub to : EnclaveId
  pub partition : Option PartitionId
  pub export_name : String
  pub alias : String

pub record SystemGraph : Type 0 where
  pub nodes : List EnclaveNode
  pub edges : List ImportEdge

abbrev import_edge : EnclaveId → Option PartitionId → Import → ImportEdge
import_edge to partition i = record {
  from = i.from;
  to = to;
  partition = partition;
  export_name = i.export_name;
  alias = i.alias;
}

module _ {V : Type 0} where
  unfoldable pub partition_node : EnclaveState V → Partition → PartitionNode
  unfolding get status_name
  partition_node enc_state p = record {
    id = p.id;
    name = p.name;
    produces = p.produces;
    status =
        unwrap_or
          (map_option (λ (ps : PartitionState V). status_name ps.meta.status)
            (get p.id enc_state.partitions))
          "pending";
  }

  unfoldable pub enclave_graph : EnclaveState V → EnclaveGraph
  unfolding partition_node
  enclave_graph s = record {
    enclave = s.desired.id;
    status = s.meta.status;
    nodes = map (partition_node s) s.desired.partitions;
    edges =
        map
          (λ (e : Export). record {
            from = e.target_partition;
            export_name = e.name;
            export_type = e.export_type;
          })
          s.desired.exports;
  }

  -- The edges that the two loops of `get_system_graph` push for one enclave.
  unfoldable pub import_edges : EnclaveState V → List ImportEdge
  import_edges s =
      map (import_edge s.desired.id none) s.desired.imports
      ++ flat_map (λ (p : Partition). map (import_edge s.desired.id (some p.id)) p.imports)
          s.desired.partitions

  unfoldable pub system_graph : List (EnclaveState V) → SystemGraph
  unfolding partition_node import_edges
  system_graph all = record {
    nodes =
        map
          (λ (s : EnclaveState V). record {
            id = s.desired.id;
            name = s.desired.name;
            cloud = s.desired.cloud;
            meta = s.meta;
            partitions = map (partition_node s) s.desired.partitions;
          })
          all;
    edges = flat_map import_edges all;
  }

module _ {V S W : Type 0} (state : AppState V S W) where
  unfoldable pub get_enclave_graph : EnclaveId → Handler S W EnclaveGraph
  unfolding enclave_graph
  get_enclave_graph id = get_enclave state id >>= λ s. pure (enclave_graph s)

  unfoldable pub get_system_graph : Handler S W SystemGraph
  unfolding system_graph
  get_system_graph = list_enclaves state >>= λ all. pure (system_graph all)
